-- ===== src/Blocks/FreeMap.antt =====
-- Which blocks are in use, before and after `alloc` and `free`.
use octopos.Base.{
  ℕ, ◌+◌, ◌-◌, ◌*◌, ◌/◌, ◌%◌, ◌<◌, ◌≡◌, ◌≢◌, sym, ap, subst, ◌∙◌, ◌⊎◌, inl, inr, Bool, true, false,
  none, some, arith, ◌==◌, if◌then◌else◌, Bool-cases, ℕ_discrete, update, update_self, update-ne,
  ok, err,
}
use octopos.Fs.{out_of_block}
use octopos.Blocks.{bpb, SuperBlock, Bits, zero_block, scan_maps, alloc_block, free_block}
use octopos.Blocks.Scan.{used, marked, scan_maps_lem}

-- The mark that is written is the one of that block only.
used-marked :
    (sb : SuperBlock) (x y : ℕ) (v : Bool) (d : Bits)
    → used sb (marked sb x v d) y ≡ (if x == y then v else used sb d y)
used-marked sb x y v d = elim (ℕ_discrete x y) [
  | yes same ↦ ground (arith, same)
  | no other ↦ elim (ℕ_discrete (x / bpb) (y / bpb)) [
    | no rows ↦ ground (arith, rows, other)
    | yes row ↦
        let place : x % bpb ≢ y % bpb = λ e. other (omega arith) in
        ground (arith, row, place, other)
  ]
]

-- Every block of the free map is a block of the disk and marked in it.
pub record MapReserved (sb : SuperBlock) (d : Bits) : Type 0 where
  pub reserved :
      (b : ℕ)
      → b < sb.size
      → (sb.bmapstart + b / bpb < sb.size) × (used sb d (sb.bmapstart + b / bpb) ≡ true)

pub record Allocated (sb : SuperBlock) (d : Bits) (x : ℕ) (d' : Bits) : Type 0 where
  pub in_disk : x < sb.size
  pub was_free : used sb d x ≡ false
  pub lowest : (y : ℕ) → y < x → used sb d y ≡ true
  pub map : (y : ℕ) → y < sb.size → used sb d' y ≡ (if x == y then true else used sb d y)
  pub zeroed : (i : ℕ) → d' x i ≡ false
  pub reserved : MapReserved sb d'
  pub other : (b : ℕ) → b ≢ x → ((y : ℕ) → y < sb.size → sb.bmapstart + y / bpb ≢ b) → d' b ≡ d b

-- With the free map marked in itself, `alloc` fails exactly when all blocks are in use, and then changes
-- nothing. Otherwise it takes the lowest free block, marks it and no other, and fills it with zeros;
-- the free map is still marked in itself.
pub alloc_block_lem :
    (sb : SuperBlock) (d : Bits)
    → MapReserved sb d
    → (((y : ℕ) → y < sb.size → used sb d y ≡ true) × (alloc_block sb d ≡ (err out_of_block, d)))
      ⊎ ((x : ℕ) × (d' : Bits) × (alloc_block sb d ≡ (ok x, d')) × Allocated sb d x d')
unfolding alloc_block zero_block
alloc_block_lem sb d m =
    let zero_row : 0 * bpb ≡ 0 = omega arith in
    let k = (sb.size + bpb - 1) / bpb in
    let start : scan_maps sb k 0 d ≡ scan_maps sb k (0 * bpb) d =
      ap (λ b. scan_maps sb k b d) (sym zero_row) in
    elim (scan_maps_lem sb k 0 d) [
      | inl (full, e) ↦ inl ((λ y low. full y (omega arith) (omega arith) low), start ∙ e)
      | inr (x, _, low, clear, before, e) ↦
          let d₁ = marked sb x true d in
          let d' = zero_block x d₁ in
          let off : (y : ℕ) → y < sb.size → sb.bmapstart + y / bpb ≢ x =
            λ y ly c. ground (arith, (m.reserved y ly).1, c, clear) in
          let now : (y : ℕ) → y < sb.size → used sb d' y ≡ (if x == y then true else used sb d y) =
            λ y ly.
              ap (λ (f : ℕ → Bool). f (y % bpb))
                (update-ne d₁ x (sb.bmapstart + y / bpb) (λ _. false) (λ c. off y ly (sym c)))
              ∙ used-marked sb x y true d in
          inr (
            x,
            d',
            start ∙ e,
            record {
              in_disk = low;
              was_free = clear;
              lowest = λ y lt. before y (omega arith) lt;
              map = now;
              zeroed = λ i. ap (λ (f : ℕ → Bool). f i) (update_self d₁ x (λ _. false));
              reserved = record {
                reserved = λ b lb.
                    let (inside, mark) = m.reserved b lb in
                    (inside, ground (arith, now (sb.bmapstart + b / bpb) inside, mark));
              };
              other = λ b ne off'.
                  update-ne d₁ x b (λ _. false) (λ c. ne (sym c))
                  ∙ update-ne d (sb.bmapstart + x / bpb) b
                      (update (d (sb.bmapstart + x / bpb)) (x % bpb) true) (off' x low);
            },
          )
    ]

-- `free` panics exactly if the block is not in use, and else takes its mark away and no other; if the block
-- is none of the free map's, that stays marked in itself.
pub free_block_lem :
    (sb : SuperBlock) (b : ℕ) (d : Bits)
    → MapReserved sb d
    → ((y : ℕ) → y < sb.size → sb.bmapstart + y / bpb ≢ b)
    → ((used sb d b ≡ false) × (free_block sb b d ≡ none))
      ⊎ ((used sb d b ≡ true)
          × (d' : Bits) × (free_block sb b d ≡ some d')
          × MapReserved sb d'
          × ((y : ℕ) → used sb d' y ≡ (if b == y then false else used sb d y)))
unfolding free_block
free_block_lem sb b d m off = elim (Bool-cases (used sb d b)) [
  | inr clear ↦ inl (clear, ground (arith, clear))
  | inl mark ↦
      let now = λ (y : ℕ). used-marked sb b y false d in
      inr (
        mark,
        marked sb b false d,
        ground (arith, mark),
        record {
          reserved = λ y ly.
              let (inside, kept) = m.reserved y ly in
              (inside, ground (arith, now (sb.bmapstart + y / bpb), kept, off y ly));
        },
        now,
      )
]

-- `free` changes no block but the one of the free map.
pub free_block-Other :
    (sb : SuperBlock) (b : ℕ) (d d' : Bits) (x : ℕ)
    → free_block sb b d ≡ some d'
    → sb.bmapstart + b / bpb ≢ x
    → d' x ≡ d x
unfolding free_block
free_block-Other sb b d d' x e off = elim (Bool-cases (used sb d b)) [
  | inr clear ↦ let is : free_block sb b d ≡ none = ground (arith, clear) in absurd (cc)
  | inl mark ↦
      let is : free_block sb b d ≡ some (marked sb b false d) = ground (arith, mark) in
      let same : marked sb b false d ≡ d' = cc in
      ap (λ (f : Bits). f x) (sym same)
      ∙ update-ne d (sb.bmapstart + b / bpb) x (update (d (sb.bmapstart + b / bpb)) (b % bpb) false)
          off
]

-- A block that was allocated can be freed, and then exactly the blocks that were in use before are.
pub free_block-alloc_block :
    (sb : SuperBlock) (d d' : Bits) (x : ℕ)
    → MapReserved sb d
    → alloc_block sb d ≡ (ok x, d')
    → (e : Bits) × (free_block sb x d' ≡ some e)
      × MapReserved sb e
      × ((y : ℕ) → y < sb.size → used sb e y ≡ used sb d y)
free_block-alloc_block sb d d' x m e = elim (alloc_block_lem sb d m) [
  | inl (_, f) ↦ absurd (cc)
  | inr (x', d'', f, a) ↦
      let ex : x' ≡ x = cc in
      let ed : d'' ≡ d' = cc in
      let a' : Allocated sb d x d' =
        subst (λ (i : ℕ). Allocated sb d i d') ex (subst (λ i. Allocated sb d x' i) ed a) in
      let off : (y : ℕ) → y < sb.size → sb.bmapstart + y / bpb ≢ x =
        λ y ly c. ground (arith, (m.reserved y ly).1, c, a'.was_free) in
      elim (free_block_lem sb x d' a'.reserved off) [
        | inl (clear, _) ↦ absurd (ground (arith, clear, a'.map x a'.in_disk))
        | inr (_, g, eg, mg, now) ↦
            (g, eg, mg, λ y ly. ground (arith, now y, a'.map y ly, a'.was_free))
      ]
]
