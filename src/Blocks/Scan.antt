-- ===== src/Blocks/Scan.antt =====
-- The search of `Block::alloc`: the lowest bit of the free map that is clear.
use octopos.Base.{
  ℕ, zero, suc, ◌+◌, ◌-◌, ◌*◌, ◌/◌, ◌%◌, ◌≤◌, ◌<◌, ◌≡◌, refl, sym, ap, subst, ◌∙◌, ◌⊎◌, inl, inr,
  Bool, true, false, Option, none, some, arith, Bool-cases, ℕ_discrete, dec_lt, Result, ok, err,
}
use octopos.Fs.{FsError, out_of_block}
use octopos.Blocks.{bpb, SuperBlock, Bits, zero_block, set_bit, scan_bits, scan_maps}

-- Block `b` is marked in the free map.
abbrev pub used : SuperBlock → Bits → ℕ → Bool
used sb d b = d (sb.bmapstart + b / bpb) (b % bpb)

-- What the inner loop finds.
abbrev Scanned : SuperBlock → ℕ → ℕ → ℕ → Bits → Option ℕ → Type 0
Scanned sb b k bi d none =
    (j : ℕ) → bi ≤ j → j < bi + k → b + j < sb.size → d (sb.bmapstart + b / bpb) j ≡ true
Scanned sb b k bi d (some x) =
    (bi ≤ x)
    × (x < bi + k)
    × (b + x < sb.size)
    × (d (sb.bmapstart + b / bpb) x ≡ false)
    × ((j : ℕ) → bi ≤ j → j < x → d (sb.bmapstart + b / bpb) j ≡ true)

scan_bits_lem :
    (sb : SuperBlock) (b k bi : ℕ) (d : Bits) → Scanned sb b k bi d (scan_bits sb b k bi d)
unfolding scan_bits
scan_bits_lem sb b zero bi d = λ j le lt _. absurd (omega arith)
scan_bits_lem sb b (suc k) bi d =
    let bit = d (sb.bmapstart + b / bpb) in
    elim (dec_lt (b + bi) sb.size) [
      | no beyond ↦
          let is : scan_bits sb b (suc k) bi d ≡ none = ground (arith, beyond) in
          let good : Scanned sb b (suc k) bi d none = λ j le lt low. absurd (omega arith) in
          subst (λ r. Scanned sb b (suc k) bi d r) (sym is) good
      | yes inside ↦ elim (Bool-cases (bit bi)) [
        | inr clear ↦
            let is : scan_bits sb b (suc k) bi d ≡ some bi = ground (arith, inside, clear) in
            let good : Scanned sb b (suc k) bi d (some bi) =
              (omega arith, omega arith, inside, clear, λ j le lt. absurd (omega arith)) in
            subst (λ r. Scanned sb b (suc k) bi d r) (sym is) good
        | inl marked ↦
            let rest = scan_bits sb b k (bi + 1) d in
            let is : scan_bits sb b (suc k) bi d ≡ rest = ground (arith, inside, marked) in
            subst (λ r. Scanned sb b (suc k) bi d r) (sym is)
              (one_more rest marked (scan_bits_lem sb b k (bi + 1) d))
      ]
    ]
  where
    one_more :
        (r : Option ℕ)
        → d (sb.bmapstart + b / bpb) bi ≡ true
        → Scanned sb b k (bi + 1) d r
        → Scanned sb b (suc k) bi d r
    one_more none marked h = λ j le lt low. elim (ℕ_discrete j bi) [
      | yes same ↦ ap (d (sb.bmapstart + b / bpb)) same ∙ marked
      | no other ↦ h j (omega arith) (omega arith) low
    ]
    one_more (some x) marked (le, lt, low, clear, before) = (
      omega arith,
      omega arith,
      low,
      clear,
      λ j le' lt'. elim (ℕ_discrete j bi) [
        | yes same ↦ ap (d (sb.bmapstart + b / bpb)) same ∙ marked
        | no other ↦ before j (omega arith) lt'
      ],
    )

-- The marks after block `x` is taken, or given back
abbrev pub marked : SuperBlock → ℕ → Bool → Bits → Bits
marked sb x v d = set_bit (sb.bmapstart + x / bpb) (x % bpb) v d

abbrev pub MapsScanned : SuperBlock → ℕ → ℕ → Bits → Result ℕ FsError × Bits → Type 0
MapsScanned sb k q d r =
    (((x : ℕ) → q * bpb ≤ x → x < (q + k) * bpb → x < sb.size → used sb d x ≡ true)
      × (r ≡ (err out_of_block, d)))
    ⊎ ((x : ℕ) × (q * bpb ≤ x)
        × (x < sb.size)
        × (used sb d x ≡ false)
        × ((y : ℕ) → q * bpb ≤ y → y < x → used sb d y ≡ true)
        × (r ≡ (ok x, zero_block x (marked sb x true d))))

pub scan_maps_lem :
    (sb : SuperBlock) (k q : ℕ) (d : Bits) → MapsScanned sb k q d (scan_maps sb k (q * bpb) d)
unfolding scan_maps
scan_maps_lem sb zero q d = inl (λ x le lt _. absurd (omega arith), refl)
scan_maps_lem sb (suc k) q d =
    go (scan_bits sb (q * bpb) bpb 0 d) refl (scan_bits_lem sb (q * bpb) bpb 0 d)
      (scan_maps_lem sb k (q + 1) d)
  where
    row : q * bpb / bpb ≡ q
    row = omega arith

    -- A block of the row that the inner loop has passed
    in_row :
        (x : ℕ)
        → q * bpb ≤ x
        → x < q * bpb + bpb
        → d (sb.bmapstart + q * bpb / bpb) (x - q * bpb) ≡ true
        → used sb d x ≡ true
    in_row x le lt e =
        let same_row : x / bpb ≡ q * bpb / bpb = omega arith in
        let place : x % bpb ≡ x - q * bpb = omega arith in
        ap (λ i. d (sb.bmapstart + i) (x % bpb)) same_row
        ∙ ap (d (sb.bmapstart + q * bpb / bpb)) place
        ∙ e

    go :
        (r : Option ℕ)
        → scan_bits sb (q * bpb) bpb 0 d ≡ r
        → Scanned sb (q * bpb) bpb 0 d r
        → MapsScanned sb k (q + 1) d (scan_maps sb k ((q + 1) * bpb) d)
        → MapsScanned sb (suc k) q d (scan_maps sb (suc k) (q * bpb) d)
    go (some i) e (_, lt, low, clear, before) rest =
        let x = q * bpb + i in
        let same_row : x / bpb ≡ q * bpb / bpb = omega arith in
        let place : x % bpb ≡ i = omega arith in
        inr (
          x,
          omega arith,
          low,
          ap (λ n. d (sb.bmapstart + n) (x % bpb)) same_row
              ∙ ap (d (sb.bmapstart + q * bpb / bpb)) place
              ∙ clear,
          (λ y le lt'.
              in_row y le (omega arith) (before (y - q * bpb) (omega arith) (omega arith))),
          ground (arith, e, same_row, place),
        )
    go none e full rest =
        let next_row : q * bpb + bpb ≡ (q + 1) * bpb = omega arith in
        let is : scan_maps sb (suc k) (q * bpb) d ≡ scan_maps sb k ((q + 1) * bpb) d =
          ground (arith, e, next_row) in
        let row_full : (x : ℕ)
            → q * bpb ≤ x
            → x < q * bpb + bpb
            → x < sb.size
            → used sb d x ≡ true =
          λ x le lt low.
            in_row x le lt (full (x - q * bpb) (omega arith) (omega arith) (omega arith)) in
        elim rest [
          | inl (h, er) ↦ inl (
            (λ x le lt low. elim (dec_lt x (q * bpb + bpb)) [
              | yes here ↦ row_full x le here low
              | no there ↦ h x (omega arith) (omega arith) low
            ]),
            is ∙ er,
          )
          | inr (x, le, low, clear, before, er) ↦ inr (
            x,
            omega arith,
            low,
            clear,
            (λ y le' lt'. elim (dec_lt y (q * bpb + bpb)) [
              | yes here ↦ row_full y le' here (omega arith)
              | no there ↦ before y (omega arith) lt'
            ]),
            is ∙ er,
          )
        ]
