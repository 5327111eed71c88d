-- ===== src/Inode/Slots.antt =====
-- The addresses that an inode holds, as a function from places: the direct ones at 0 to 11, the block
-- of addresses at 12, and its entries from 13 on; 0 is no block. What a new block changes in it.
use octopos.Base.{
  ℕ, ◌+◌, ◌-◌, ◌/◌, ◌%◌, ◌^◌, ◌≤◌, ◌<◌, ◌≡◌, ◌≢◌, refl, sym, ap, subst, ◌∙◌, inl, inr, true, false,
  arith, ltb, leb, ◌==◌, if◌then◌else◌, Bool-cases, ℕ_discrete,
}
use octopos.Blocks.{SuperBlock, Bits, bpb}
use octopos.Blocks.Scan.{used}
use octopos.Blocks.FreeMap.{MapReserved}
use octopos.Inode.{Block, byte, get_u32, bsize, ndirect}
use octopos.Inode.Bytes.{byte-zeros}

abbrev pub nslots : ℕ
nslots = 269

abbrev pub slot : (ℕ → ℕ) → Bits → ℕ → ℕ
slot addrs d n =
    if leb n ndirect
    then addrs n
    else if addrs ndirect == 0
    then 0
    else get_u32 (d (addrs ndirect)) (n - 13)

-- The place of the `n`th block of the file
abbrev pub place : ℕ → ℕ
place n = if ltb n ndirect then n else n + 1

-- The byte of the file at an offset: a block that is not there reads as zeros.
abbrev pub byte_at : (ℕ → ℕ) → Bits → ℕ → ℕ
byte_at s d off =
    if s (place (off / bsize)) == 0 then 0 else byte (d (s (place (off / bsize)))) (off % bsize)

abbrev pub OffMap : SuperBlock → ℕ → Type 0
OffMap sb b = (y : ℕ) → y < sb.size → sb.bmapstart + y / bpb ≢ b

-- The disk: the free map and the boot block are marked, and block numbers fit a u32.
pub record Sound (sb : SuperBlock) (d : Bits) : Type 0 where
  pub reserved : MapReserved sb d
  pub boot : used sb d 0 ≡ true
  pub small : sb.size ≤ 2 ^ 32

-- The blocks at the places are in use, each at one place, and none is of the free map.
pub record Owned (sb : SuperBlock) (s : ℕ → ℕ) (d : Bits) : Type 0 where
  pub in_disk : (n : ℕ) → n < nslots → s n ≢ 0 → s n < sb.size
  pub in_use : (n : ℕ) → n < nslots → s n ≢ 0 → used sb d (s n) ≡ true
  pub off_map : (n : ℕ) → n < nslots → s n ≢ 0 → OffMap sb (s n)
  pub distinct : (m n : ℕ) → m < nslots → n < nslots → s m ≢ 0 → s m ≡ s n → m ≡ n

-- From `s` and `d` to `s'` and `d'`: no block is lost, new ones were free, and nothing that belongs to
-- others has changed.
pub record Evolves (sb : SuperBlock) (s : ℕ → ℕ) (d : Bits) (s' : ℕ → ℕ) (d' : Bits) : Type 0 where
  pub sound : Sound sb d'
  pub owned : Owned sb s' d'
  pub keeps : (n : ℕ) → n < nslots → s n ≢ 0 → s' n ≡ s n
  pub new : (n : ℕ) → n < nslots → s n ≡ 0 → s' n ≢ 0 → used sb d (s' n) ≡ false
  pub marks : (b : ℕ) → b < sb.size → used sb d b ≡ true → used sb d' b ≡ true
  pub frame :
      (b : ℕ)
      → b < sb.size
      → used sb d b ≡ true
      → OffMap sb b
      → ((n : ℕ) → n < nslots → s n ≢ b)
      → d' b ≡ d b

pub Evolves-trans :
    (sb : SuperBlock) (s : ℕ → ℕ) (d : Bits) (s' : ℕ → ℕ) (d' : Bits) (s'' : ℕ → ℕ) (d'' : Bits)
    → Evolves sb s d s' d'
    → Evolves sb s' d' s'' d''
    → Evolves sb s d s'' d''
Evolves-trans sb s d s' d' s'' d'' g h = record {
  sound = h.sound;
  owned = h.owned;
  keeps = λ n lt nz.
      let nz' : s' n ≢ 0 = λ c. nz (sym (g.keeps n lt nz) ∙ c) in
      h.keeps n lt nz' ∙ g.keeps n lt nz;
  new = λ n lt z nz. elim (ℕ_discrete (s' n) 0) [
    | yes z' ↦
        let unmarked = h.new n lt z' nz in
        elim (Bool-cases (used sb d (s'' n))) [
          | inr e ↦ e
          | inl u ↦ absurd (ground (arith, unmarked, g.marks (s'' n) (h.owned.in_disk n lt nz) u))
        ]
    | no nz' ↦ ap (used sb d) (h.keeps n lt nz') ∙ g.new n lt z nz'
  ];
  marks = λ b lt u. h.marks b lt (g.marks b lt u);
  frame = λ b lt u off no_slot.
      h.frame b lt (g.marks b lt u) off (λ n ln c. elim (ℕ_discrete (s n) 0) [
        | no nz ↦ no_slot n ln (sym (g.keeps n ln nz) ∙ c)
        | yes z ↦ elim (ℕ_discrete b 0) [
          | yes bz ↦ no_slot n ln (z ∙ sym bz)
          | no nb ↦ ground (arith, g.new n ln z (λ e. nb (sym c ∙ e)), c, u)
        ]
      ])
      ∙ g.frame b lt u off no_slot;
}

-- Places that had no block may have got one, full of zeros; the others' blocks are as they were.
pub record Grew (sb : SuperBlock) (s : ℕ → ℕ) (d : Bits) (s' : ℕ → ℕ) (d' : Bits) : Type 0 where
  pub evolves : Evolves sb s d s' d'
  pub contents : (n : ℕ) → n < nslots → n ≢ ndirect → s n ≢ 0 → d' (s n) ≡ d (s n)
  pub fresh :
      (n : ℕ) → n < nslots → n ≢ ndirect → s n ≡ 0 → s' n ≢ 0 → (i : ℕ) → d' (s' n) i ≡ false

-- The places named in another way
pub Grew-ext :
    (sb : SuperBlock) (s s' : ℕ → ℕ) (d : Bits)
    → Sound sb d
    → Owned sb s d
    → ((n : ℕ) → n < nslots → s' n ≡ s n)
    → Grew sb s d s' d
Grew-ext sb s s' d so ow e = record {
  evolves = record {
    sound = so;
    owned = record {
      in_disk = λ n ln nz.
          subst (λ i. i < sb.size) (sym (e n ln)) (ow.in_disk n ln (λ c. nz (e n ln ∙ c)));
      in_use = λ n ln nz. ap (used sb d) (e n ln) ∙ ow.in_use n ln (λ c. nz (e n ln ∙ c));
      off_map = λ n ln nz.
          subst (λ i. OffMap sb i) (sym (e n ln)) (ow.off_map n ln (λ c. nz (e n ln ∙ c)));
      distinct = λ m n lm ln nz f.
          ow.distinct m n lm ln (λ c. nz (e m lm ∙ c)) (sym (e m lm) ∙ f ∙ e n ln);
    };
    keeps = λ n ln nz. e n ln;
    new = λ n ln z nz. absurd (nz (e n ln ∙ z));
    marks = λ b lb u. u;
    frame = λ b lb u off no_slot. refl;
  };
  contents = λ n ln ne nz. refl;
  fresh = λ n ln ne z nz. absurd (nz (e n ln ∙ z));
}

pub Grew-self :
    (sb : SuperBlock) (s : ℕ → ℕ) (d : Bits) → Sound sb d → Owned sb s d → Grew sb s d s d
Grew-self sb s d so ow = Grew-ext sb s s d so ow (λ n ln. refl)

pub Grew-trans :
    (sb : SuperBlock) (s : ℕ → ℕ) (d : Bits) (s' : ℕ → ℕ) (d' : Bits) (s'' : ℕ → ℕ) (d'' : Bits)
    → Grew sb s d s' d'
    → Grew sb s' d' s'' d''
    → Grew sb s d s'' d''
Grew-trans sb s d s' d' s'' d'' g h = record {
  evolves = Evolves-trans sb s d s' d' s'' d'' g.evolves h.evolves;
  contents = λ n lt ne nz.
      let e = g.evolves.keeps n lt nz in
      let nz' : s' n ≢ 0 = λ c. nz (sym e ∙ c) in
      ap d'' (sym e) ∙ h.contents n lt ne nz' ∙ ap d' e ∙ g.contents n lt ne nz;
  fresh = λ n lt ne z nz i. elim (ℕ_discrete (s' n) 0) [
    | yes z' ↦ h.fresh n lt ne z' nz i
    | no nz' ↦
        let e = h.evolves.keeps n lt nz' in
        ap (λ b. d'' b i) e
        ∙ ap (λ (c : Block). c i) (h.contents n lt ne nz')
        ∙ g.fresh n lt ne z nz' i
  ];
}

-- A file reads the same after it has grown.
pub Grew-byte_at :
    (sb : SuperBlock) (s : ℕ → ℕ) (d : Bits) (s' : ℕ → ℕ) (d' : Bits) (off : ℕ)
    → Grew sb s d s' d'
    → off / bsize < 268
    → byte_at s' d' off ≡ byte_at s d off
Grew-byte_at sb s d s' d' off g lt =
    let n = place (off / bsize) in
    let low : n < nslots = ground (arith, lt) in
    let ne : n ≢ ndirect = ground (arith) in
    elim (ℕ_discrete (s n) 0) [
      | no nz ↦
          let e = g.evolves.keeps n low nz in
          let same : byte (d' (s' n)) (off % bsize) ≡ byte (d (s n)) (off % bsize) =
            ap (λ c. byte c (off % bsize)) (ap d' e ∙ g.contents n low ne nz) in
          ground (arith, nz, e, same)
      | yes z ↦ elim (ℕ_discrete (s' n) 0) [
        | yes z' ↦ ground (arith, z, z')
        | no nz' ↦
            ground (arith, z, nz', byte-zeros (d' (s' n)) (off % bsize) (g.fresh n low ne z nz'))
      ]
    ]
