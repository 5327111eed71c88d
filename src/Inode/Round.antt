-- ===== src/Inode/Round.antt =====
-- One round of a write: the block of the place, with some bytes written over it.
use octopos.Base.{
  ℕ, ◌+◌, ◌-◌, ◌*◌, ◌/◌, ◌%◌, ◌≤◌, ◌<◌, ◌≡◌, ◌≢◌, refl, sym, ap, ◌∙◌, ◌⊎◌, inl, inr, ◌&&◌, arith,
  ltb, leb, if◌then◌else◌, ℕ_discrete, dec_lt, update, update_self,
}
use octopos.Blocks.{SuperBlock, Bits}
use octopos.Inode.{Block, byte, put_bytes, bsize, ndirect}
use octopos.Inode.Bytes.{byte-put_bytes, byte-put_bytes_out}
use octopos.Inode.Slots.{nslots, slot, place, byte_at, Evolves-trans, Grew, Grew-byte_at}
use octopos.Inode.Contents.{Wrote, same_block, same_slot, write_block-Evolves}

-- After a file has grown by blocks of zeros it reads the same: nothing is written.
pub Grew-Wrote :
    (sb : SuperBlock) (f : ℕ → ℕ) (lo : ℕ) (s : ℕ → ℕ) (d : Bits) (s' : ℕ → ℕ) (d' : Bits)
    → Grew sb s d s' d'
    → Wrote sb f lo lo s d s' d'
Grew-Wrote sb f lo s d s' d' g = record {
  evolves = g.evolves;
  bytes = λ off lt. Grew-byte_at sb s d s' d' off g lt ∙ ground (arith);
  present = λ off le lt. absurd (omega arith);
}

pub Wrote-trans :
    (sb : SuperBlock) (f : ℕ → ℕ) (lo mid hi : ℕ) (s : ℕ → ℕ) (d : Bits) (s' : ℕ → ℕ) (d' : Bits)
    (s'' : ℕ → ℕ) (d'' : Bits)
    → lo ≤ mid
    → mid ≤ hi
    → hi ≤ 268 * bsize
    → Wrote sb f lo mid s d s' d'
    → Wrote sb f mid hi s' d' s'' d''
    → Wrote sb f lo hi s d s'' d''
Wrote-trans sb f lo mid hi s d s' d' s'' d'' le le' top g h = record {
  evolves = Evolves-trans sb s d s' d' s'' d'' g.evolves h.evolves;
  bytes = λ off lt. h.bytes off lt ∙ ground (arith, g.bytes off lt, le, le');
  present = λ off lo' hi'. elim (dec_lt off mid) [
    | no late ↦ h.present off (omega arith) hi'
    | yes early ↦
        let nz = g.present off lo' early in
        let low : place (off / bsize) < nslots = ground (arith, top, early, le') in
        λ c. nz (sym (h.evolves.keeps (place (off / bsize)) low nz) ∙ c)
  ];
}

pub byte_at_there :
    (s : ℕ → ℕ) (d : Bits) (off a : ℕ)
    → s (place (off / bsize)) ≡ a
    → a ≢ 0
    → byte_at s d off ≡ byte (d a) (off % bsize)
byte_at_there s d off a e nz = ground (arith, nz, e)

pub byte_at_same :
    (s s' : ℕ → ℕ) (d d' : Bits) (off : ℕ)
    → s' (place (off / bsize)) ≡ s (place (off / bsize))
    → (s (place (off / bsize)) ≢ 0 → d' (s (place (off / bsize))) ≡ d (s (place (off / bsize))))
    → byte_at s' d' off ≡ byte_at s d off
byte_at_same s s' d d' off e h = elim (ℕ_discrete (s (place (off / bsize))) 0) [
  | yes z ↦ ground (arith, z, e)
  | no nz ↦
      byte_at_there s' d' off (s (place (off / bsize))) e nz
      ∙ ap (λ c. byte c (off % bsize)) (h nz)
      ∙ sym (byte_at_there s d off (s (place (off / bsize))) refl nz)
]

module _ (sb : SuperBlock) (f : ℕ → ℕ) (s : ℕ → ℕ) (d : Bits) (addrs : ℕ → ℕ) (d₁ : Bits)
    (g : Grew sb s d (slot addrs d₁) d₁) (n : ℕ) (ln : n < 268)
    (there : slot addrs d₁ (place n) ≢ 0) (o m : ℕ) (fits : o + m ≤ bsize) (src : ℕ → ℕ)
    (is : (i : ℕ) → i < m → (src i ≡ f (n * bsize + o + i)) × (src i < 256)) where
  low : place n < nslots
  low = ground (arith, ln)

  off_table : place n ≢ ndirect
  off_table = ground arith

  abbrev old : Block
  old = d₁ (slot addrs d₁ (place n))

  abbrev after : Bits
  after = update d₁ (slot addrs d₁ (place n)) (put_bytes o m src old)

  byte_written :
      (off : ℕ)
      → off / bsize ≡ n
      → byte (put_bytes o m src old) (off % bsize) ≡ (
          if leb (n * bsize + o) off && ltb off (n * bsize + o + m)
          then f off
          else byte old (off % bsize))
  byte_written off row = elim (dec_lt off (n * bsize + o)) [
    | yes before ↦
        byte-put_bytes_out o m src old (off % bsize) (inl (omega arith)) ∙ ground (arith, before)
    | no from ↦ elim (dec_lt off (n * bsize + o + m)) [
      | no behind ↦
          byte-put_bytes_out o m src old (off % bsize) (inr (omega arith))
          ∙ ground (arith, from, behind)
      | yes inside ↦
          let i = off % bsize - o in
          let (e, small) = is i (omega arith) in
          let same : n * bsize + o + i ≡ off = omega arith in
          byte-put_bytes o m src old (off % bsize) (omega arith) (omega arith) small
          ∙ e
          ∙ ap f same
          ∙ ground (arith, from, inside)
    ]
  ]

  pub round_lem : Wrote sb f (n * bsize + o) (n * bsize + o + m) s d (slot addrs after) after
  round_lem = record {
    evolves = Evolves-trans sb s d (slot addrs d₁) d₁ (slot addrs after) after g.evolves (
        write_block-Evolves sb addrs d₁ g.evolves.sound g.evolves.owned (place n) low off_table
          there (put_bytes o m src old));
    bytes = λ off lt. elim (ℕ_discrete (off / bsize) n) [
      | yes row ↦
          let at₁ : slot addrs d₁ (place (off / bsize)) ≡ slot addrs d₁ (place n) =
            ap (λ i. slot addrs d₁ (place i)) row in
          let at₂ : slot addrs after (place (off / bsize)) ≡ slot addrs d₁ (place n) =
            ap (λ i. slot addrs after (place i)) row ∙ stays (place n) low in
          byte_at_there (slot addrs after) after off (slot addrs d₁ (place n)) at₂ there
          ∙ ap (λ (x : Block). byte x (off % bsize))
              (update_self d₁ (slot addrs d₁ (place n)) (put_bytes o m src old))
          ∙ byte_written off row
          ∙ ap (λ v. if leb (n * bsize + o) off && ltb off (n * bsize + o + m) then f off else v)
              (sym (byte_at_there (slot addrs d₁) d₁ off (slot addrs d₁ (place n)) at₁ there)
                ∙ Grew-byte_at sb s d (slot addrs d₁) d₁ off g lt)
      | no other ↦
          let lq : place (off / bsize) < nslots = ground (arith, lt) in
          let apart : place (off / bsize) ≢ place n = ground (arith, other) in
          let outside : (off < n * bsize + o) ⊎ (n * bsize + o + m ≤ off) =
            elim (dec_lt off (n * bsize + o)) [ yes e ↦ inl e | no ge ↦ inr (omega arith) ] in
          byte_at_same (slot addrs d₁) (slot addrs after) d₁ after off
            (stays (place (off / bsize)) lq)
            (λ nz.
              blocks (slot addrs d₁ (place (off / bsize)))
                (λ e. apart (g.evolves.owned.distinct (place (off / bsize)) (place n) lq low nz e)))
          ∙ Grew-byte_at sb s d (slot addrs d₁) d₁ off g lt
          ∙ ground (arith, outside)
    ];
    present = λ off lo hi e.
        let row : off / bsize ≡ n = omega arith in
        there (sym (stays (place n) low) ∙ sym (ap (λ i. slot addrs after (place i)) row) ∙ e);
  }
    where
      stays : (i : ℕ) → i < nslots → slot addrs after i ≡ slot addrs d₁ i
      stays =
          same_slot sb addrs d₁ g.evolves.sound g.evolves.owned (place n) low off_table there
            (put_bytes o m src old)

      blocks : (b : ℕ) → b ≢ slot addrs d₁ (place n) → after b ≡ d₁ b
      blocks =
          same_block sb addrs d₁ g.evolves.sound g.evolves.owned (place n) low off_table there
            (put_bytes o m src old)
