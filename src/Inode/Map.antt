-- ===== src/Inode/Map.antt =====
-- `map`: the block of a place in the file, which is there or is made.
use octopos.Base.{
  ℕ, ◌+◌, ◌-◌, ◌^◌, ◌≤◌, ◌<◌, ◌≡◌, ◌≢◌, refl, sym, ap, subst, ◌∙◌, inl, inr, arith, ◌==◌,
  if◌then◌else◌, ℕ_discrete, dec_lt, update, update_self, update-ne, Result, ok, err,
}
use octopos.Fs.{FsError, out_of_block, out_of_range}
use octopos.Blocks.{SuperBlock, Bits}
use octopos.Inode.{Block, get_u32, put_u32, ndirect, nindirect, maxfile, fill, map_entry, map}
use octopos.Inode.Bytes.{get_u32-put_u32, get_u32-put_u32_other}
use octopos.Inode.Slots.{nslots, slot, place, Sound, Owned, Grew, Grew-self, Grew-trans}
use octopos.Inode.Grow.{grow_one}
use octopos.Inode.Fill.{
  Full, there, full, made, none_left, filled, Fills, FillsAt, fill_lem, real, kept_table, fill_at,
}

-- What `map` of the `n`th block of the file comes to.
pub data MapEnds (sb : SuperBlock) (n : ℕ) (s' : ℕ → ℕ) (d' : Bits)
    : Result ℕ FsError → Type 0 where
  mapped : n < maxfile → s' (place n) ≢ 0 → MapEnds sb n s' d' (ok (s' (place n)))
  disk_full : n < maxfile → s' (place n) ≡ 0 → Full sb d' → MapEnds sb n s' d' (err out_of_block)
  too_far : maxfile ≤ n → MapEnds sb n s' d' (err out_of_range)

pub record Mapped (sb : SuperBlock) (n : ℕ) (addrs : ℕ → ℕ) (d : Bits)
    (x : Result ℕ FsError × (ℕ → ℕ) × Bits) : Type 0 where
  pub grew : Grew sb (slot addrs d) d (slot x.1 x.2) x.2
  pub ends : MapEnds sb n (slot x.1 x.2) x.2 x.0

-- An entry of the block of addresses that is filled in
module _ (sb : SuperBlock) (addrs : ℕ → ℕ) (d : Bits) (so : Sound sb d)
    (ow : Owned sb (slot addrs d) d) (table : addrs ndirect ≢ 0) (i : ℕ) (li : i < nindirect) where
  -- The places after entry `i` is `a`
  put_entry_slot :
      (a : ℕ) (d' : Bits)
      → a < 2 ^ 32
      → d' (addrs ndirect) ≡ d (addrs ndirect)
      → (n : ℕ) → n < nslots
      → slot addrs (update d' (addrs ndirect) (put_u32 i a (d' (addrs ndirect)))) n
        ≡ (if n == 13 + i then a else slot addrs d n)
  put_entry_slot a d' small kept n ln = elim (dec_lt ndirect n) [
    | no direct ↦ ground (arith, direct, li)
    | yes entry ↦
        let c = d' (addrs ndirect) in
        let at : update d' (addrs ndirect) (put_u32 i a c) (addrs ndirect) ≡ put_u32 i a c =
          update_self d' (addrs ndirect) (put_u32 i a c) in
        let reads : slot addrs (update d' (addrs ndirect) (put_u32 i a c)) n
            ≡ get_u32 (put_u32 i a c) (n - 13) =
          ground (arith, entry, table, ap (λ (b : Block). get_u32 b (n - 13)) at) in
        reads ∙ (elim (ℕ_discrete n (13 + i)) [
          | yes e ↦
              let place_i : n - 13 ≡ i = omega arith in
              ap (get_u32 (put_u32 i a c)) place_i ∙ get_u32-put_u32 i a c small ∙ ground (arith, e)
          | no ne ↦
              let off : i ≢ n - 13 = omega arith in
              get_u32-put_u32_other i (n - 13) a c off
              ∙ ap (λ (b : Block). get_u32 b (n - 13)) kept
              ∙ ground (arith, ne, entry, table)
        ])
  ]

  map_entry_lem : Mapped sb (ndirect + i) addrs d (map_entry sb (addrs ndirect) i addrs d)
  unfolding map_entry
  map_entry_lem =
      go (fill sb (get_u32 (d (addrs ndirect)) i) d) refl
        (fill_lem sb (get_u32 (d (addrs ndirect)) i) d so.reserved)
    where
      n : ℕ
      n = ndirect + i

      at_place : place n ≡ 13 + i
      at_place = ground arith

      here : slot addrs d (13 + i) ≡ get_u32 (d (addrs ndirect)) i
      here =
          let back : 13 + i - 13 ≡ i = omega arith in
          ground (arith, table, ap (get_u32 (d (addrs ndirect))) back)

      go :
          (r : Result ℕ FsError × Bits)
          → fill sb (get_u32 (d (addrs ndirect)) i) d ≡ r
          → Fills sb (get_u32 (d (addrs ndirect)) i) d r
          → Mapped sb (ndirect + i) addrs d (map_entry sb (addrs ndirect) i addrs d)
      go _ e (there nz) =
          let is : map_entry sb (addrs ndirect) i addrs d
              ≡ (ok (slot addrs d (place n)), addrs, d) =
            ground (arith, e, nz, here, ap (slot addrs d) at_place) in
          subst (λ y. Mapped sb n addrs d y) (sym is)
            (record {
              grew = Grew-self sb (slot addrs d) d so ow;
              ends =
                  mapped (omega arith) (λ c. nz (sym here ∙ sym (ap (slot addrs d) at_place) ∙ c));
            })
      go _ e (full z f) =
          let is : map_entry sb (addrs ndirect) i addrs d ≡ (err out_of_block, addrs, d) =
            ground (arith, e) in
          subst (λ y. Mapped sb n addrs d y) (sym is)
            (record {
              grew = Grew-self sb (slot addrs d) d so ow;
              ends = disk_full (omega arith) (ap (slot addrs d) at_place ∙ here ∙ z) f;
            })
      go _ e (made a d' z al) =
          let d'' : Bits = update d' (addrs ndirect) (put_u32 i a (d' (addrs ndirect))) in
          let kept = kept_table sb addrs d so ow a d' al table in
          let now : (m : ℕ)
              → m < nslots
              → slot addrs d'' m ≡ (if m == 13 + i then a else slot addrs d m) =
            put_entry_slot a d' (omega (arith, al.in_disk, so.small)) kept in
          let nz : a ≢ 0 = real sb addrs d so ow a d' al in
          let at : slot addrs d'' (place n) ≡ a =
            ap (slot addrs d'') at_place ∙ now (13 + i) (omega arith) ∙ ground arith in
          let is : map_entry sb (addrs ndirect) i addrs d
              ≡ (ok (slot addrs d'' (place n)), addrs, d'') =
            ground (arith, e, z, at) in
          subst (λ y. Mapped sb n addrs d y) (sym is)
            (record {
              grew =
                  grow_one sb (slot addrs d) d so ow a d' al (13 + i) (omega arith) (here ∙ z)
                    (slot addrs d'') now d''
                    (λ b ne.
                      update-ne d' (addrs ndirect) b (put_u32 i a (d' (addrs ndirect)))
                        (λ c. elim ne [ inl gone ↦ table gone | inr apart ↦ apart (sym c) ]));
              ends = mapped (omega arith) (λ c. nz (sym at ∙ c));
            })

-- On a sound disk, for an inode that owns its blocks, `map` fails for a block beyond MAXFILE, or for want of a free
-- block, when all are in use; otherwise it returns the address of the block, which is not 0. Either way
-- the inode owns its blocks again, those that it had are where they were with the contents that they
-- had, the new ones are full of zeros, and no other block in use has changed.
pub map_lem :
    (sb : SuperBlock) (n : ℕ) (addrs : ℕ → ℕ) (d : Bits)
    → Sound sb d
    → Owned sb (slot addrs d) d
    → Mapped sb n addrs d (map sb n addrs d)
unfolding map
map_lem sb n addrs d so ow = elim (dec_lt n ndirect) [
  | yes direct ↦ first direct (fill sb (addrs n) d) refl (fill_at sb addrs d so ow n (omega arith))
  | no indirect ↦ elim (dec_lt (n - ndirect) nindirect) [
    | no beyond ↦
        let is : map sb n addrs d ≡ (err out_of_range, addrs, d) =
          ground (arith, indirect, beyond) in
        subst (λ y. Mapped sb n addrs d y) (sym is)
          (record { grew = Grew-self sb (slot addrs d) d so ow; ends = too_far (omega arith) })
    | yes within ↦
        second (omega arith) within (fill sb (addrs ndirect) d) refl
          (fill_at sb addrs d so ow ndirect (omega arith))
  ]
]
  where
    first :
        n < ndirect
        → (r : Result ℕ FsError × Bits) → fill sb (addrs n) d ≡ r
        → FillsAt sb addrs d n r
        → Mapped sb n addrs d (map sb n addrs d)
    first direct _ e (none_left z f) =
        let is : map sb n addrs d ≡ (err out_of_block, addrs, d) = ground (arith, direct, e) in
        subst (λ y. Mapped sb n addrs d y) (sym is)
          (record {
            grew = Grew-self sb (slot addrs d) d so ow;
            ends = disk_full (omega arith) (ground (arith, direct, z)) f;
          })
    first direct _ e (filled x d' nz g) =
        let addrs' : ℕ → ℕ = update addrs n x in
        let at : slot addrs' d' (place n) ≡ x = ground (arith, direct, update_self addrs n x) in
        let is : map sb n addrs d ≡ (ok (slot addrs' d' (place n)), addrs', d') =
          ground (arith, direct, e, at) in
        subst (λ y. Mapped sb n addrs d y) (sym is)
          (record { grew = g; ends = mapped (omega arith) (λ c. nz (sym at ∙ c)) })

    second :
        ndirect ≤ n
        → n - ndirect < nindirect
        → (r : Result ℕ FsError × Bits) → fill sb (addrs ndirect) d ≡ r
        → FillsAt sb addrs d ndirect r
        → Mapped sb n addrs d (map sb n addrs d)
    second ge within _ e (none_left z f) =
        let is : map sb n addrs d ≡ (err out_of_block, addrs, d) = ground (arith, ge, within, e) in
        subst (λ y. Mapped sb n addrs d y) (sym is)
          (record {
            grew = Grew-self sb (slot addrs d) d so ow;
            ends = disk_full (omega arith) (ground (arith, ge, z)) f;
          })
    second ge within _ e (filled x d₁ nz g) =
        let addrs' : ℕ → ℕ = update addrs ndirect x in
        let m =
          map_entry_lem sb addrs' d₁ g.evolves.sound g.evolves.owned nz (n - ndirect) within in
        let is : map sb n addrs d ≡ map_entry sb x (n - ndirect) addrs' d₁ =
          ground (arith, ge, within, e) in
        let same : ndirect + (n - ndirect) ≡ n = omega arith in
        let m' =
          subst (λ k. Mapped sb k addrs' d₁ (map_entry sb x (n - ndirect) addrs' d₁)) same m in
        subst (λ y. Mapped sb n addrs d y) (sym is)
          (record {
            grew = Grew-trans sb (slot addrs d) d (slot addrs' d₁) d₁ _ _ g m'.grew;
            ends = m'.ends;
          })
