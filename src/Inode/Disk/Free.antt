-- ===== src/Inode/Disk/Free.antt =====
-- The blocks that the loops of `Inode::trunc` give back.
use octopos.Base.{
  ℕ, zero, suc, ◌+◌, ◌-◌, ◌≤◌, ◌<◌, ◌≡◌, ◌≢◌, refl, sym, ap, subst, ◌∙◌, inl, inr, Bool, true,
  false, ◌&&◌, ◌||◌, some, arith, ltb, leb, ◌==◌, ℕ_discrete, dec_lt, update, update-ne,
}
use octopos.Blocks.{SuperBlock, Bits, free_block}
use octopos.Blocks.Scan.{used}
use octopos.Blocks.FreeMap.{free_block_lem, free_block-Other}
use octopos.Inode.{Block, get_u32}
use octopos.Inode.Slots.{nslots, OffMap, Sound, Owned}
use octopos.Inode.Disk.{free_direct, free_entries, free_table}

-- Of the blocks at the places `s`, those at the places in `p` are free again.
pub record Freed (sb : SuperBlock) (s : ℕ → ℕ) (d : Bits) (p : ℕ → Bool) (d' : Bits) : Type 0 where
  pub sound : Sound sb d'
  pub gone : (n : ℕ) → n < nslots → p n ≡ true → s n ≢ 0 → used sb d' (s n) ≡ false
  pub kept :
      (y : ℕ)
      → y < sb.size
      → ((n : ℕ) → n < nslots → p n ≡ true → s n ≢ y)
      → used sb d' y ≡ used sb d y
  pub other : (b : ℕ) → OffMap sb b → d' b ≡ d b

module _ (sb : SuperBlock) (s : ℕ → ℕ) (d : Bits) (ow : Owned sb s d) (k : ℕ) (lk : k < nslots)
    (p p' : ℕ → Bool) (next : (n : ℕ) → p' n ≡ (p n || n == k)) (clear : p k ≡ false) (d₁ : Bits)
    (f : Freed sb s d p d₁) where
  -- The next place has no block.
  skip : s k ≡ 0 → Freed sb s d p' d₁
  skip z = record {
    sound = f.sound;
    gone = λ n ln on nz. elim (ℕ_discrete n k) [
      | yes e ↦ absurd (nz (ap s e ∙ z))
      | no ne ↦ f.gone n ln (ground (arith, next n, on, ne)) nz
    ];
    kept = λ y ly h. f.kept y ly (λ n ln on. h n ln (ground (arith, next n, on)));
    other = f.other;
  }

  -- Its block is freed.
  free_one : s k ≢ 0 → (d₂ : Bits) × (free_block sb (s k) d₁ ≡ some d₂) × Freed sb s d p' d₂
  free_one nz =
      let inside = ow.in_disk k lk nz in
      let off = ow.off_map k lk nz in
      let still : used sb d₁ (s k) ≡ true =
        f.kept (s k) inside (λ n ln on e. ground (
          arith,
          ow.distinct k n lk ln nz (sym e),
          on,
          clear,
          ap p (ow.distinct k n lk ln nz (sym e)),
        ))
        ∙ ow.in_use k lk nz in
      elim (free_block_lem sb (s k) d₁ f.sound.reserved off) [
        | inl (unused, _) ↦ absurd (ground (arith, unused, still))
        | inr (_, d₂, e, reserved, now) ↦ (
          d₂,
          e,
          record {
            sound = record {
              reserved = reserved;
              boot = ground (arith, now 0, f.sound.boot, nz);
              small = f.sound.small;
            };
            gone = λ n ln on nz'. elim (ℕ_discrete n k) [
              | yes same ↦ ground (arith, now (s n), ap s same)
              | no ne ↦ ground (arith, now (s n), f.gone n ln (ground (arith, next n, on, ne)) nz')
            ];
            kept = λ y ly h.
                let apart : s k ≢ y = h k lk (ground (arith, next k)) in
                ground (
                  arith,
                  now y,
                  apart,
                  f.kept y ly (λ n ln on. h n ln (ground (arith, next n, on))),
                );
            other =
                λ b off'. free_block-Other sb (s k) d₁ d₂ b e (off' (s k) inside) ∙ f.other b off';
          },
        )
      ]

module _ (sb : SuperBlock) (s : ℕ → ℕ) (d : Bits) (ow : Owned sb s d) where
  pub free_direct_lem :
      (k i : ℕ) (addrs : ℕ → ℕ) (d₁ : Bits)
      → i + k ≡ 12
      → ((n : ℕ) → i ≤ n → n ≤ 12 → addrs n ≡ s n)
      → ((n : ℕ) → n < i → addrs n ≡ 0)
      → Freed sb s d (λ n. ltb n i) d₁
      → (addrs' : ℕ → ℕ) × (d' : Bits) × (free_direct sb k i addrs d₁ ≡ some (addrs', d'))
        × (addrs' 12 ≡ s 12)
        × ((n : ℕ) → n < 12 → addrs' n ≡ 0)
        × Freed sb s d (λ n. ltb n 12) d'
  unfolding free_direct
  free_direct_lem zero i addrs d₁ e agree zeros f =
      let i_is : i ≡ 12 = omega (arith, e) in
      (
        addrs,
        d₁,
        refl,
        agree 12 (omega arith) (omega arith),
        (λ n lt. zeros n (omega arith)),
        subst (λ j. Freed sb s d (λ n. ltb n j) d₁) i_is f,
      )
  free_direct_lem (suc k) i addrs d₁ e agree zeros f = elim (ℕ_discrete (s i) 0) [
    | yes z ↦
        let addr : addrs i ≡ 0 = agree i (omega arith) (omega arith) ∙ z in
        let is : free_direct sb (suc k) i addrs d₁ ≡ free_direct sb k (i + 1) addrs d₁ =
          ground (arith, addr) in
        let (addrs', d', r, last, clear, f₁) =
          free_direct_lem k (i + 1) addrs d₁ (omega arith) (λ n lo hi. agree n (omega arith) hi)
            (λ n lt. elim (ℕ_discrete n i) [
              | yes same ↦ ap addrs same ∙ addr
              | no ne ↦ zeros n (omega arith)
            ])
            (skip sb s d ow i (omega arith) (λ n. ltb n i) (λ n. ltb n (i + 1)) (λ n. ground arith)
              (ground arith) d₁ f z) in
        (addrs', d', is ∙ r, last, clear, f₁)
    | no nz ↦
        let addr : addrs i ≡ s i = agree i (omega arith) (omega arith) in
        let (d₂, freed, f') =
          free_one sb s d ow i (omega arith) (λ n. ltb n i) (λ n. ltb n (i + 1)) (λ n. ground arith)
            (ground arith) d₁ f nz in
        let freed' : free_block sb (addrs i) d₁ ≡ some d₂ =
          ap (λ a. free_block sb a d₁) addr ∙ freed in
        let is : free_direct sb (suc k) i addrs d₁
            ≡ free_direct sb k (i + 1) (update addrs i 0) d₂ =
          ground (arith, addr, nz, freed') in
        let (addrs', d', r, last, clear, f₁) =
          free_direct_lem k (i + 1) (update addrs i 0) d₂ (omega arith)
            (λ n lo hi. update-ne addrs i n 0 (omega arith) ∙ agree n (omega arith) hi)
            (λ n lt. elim (ℕ_discrete i n) [
              | yes same ↦ ground (arith, same)
              | no ne ↦ update-ne addrs i n 0 ne ∙ zeros n (omega arith)
            ])
            f' in
        (addrs', d', is ∙ r, last, clear, f₁)
  ]

  -- The places after the direct ones and `i` entries of the block of addresses
  abbrev entries_to : ℕ → ℕ → Bool
  entries_to i n = ltb n 12 || leb 13 n && ltb n (13 + i)

  module _ (table : s 12 ≢ 0) (entry : (i : ℕ) → i < 256 → get_u32 (d (s 12)) i ≡ s (13 + i)) where
    free_entries_lem :
        (k i : ℕ) (d₁ : Bits)
        → i + k ≡ 256
        → Freed sb s d (entries_to i) d₁
        → (d' : Bits) × (free_entries sb (s 12) k i d₁ ≡ some d') × Freed sb s d (entries_to 256) d'
    unfolding free_entries
    free_entries_lem zero i d₁ e f =
        let i_is : i ≡ 256 = omega (arith, e) in
        (d₁, refl, subst (λ j. Freed sb s d (entries_to j) d₁) i_is f)
    free_entries_lem (suc k) i d₁ e f =
        let addr : get_u32 (d₁ (s 12)) i ≡ s (13 + i) =
          ap (λ (c : Block). get_u32 c i) (f.other (s 12) (ow.off_map 12 (omega arith) table))
          ∙ entry i (omega arith) in
        elim (ℕ_discrete (s (13 + i)) 0) [
          | yes z ↦
              let is : free_entries sb (s 12) (suc k) i d₁ ≡ free_entries sb (s 12) k (i + 1) d₁ =
                ground (arith, addr, z) in
              let (d', r, f') = free_entries_lem k (i + 1) d₁ (omega arith) (
                skip sb s d ow (13 + i) (omega arith) (entries_to i) (entries_to (i + 1))
                  (λ n. ground arith) (ground arith) d₁ f z) in
              (d', is ∙ r, f')
          | no nz ↦
              let (d₂, freed, f₂) =
                free_one sb s d ow (13 + i) (omega arith) (entries_to i) (entries_to (i + 1))
                  (λ n. ground arith) (ground arith) d₁ f nz in
              let freed' : free_block sb (get_u32 (d₁ (s 12)) i) d₁ ≡ some d₂ =
                ap (λ a. free_block sb a d₁) addr ∙ freed in
              let is : free_entries sb (s 12) (suc k) i d₁ ≡ free_entries sb (s 12) k (i + 1) d₂ =
                ground (arith, addr, nz, freed') in
              let (d', r, f') = free_entries_lem k (i + 1) d₂ (omega arith) f₂ in (d', is ∙ r, f')
        ]

  pub free_table_lem :
      (addrs : ℕ → ℕ) (d₁ : Bits)
      → addrs 12 ≡ s 12
      → ((n : ℕ) → n < 12 → addrs n ≡ 0)
      → ((i : ℕ)
          → i < 256
          → (s 12 ≢ 0 → get_u32 (d (s 12)) i ≡ s (13 + i)) × (s 12 ≡ 0 → s (13 + i) ≡ 0))
      → Freed sb s d (λ n. ltb n 12) d₁
      → (addrs' : ℕ → ℕ) × (d' : Bits) × (free_table sb addrs d₁ ≡ some (addrs', d'))
        × ((n : ℕ) → n ≤ 12 → addrs' n ≡ 0)
        × Freed sb s d (λ n. ltb n nslots) d'
  free_table_lem addrs d₁ at zeros entry f = elim (ℕ_discrete (s 12) 0) [
    | yes z ↦ (
      addrs,
      d₁,
      ground (arith, at, z),
      (λ n le. elim (ℕ_discrete n 12) [
        | yes same ↦ ap addrs same ∙ at ∙ z
        | no ne ↦ zeros n (omega arith)
      ]),
      record {
        sound = f.sound;
        gone = λ n ln on nz. elim (dec_lt n 12) [
          | yes direct ↦ f.gone n ln (ground (arith, direct)) nz
          | no indirect ↦ elim (ℕ_discrete n 12) [
            | yes same ↦ absurd (nz (ap s same ∙ z))
            | no ne ↦
                let back : 13 + (n - 13) ≡ n = omega arith in
                absurd (nz (ap s (sym back) ∙ (entry (n - 13) (omega arith)).1 z))
          ]
        ];
        kept = λ y ly h. f.kept y ly (λ n ln on. h n ln (ground (arith, ln)));
        other = f.other;
      },
    )
    | no nz ↦
        let start : Freed sb s d (entries_to 0) d₁ = record {
          sound = f.sound;
          gone = λ n ln on. f.gone n ln (ground (arith, on));
          kept = λ y ly h. f.kept y ly (λ n ln on. h n ln (ground (arith, on)));
          other = f.other;
        } in
        let (d₂, e₂, f₂) =
          free_entries_lem nz (λ i lt. (entry i lt).0 nz) 256 0 d₁ (omega arith) start in
        let (d₃, e₃, f₃) =
          free_one sb s d ow 12 (omega arith) (entries_to 256) (λ n. ltb n nslots)
            (λ n. ground arith) (ground arith) d₂ f₂ nz in
        let entries : free_entries sb (addrs 12) 256 0 d₁ ≡ some d₂ =
          ap (λ x. free_entries sb x 256 0 d₁) at ∙ e₂ in
        let last : free_block sb (addrs 12) d₂ ≡ some d₃ = ap (λ x. free_block sb x d₂) at ∙ e₃ in
        (
          update addrs 12 0,
          d₃,
          ground (arith, at, nz, entries, last),
          (λ n le. elim (ℕ_discrete 12 n) [
            | yes same ↦ ground (arith, same)
            | no ne ↦ update-ne addrs 12 n 0 ne ∙ zeros n (omega arith)
          ]),
          f₃,
        )
  ]
