-- ===== src/Inode/Fill.antt =====
-- One of the addresses in the inode, which is there or is filled in with a new block.
use octopos.Base.{
  ℕ, ◌-◌, ◌≤◌, ◌<◌, ◌≡◌, ◌≢◌, refl, sym, ap, subst, ◌∙◌, inl, inr, true, arith, ◌==◌, if◌then◌else◌,
  ℕ_discrete, dec_lt, update, update_self, update-ne, Result, ok, err,
}
use octopos.Fs.{FsError, out_of_block}
use octopos.Blocks.{SuperBlock, Bits, alloc_block}
use octopos.Blocks.Scan.{used}
use octopos.Blocks.FreeMap.{MapReserved, Allocated, alloc_block_lem}
use octopos.Inode.{get_u32, ndirect, fill}
use octopos.Inode.Bytes.{get_u32-zeros}
use octopos.Inode.Slots.{nslots, slot, Sound, Owned, Grew, Grew-ext}
use octopos.Inode.Grow.{grow_one}

abbrev pub Full : SuperBlock → Bits → Type 0
Full sb d = (y : ℕ) → y < sb.size → used sb d y ≡ true

-- What `fill` comes to.
pub data Fills (sb : SuperBlock) (a : ℕ) (d : Bits) : Result ℕ FsError × Bits → Type 0 where
  there : a ≢ 0 → Fills sb a d (ok a, d)
  full : a ≡ 0 → Full sb d → Fills sb a d (err out_of_block, d)
  made : (x : ℕ) (d' : Bits) → a ≡ 0 → Allocated sb d x d' → Fills sb a d (ok x, d')

pub fill_lem : (sb : SuperBlock) (a : ℕ) (d : Bits) → MapReserved sb d → Fills sb a d (fill sb a d)
unfolding fill
fill_lem sb a d m = elim (ℕ_discrete a 0) [
  | no nz ↦
      let is : fill sb a d ≡ (ok a, d) = ground (arith, nz) in
      subst (λ r. Fills sb a d r) (sym is) (there nz)
  | yes z ↦
      let is : fill sb a d ≡ alloc_block sb d = ground (arith, z) in
      elim (alloc_block_lem sb d m) [
        | inl (all_used, e) ↦ subst (λ r. Fills sb a d r) (sym (is ∙ e)) (full z all_used)
        | inr (x, d', e, al) ↦ subst (λ r. Fills sb a d r) (sym (is ∙ e)) (made x d' z al)
      ]
]

-- What filling one of the addresses in the inode comes to: `r` with the blocks after it.
pub data FillsAt (sb : SuperBlock) (addrs : ℕ → ℕ) (d : Bits) (k : ℕ)
    : Result ℕ FsError × Bits → Type 0 where
  none_left : addrs k ≡ 0 → Full sb d → FillsAt sb addrs d k (err out_of_block, d)
  filled :
      (x : ℕ) (d' : Bits)
      → x ≢ 0
      → Grew sb (slot addrs d) d (slot (update addrs k x) d') d'
      → FillsAt sb addrs d k (ok x, d')

module _ (sb : SuperBlock) (addrs : ℕ → ℕ) (d : Bits) (so : Sound sb d)
    (ow : Owned sb (slot addrs d) d) where
  pub real : (x : ℕ) (d' : Bits) → Allocated sb d x d' → x ≢ 0
  real x d' a c = ground (arith, ap (used sb d) c, so.boot, a.was_free)

  -- The block of addresses after an allocation
  pub kept_table :
      (x : ℕ) (d' : Bits)
      → Allocated sb d x d'
      → addrs ndirect ≢ 0
      → d' (addrs ndirect) ≡ d (addrs ndirect)
  kept_table x d' a nz =
      a.other (addrs ndirect)
        (λ c. ground (arith, ow.in_use ndirect (omega arith) nz, c, a.was_free))
        (ow.off_map ndirect (omega arith) nz)

  pub fill_at : (k : ℕ) → k ≤ ndirect → FillsAt sb addrs d k (fill sb (addrs k) d)
  fill_at k le = go (fill sb (addrs k) d) (fill_lem sb (addrs k) d so.reserved)
    where
      same_slot : (n : ℕ) → slot (update addrs k (addrs k)) d n ≡ slot addrs d n
      same_slot n =
          let same : (i : ℕ) → update addrs k (addrs k) i ≡ addrs i = λ i. elim (ℕ_discrete k i) [
            | yes e ↦ ground (arith, e)
            | no ne ↦ update-ne addrs k i (addrs k) ne
          ] in
          ground (arith, same n, same ndirect)

      now :
          (x : ℕ) (d' : Bits)
          → addrs k ≡ 0
          → Allocated sb d x d'
          → (n : ℕ) → n < nslots
          → slot (update addrs k x) d' n ≡ (if n == k then x else slot addrs d n)
      now x d' z a n ln = elim (dec_lt ndirect n) [
        | no direct ↦ elim (ℕ_discrete n k) [
          | yes e ↦ ground (arith, direct, e)
          | no ne ↦ ground (arith, direct, ne, update-ne addrs k n x (λ c. ne (sym c)))
        ]
        | yes entry ↦
            let apart : n ≢ k = omega (arith, le) in
            elim (ℕ_discrete k ndirect) [
              | yes e ↦ ground (
                arith,
                entry,
                apart,
                e,
                z,
                real x d' a,
                update_self addrs k x,
                get_u32-zeros (d' x) (n - 13) a.zeroed,
              )
              | no ne ↦
                  let table : update addrs k x ndirect ≡ addrs ndirect =
                    update-ne addrs k ndirect x ne in
                  elim (ℕ_discrete (addrs ndirect) 0) [
                    | yes gone ↦ ground (arith, entry, apart, table, gone)
                    | no nz ↦
                        let kept : get_u32 (d' (addrs ndirect)) (n - 13)
                            ≡ get_u32 (d (addrs ndirect)) (n - 13) =
                          ap (λ c. get_u32 c (n - 13)) (kept_table x d' a nz) in
                        ground (arith, entry, apart, table, nz, kept)
                  ]
            ]
      ]

      go : (r : Result ℕ FsError × Bits) → Fills sb (addrs k) d r → FillsAt sb addrs d k r
      go _ (there nz) = filled (addrs k) d nz (
          Grew-ext sb (slot addrs d) (slot (update addrs k (addrs k)) d) d so ow
            (λ n _. same_slot n))
      go _ (full z f) = none_left z f
      go _ (made x d' z a) =
          let at_k : slot addrs d k ≡ 0 = ground (arith, le, z) in
          filled x d' (real x d' a) (
            grow_one sb (slot addrs d) d so ow x d' a k (omega arith) at_k
              (slot (update addrs k x) d') (now x d' z a) d' (λ b _. refl))
