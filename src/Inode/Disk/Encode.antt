-- ===== src/Inode/Disk/Encode.antt =====
-- An inode written to its block by `update`, and loaded again by `lock`.
use octopos.Base.{
  ℕ, ◌+◌, ◌-◌, ◌*◌, ◌/◌, ◌%◌, ◌^◌, ◌≤◌, ◌<◌, ◌≡◌, ◌≢◌, refl, sym, ap, ap₂, subst, ◌∙◌, ◌⊎◌, inl,
  inr, true, false, none, some, arith, ℕ_discrete, dec_lt, update, update_self, update-ne,
}
use octopos.Blocks.{SuperBlock, Bits}
use octopos.Inode.{Block, byte, put_bytes, get_u32, byte_of}
use octopos.Inode.Bytes.{byte-put_bytes, byte-put_bytes_out}
use octopos.Inode.Disk.{
  InodeType, free, directory, file, device, InodeInner, type_code, type_of, disk_byte, ipb, home,
  disk_offset, update_inode, get_u16, loaded, loads, lock_inode,
}

-- The fields have the widths of the source's.
pub record HasWidths (inner : InodeInner) : Type 0 where
  pub major : inner.major < 2 ^ 16
  pub minor : inner.minor < 2 ^ 16
  pub nlink : inner.nlink < 2 ^ 16
  pub size : inner.size < 2 ^ 32
  pub addrs : (i : ℕ) → i < 13 → inner.addrs i < 2 ^ 32

-- The inode `r` is `inner`, just loaded.
pub record Reloaded (inner r : InodeInner) : Type 0 where
  pub valid : r.valid ≡ true
  pub type : r.type ≡ inner.type
  pub major : r.major ≡ inner.major
  pub minor : r.minor ≡ inner.minor
  pub nlink : r.nlink ≡ inner.nlink
  pub size : r.size ≡ inner.size
  pub addrs : (i : ℕ) → i < 13 → r.addrs i ≡ inner.addrs i

module _ (inner : InodeInner) (widths : HasWidths inner) (o : ℕ) (aligned : o % 4 ≡ 0)
    (c : Block) where
  abbrev written : Block
  written = put_bytes o 64 (disk_byte inner) c

  at : (j k : ℕ) → j < 64 → k ≡ o + j → byte written k ≡ disk_byte inner j
  at j k lt e =
      let small : disk_byte inner j < 256 = ground arith in
      let here : k - o ≡ j = omega (arith, e) in
      byte-put_bytes o 64 (disk_byte inner) c k (omega (arith, e)) (omega (arith, e))
        (subst (λ i. disk_byte inner i < 256) (sym here) small)
      ∙ ap (disk_byte inner) here

  code_small : type_code inner.type < 4
  code_small = go inner.type
    where
      go : (t : InodeType) → type_code t < 4
      go free = omega arith
      go directory = omega arith
      go file = omega arith
      go device = omega arith

  type_back : get_u16 written o ≡ type_code inner.type
  type_back = omega (
    arith,
    code_small,
    at 0 o (omega arith) (omega arith),
    at 1 (o + 1) (omega arith) (omega arith),
  )

  reloaded : Reloaded inner (loaded written o inner.type)
  unfolding get_u32
  reloaded = record {
    valid = refl;
    type = refl;
    major = omega (
      arith,
      widths.major,
      at 2 (o + 2) (omega arith) (omega arith),
      at 3 (o + 2 + 1) (omega arith) (omega arith),
    );
    minor = omega (
      arith,
      widths.minor,
      at 4 (o + 4) (omega arith) (omega arith),
      at 5 (o + 4 + 1) (omega arith) (omega arith),
    );
    nlink = omega (
      arith,
      widths.nlink,
      at 6 (o + 6) (omega arith) (omega arith),
      at 7 (o + 6 + 1) (omega arith) (omega arith),
    );
    size = omega (
      arith,
      widths.size,
      at 8 (4 * (o / 4 + 2) + 0) (omega arith) (omega arith),
      at 9 (4 * (o / 4 + 2) + 1) (omega arith) (omega arith),
      at 10 (4 * (o / 4 + 2) + 2) (omega arith) (omega arith),
      at 11 (4 * (o / 4 + 2) + 3) (omega arith) (omega arith),
    );
    addrs = λ i lt.
        let b : (k : ℕ)
            → k < 4
            → byte written (4 * (o / 4 + 3 + i) + k) ≡ byte_of (inner.addrs i) k =
          λ k lk.
            let entry : (12 + 4 * i + k - 12) / 4 ≡ i = omega arith in
            let part : (12 + 4 * i + k - 12) % 4 ≡ k = omega arith in
            at (12 + 4 * i + k) (4 * (o / 4 + 3 + i) + k) (omega arith) (omega arith)
            ∙ ground arith
            ∙ ap₂ (λ x y. byte_of (inner.addrs x) y) entry part in
        omega (
          arith,
          widths.addrs i lt,
          b 0 (omega arith),
          b 1 (omega arith),
          b 2 (omega arith),
          b 3 (omega arith),
        );
  }

type_of-type_code : (t : InodeType) → type_of (type_code t) ≡ some t
type_of-type_code free = refl
type_of-type_code directory = refl
type_of-type_code file = refl
type_of-type_code device = refl

-- After `update`, `lock` of an entry that is not valid panics if the inode is free, and else loads all
-- the fields as they were written.
pub lock_inode-update_inode :
    (sb : SuperBlock) (inum : ℕ) (inner stale : InodeInner) (d : Bits)
    → HasWidths inner
    → stale.valid ≡ false
    → ((inner.type ≡ free) × (lock_inode sb inum stale (update_inode sb inum inner d) ≡ none))
      ⊎ ((r : InodeInner) × (lock_inode sb inum stale (update_inode sb inum inner d) ≡ some r)
          × Reloaded inner r)
unfolding lock_inode update_inode
lock_inode-update_inode sb inum inner stale d widths invalid =
    let o = disk_offset inum in
    let c = d (home sb inum) in
    let w : Block = put_bytes o 64 (disk_byte inner) c in
    let read_back : lock_inode sb inum stale (update_inode sb inum inner d)
        ≡ loads w o (type_of (get_u16 w o)) =
      ground (arith, invalid)
      ∙ ap (λ (b : Block). loads b o (type_of (get_u16 b o))) (update_self d (home sb inum) w) in
    let t : type_of (get_u16 w o) ≡ some inner.type =
      ap type_of (type_back inner widths o (omega arith) c) ∙ type_of-type_code inner.type in
    let is : lock_inode sb inum stale (update_inode sb inum inner d) ≡ loads w o (some inner.type) =
      read_back ∙ ap (loads w o) t in
    let used_type : (inner.type ≢ free)
        → loads w o (some inner.type) ≡ some (loaded w o inner.type) =
      λ nf. code_in_use w o inner.type nf in
    elim (free_or inner.type) [
      | inl e ↦ inl (e, is ∙ ap (λ y. loads w o (some y)) e)
      | inr nf ↦
          inr (loaded w o inner.type, is ∙ used_type nf, reloaded inner widths o (omega arith) c)
    ]
  where
    free_or : (t : InodeType) → (t ≡ free) ⊎ (t ≢ free)
    free_or free = inl refl
    free_or directory = inr (λ e. cc)
    free_or file = inr (λ e. cc)
    free_or device = inr (λ e. cc)

    code_in_use :
        (w : Block) (o : ℕ) (t : InodeType) → t ≢ free → loads w o (some t) ≡ some (loaded w o t)
    code_in_use w o free nf = absurd (nf refl)
    code_in_use w o directory nf = refl
    code_in_use w o file nf = refl
    code_in_use w o device nf = refl

-- `update` of an inode leaves the 64 bytes of every other inode as they are.
pub update_inode-Others :
    (sb : SuperBlock) (inum other : ℕ) (inner : InodeInner) (d : Bits) (j : ℕ)
    → other ≢ inum
    → j < 64
    → byte (update_inode sb inum inner d (home sb other)) (disk_offset other + j)
      ≡ byte (d (home sb other)) (disk_offset other + j)
unfolding update_inode
update_inode-Others sb inum other inner d j ne lt =
    let w : Block = put_bytes (disk_offset inum) 64 (disk_byte inner) (d (home sb inum)) in
    elim (ℕ_discrete (home sb inum) (home sb other)) [
      | no apart ↦
          ap (λ (b : Block). byte b (disk_offset other + j))
            (update-ne d (home sb inum) (home sb other) w apart)
      | yes same ↦
          let here : update d (home sb inum) w (home sb other) ≡ w =
            ap (update d (home sb inum) w) (sym same) ∙ update_self d (home sb inum) w in
          ap (λ (b : Block). byte b (disk_offset other + j)) here
          ∙ byte-put_bytes_out (disk_offset inum) 64 (disk_byte inner) (d (home sb inum))
              (disk_offset other + j) (apart_in_block (omega arith))
          ∙ ap (λ b. byte (d b) (disk_offset other + j)) same
    ]
  where
    apart_in_block :
        inum / ipb ≡ other / ipb
        → (disk_offset other + j < disk_offset inum)
          ⊎ (disk_offset inum + 64 ≤ disk_offset other + j)
    apart_in_block e = elim (dec_lt other inum) [
      | yes before ↦ inl (omega arith)
      | no behind ↦ inr (omega arith)
    ]
