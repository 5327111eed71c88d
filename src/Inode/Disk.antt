-- ===== src/Inode/Disk.antt =====
-- `InodeInner` and `DiskInode`, and the operations of an inode that is locked: `update`, `read`, `write`
-- and `trunc`, with the load of `lock`.
pub mod Encode
pub mod Home
pub mod Write
pub mod Read
pub mod Free
pub mod Trunc
pub mod Tests
use octopos.Base.{
  ℕ, zero, suc, ◌+◌, ◌-◌, ◌*◌, ◌/◌, ◌%◌, ◌^◌, Bool, true, false, ◌&&◌, ◌||◌, Option, none, some,
  List, ltb, leb, ◌==◌, if◌then◌else◌, update, Result, ok, err, length,
}
use octopos.Fs.{FsError, read, write}
use octopos.Blocks.{SuperBlock, Bits, free_block}
use octopos.Inode.{
  Block, byte, put_bytes, get_u32, byte_of, bsize, ndirect, nindirect, maxfile, read_from,
  write_from,
}

pub data InodeType : Type 0 where
  free directory file device : InodeType

abbrev pub type_code : InodeType → ℕ
type_code free = 0
type_code directory = 1
type_code file = 2
type_code device = 3

-- A number that is none of the four is no value of the type.
abbrev pub type_of : ℕ → Option InodeType
type_of v =
    if v == 0
    then some free
    else if v == 1
    then some directory
    else if v == 2
    then some file
    else if v == 3
    then some device
    else none

pub record InodeInner : Type 0 where
  pub valid : Bool
  pub type : InodeType
  pub major : ℕ
  pub minor : ℕ
  pub nlink : ℕ
  pub size : ℕ
  pub addrs : ℕ → ℕ

-- The 64 bytes of a `DiskInode`
abbrev pub disk_byte : InodeInner → ℕ → ℕ
disk_byte inner j =
    if ltb j 2
    then byte_of (type_code inner.type) j
    else if ltb j 4
    then byte_of inner.major (j - 2)
    else if ltb j 6
    then byte_of inner.minor (j - 4)
    else if ltb j 8
    then byte_of inner.nlink (j - 6)
    else if ltb j 12
    then byte_of inner.size (j - 8)
    else byte_of (inner.addrs ((j - 12) / 4)) ((j - 12) % 4)

-- `IPB`
abbrev pub ipb : ℕ
ipb = 16

-- The block of an inode, and the offset in it that `DiskInode::from_buf` takes
abbrev pub home : SuperBlock → ℕ → ℕ
home sb inum = sb.inodestart + inum / ipb

abbrev pub disk_offset : ℕ → ℕ
disk_offset inum = inum % ipb * 64

-- `Inode::update`
pub update_inode : SuperBlock → ℕ → InodeInner → Bits → Bits
update_inode sb inum inner d =
    update d (home sb inum) (put_bytes (disk_offset inum) 64 (disk_byte inner) (d (home sb inum)))

abbrev pub get_u16 : Block → ℕ → ℕ
get_u16 c o = byte c o + 256 * byte c (o + 1)

-- The fields of the `DiskInode` at offset `o`, but for its type
abbrev pub loaded : Block → ℕ → InodeType → InodeInner
loaded c o t = record {
  valid = true;
  type = t;
  major = get_u16 c (o + 2);
  minor = get_u16 c (o + 4);
  nlink = get_u16 c (o + 6);
  size = get_u32 c (o / 4 + 2);
  addrs = λ i. get_u32 c (o / 4 + 3 + i);
}

-- `none` is the panic of `lock` on a free inode, and a type that is no `InodeType`.
abbrev pub loads : Block → ℕ → Option InodeType → Option InodeInner
loads c o none = none
loads c o (some t) = if type_code t == 0 then none else some (loaded c o t)

-- The load of `Inode::lock`
pub lock_inode : SuperBlock → ℕ → InodeInner → Bits → Option InodeInner
lock_inode sb inum inner d =
    let c = d (home sb inum) in
    let o = disk_offset inum in
    if inner.valid then some inner else loads c o (type_of (get_u16 c o))

-- `Inode::read` of `len` bytes, with the bytes that are copied out. `room` is as for the loop.
pub read_u32 :
    SuperBlock → ℕ → ℕ → ℕ → InodeInner → Bits → Result (List ℕ) FsError × InodeInner × Bits
read_u32 sb room len offset inner d =
    let n : ℕ = if ltb inner.size (offset + len) then inner.size - offset else len in
    let x = read_from sb room n n 0 offset inner.addrs d in
    if ltb inner.size offset || leb (2 ^ 32) (offset + len)
    then (err read, inner, d)
    else (x.0, record inner { addrs = x.1 }, x.2)

-- `Inode::read`, whose buffer has `dst_len` bytes; the length is cut to a u32.
pub read_inode :
    SuperBlock → ℕ → ℕ → ℕ → InodeInner → Bits → Result (List ℕ) FsError × InodeInner × Bits
read_inode sb room dst_len offset inner d = read_u32 sb room (dst_len % 2 ^ 32) offset inner d

-- `Inode::write`; `user`, `avail` and `none` are as for the loop.
pub write_inode :
    SuperBlock
    → ℕ
    → List ℕ
    → Bool
    → ℕ
    → ℕ
    → InodeInner
    → Bits
    → Option (Result ℕ FsError × InodeInner × Bits)
write_inode sb inum src user avail offset inner d =
    let n = length src % 2 ^ 32 in
    if ltb inner.size offset || leb (2 ^ 32) (offset + n)
    then some (err write, inner, d)
    else if ltb (maxfile * bsize) (offset + n)
    then some (err write, inner, d)
    else (elim (write_from sb src user avail n n 0 offset inner.addrs d) [
      | none ↦ none
      | some (total, addrs', d') ↦
          (let inner' = record inner {
            size = if ltb inner.size (offset + total) then offset + total else inner.size;
            addrs = addrs';
          } in
            some (ok total, inner', update_inode sb inum inner' d'))
    ])

-- The first loop of `Inode::trunc`, with `k` direct addresses to go from the `i`th on
pub free_direct : SuperBlock → ℕ → ℕ → (ℕ → ℕ) → Bits → Option ((ℕ → ℕ) × Bits)
free_direct sb zero i addrs d = some (addrs, d)
free_direct sb (suc k) i addrs d =
    if addrs i == 0 then free_direct sb k (i + 1) addrs d else (elim (free_block sb (addrs i) d) [
      | none ↦ none
      | some d' ↦ free_direct sb k (i + 1) (update addrs i 0) d'
    ])

-- The second, over the entries of the block of addresses at `x`
pub free_entries : SuperBlock → ℕ → ℕ → ℕ → Bits → Option Bits
free_entries sb x zero i d = some d
free_entries sb x (suc k) i d =
    if get_u32 (d x) i == 0
    then free_entries sb x k (i + 1) d
    else (elim (free_block sb (get_u32 (d x) i) d) [
      | none ↦ none
      | some d' ↦ free_entries sb x k (i + 1) d'
    ])

abbrev free_table : SuperBlock → (ℕ → ℕ) → Bits → Option ((ℕ → ℕ) × Bits)
free_table sb addrs d =
    if addrs ndirect == 0
    then some (addrs, d)
    else (elim (free_entries sb (addrs ndirect) nindirect 0 d) [
      | none ↦ none
      | some d' ↦ (elim (free_block sb (addrs ndirect) d') [
        | none ↦ none
        | some d'' ↦ some (update addrs ndirect 0, d'')
      ])
    ])

-- `Inode::trunc`; `none` is the panic of `Block::free`.
pub trunc : SuperBlock → ℕ → InodeInner → Bits → Option (InodeInner × Bits)
trunc sb inum inner d = elim (free_direct sb ndirect 0 inner.addrs d) [
  | none ↦ none
  | some (addrs₁, d₁) ↦ (elim (free_table sb addrs₁ d₁) [
    | none ↦ none
    | some (addrs₂, d₂) ↦
        (let inner' = record inner { size = 0; addrs = addrs₂ } in
          some (inner', update_inode sb inum inner' d₂))
  ])
]
