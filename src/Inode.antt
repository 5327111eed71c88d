-- ===== src/Inode.antt =====
-- kernel/src/fs.rs: the contents of an inode: `map` and the loops of `read` and `write`, over the blocks of
-- Blocks. The sleep lock of the inode is held. User memory is reached up to a number of bytes.
pub mod Bytes
pub mod Slots
pub mod Grow
pub mod Fill
pub mod Map
pub mod Contents
pub mod Round
pub mod FileBytes
pub mod Read
pub mod Write
pub mod Disk
use octopos.Base.{
  ℕ, zero, suc, ◌+◌, ◌-◌, ◌*◌, ◌/◌, ◌%◌, ◌^◌, min, Bool, true, false, not, ◌&&◌, ◌||◌, Option, none,
  some, List, [], ◌∷◌, ◌++◌, ltb, leb, ◌==◌, if◌then◌else◌, update, Result, ok, err, get_or, length,
}
use octopos.Fs.{FsError, out_of_range, read, write}
use octopos.Blocks.{SuperBlock, Bits, alloc_block, free_block}

-- `BSIZE`, `NDIRECT`, `NINDIRECT` and `MAXFILE`
abbrev pub bsize : ℕ
bsize = 1024

abbrev pub ndirect : ℕ
ndirect = 12

abbrev pub nindirect : ℕ
nindirect = 256

abbrev pub maxfile : ℕ
maxfile = ndirect + nindirect

-- The contents of one block, by its bits
abbrev pub Block : Type 0
Block = ℕ → Bool

abbrev pub bit_value : Bool → ℕ
bit_value true = 1
bit_value false = 0

-- `data()[j]`
pub byte : Block → ℕ → ℕ
byte c j =
    bit_value (c (8 * j + 0))
    + 2 * bit_value (c (8 * j + 1))
    + 4 * bit_value (c (8 * j + 2))
    + 8 * bit_value (c (8 * j + 3))
    + 16 * bit_value (c (8 * j + 4))
    + 32 * bit_value (c (8 * j + 5))
    + 64 * bit_value (c (8 * j + 6))
    + 128 * bit_value (c (8 * j + 7))

-- `n` bytes copied over the block from offset `o` on; byte `i` of them is `f i`.
pub put_bytes : ℕ → ℕ → (ℕ → ℕ) → Block → Block
put_bytes o n f c i =
    if leb o (i / 8) && ltb (i / 8) (o + n) then f (i / 8 - o) / 2 ^ (i % 8) % 2 == 1 else c i

-- An entry of a block of addresses, `*mut u32`, little-endian
pub get_u32 : Block → ℕ → ℕ
get_u32 c i =
    byte c (4 * i + 0)
    + 256 * byte c (4 * i + 1)
    + 65536 * byte c (4 * i + 2)
    + 16777216 * byte c (4 * i + 3)

abbrev pub byte_of : ℕ → ℕ → ℕ
byte_of v j = v / 2 ^ (8 * j) % 256

pub put_u32 : ℕ → ℕ → Block → Block
put_u32 i v = put_bytes (4 * i) 4 (byte_of v)

-- The address that is there, or a new block
pub fill : SuperBlock → ℕ → Bits → Result ℕ FsError × Bits
fill sb a d = if a == 0 then alloc_block sb d else (ok a, d)

-- The rest of `Inode::map`, with the block of addresses at `x`
pub map_entry : SuperBlock → ℕ → ℕ → (ℕ → ℕ) → Bits → Result ℕ FsError × (ℕ → ℕ) × Bits
map_entry sb x i addrs d =
    let addr = get_u32 (d x) i in
    let (r, d') = fill sb addr d in
    elim r [
      | err e ↦ (err e, addrs, d')
      | ok a ↦ (ok a, addrs, if addr == 0 then update d' x (put_u32 i a (d' x)) else d')
    ]

-- `Inode::map`, on the addresses of the inode and the blocks
pub map : SuperBlock → ℕ → (ℕ → ℕ) → Bits → Result ℕ FsError × (ℕ → ℕ) × Bits
map sb block_no addrs d =
    if ltb block_no ndirect
    then (let (r, d') = fill sb (addrs block_no) d in
        elim r [ err e ↦ (err e, addrs, d') | ok x ↦ (ok x, update addrs block_no x, d') ])
    else if ltb (block_no - ndirect) nindirect
    then (let (r, d₁) = fill sb (addrs ndirect) d in
        elim r [
          | err e ↦ (err e, addrs, d₁)
          | ok x ↦ map_entry sb x (block_no - ndirect) (update addrs ndirect x) d₁
        ])
    else (err out_of_range, addrs, d)

-- The loop of `Inode::write` with `k` rounds left: how many bytes are written. `user` is `src_user`, and
-- the first `avail` bytes of user memory can be read. A write from kernel memory copies all that
-- remains, which must fit the block: `none` is a write beyond it.
pub write_from :
    SuperBlock → List ℕ → Bool → ℕ → ℕ → ℕ → ℕ → ℕ → (ℕ → ℕ) → Bits → Option (ℕ × (ℕ → ℕ) × Bits)
write_from sb src user avail n zero total offset addrs d = some (total, addrs, d)
write_from sb src user avail n (suc k) total offset addrs d =
    let (r, addrs', d') = map sb (offset / bsize) addrs d in
    let m = min (n - total) (bsize - offset % bsize) in
    if leb n total then some (total, addrs, d) else (elim r [
      | err _ ↦ some (total, addrs', d')
      | ok a ↦
          (let copied = if user then min m (avail - total) else m in
            let d'' : Bits =
              update d' a
                (put_bytes (offset % bsize) copied (λ i. get_or src (total + i) 0) (d' a)) in
            let rest = write_from sb src user avail n k (total + m) (offset + m) addrs' d'' in
            if not user && ltb bsize (offset % bsize + (n - total))
            then none
            else if user && ltb avail (total + m)
            then some (total, addrs', d'')
            else rest)
    ])

-- `n` bytes of the block from offset `o` on
abbrev pub bytes_of : Block → ℕ → ℕ → List ℕ
bytes_of c o zero = []
bytes_of c o (suc n) = byte c o ∷ bytes_of c (o + 1) n

-- The loop of `Inode::read` with `k` rounds left: the bytes that are read. The first `room` bytes can be
-- copied out.
pub read_from :
    SuperBlock → ℕ → ℕ → ℕ → ℕ → ℕ → (ℕ → ℕ) → Bits → Result (List ℕ) FsError × (ℕ → ℕ) × Bits
read_from sb room n zero total offset addrs d = (ok [], addrs, d)
read_from sb room n (suc k) total offset addrs d =
    let (r, addrs', d') = map sb (offset / bsize) addrs d in
    let m = min (n - total) (bsize - offset % bsize) in
    let rest = read_from sb room n k (total + m) (offset + m) addrs' d' in
    if leb n total then (ok [], addrs, d) else (elim r [
      | err _ ↦ (ok [], addrs', d')
      | ok a ↦ if ltb room (total + m) then (err read, addrs', d') else (elim rest.0 [
        | err e ↦ (err e, rest.1, rest.2)
        | ok bytes ↦ (ok (bytes_of (d' a) (offset % bsize) m ++ bytes), rest.1, rest.2)
      ])
    ])
