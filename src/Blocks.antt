-- ===== src/Blocks.antt =====
-- kernel/src/fs.rs: the allocation of disk blocks, `Block`. A block's contents are its bits: bit `i` is
-- that of `1 << (i % 8)` in the byte `i / 8`. The blocks are as the buffer cache shows them, and
-- `log::write`, which records a change of them, is taken to have the room that the operation reserved.
pub mod Scan
pub mod FreeMap
pub mod Tests
use octopos.Base.{
  ℕ, zero, suc, ◌+◌, ◌-◌, ◌/◌, ◌%◌, Bool, true, false, Option, none, some, leb, if◌then◌else◌,
  update, Result, ok, err,
}
use octopos.Fs.{FsError, out_of_block}

-- `BPB`, the bits of a block
abbrev pub bpb : ℕ
bpb = 8192

pub record SuperBlock : Type 0 where
  pub magic : ℕ
  pub size : ℕ
  pub nblocks : ℕ
  pub ninodes : ℕ
  pub nlogs : ℕ
  pub logstart : ℕ
  pub inodestart : ℕ
  pub bmapstart : ℕ

abbrev pub Bits : Type 0
Bits = ℕ → ℕ → Bool

-- `Block::zero`
pub zero_block : ℕ → Bits → Bits
zero_block b d = update d b (λ _. false)

abbrev pub set_bit : ℕ → ℕ → Bool → Bits → Bits
set_bit block i v d = update d block (update (d block) i v)

-- The inner loop of `Block::alloc`, over the bits from `bi` on, with `k` to go.
pub scan_bits : SuperBlock → ℕ → ℕ → ℕ → Bits → Option ℕ
scan_bits sb b zero bi d = none
scan_bits sb b (suc k) bi d =
    let rest = scan_bits sb b k (bi + 1) d in
    if leb sb.size (b + bi) then none else if d (sb.bmapstart + b / bpb) bi then rest else some bi

-- The outer loop, over the blocks of the free map, with `k` to go: the block, marked and zeroed.
pub scan_maps : SuperBlock → ℕ → ℕ → Bits → Result ℕ FsError × Bits
scan_maps sb zero b d = (err out_of_block, d)
scan_maps sb (suc k) b d =
    let rest = scan_maps sb k (b + bpb) d in
    elim (scan_bits sb b bpb 0 d) [
      | some bi ↦ (ok (b + bi), zero_block (b + bi) (set_bit (sb.bmapstart + b / bpb) bi true d))
      | none ↦ rest
    ]

-- `Block::alloc`
pub alloc_block : SuperBlock → Bits → Result ℕ FsError × Bits
alloc_block sb d = scan_maps sb ((sb.size + bpb - 1) / bpb) 0 d

-- `Block::free`; `none` is its panic.
pub free_block : SuperBlock → ℕ → Bits → Option Bits
free_block sb b d =
    let block = sb.bmapstart + b / bpb in
    let bi = b % bpb in if d block bi then some (set_bit block bi false d) else none
