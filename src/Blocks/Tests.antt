-- ===== src/Blocks/Tests.antt =====
-- Runs of the block allocation on a small disk, and the theorems applied there.
use octopos.Base.{ℕ, ◌+◌, ◌/◌, ◌<◌, ◌≡◌, refl, ap, ◌⊎◌, true, ◌&&◌, arith, ltb, ◌==◌, ok, err}
use octopos.Fs.{out_of_block}
use octopos.Blocks.{bpb, SuperBlock, Bits, scan_bits, scan_maps, alloc_block}
use octopos.Blocks.Scan.{used}
use octopos.Blocks.FreeMap.{MapReserved, Allocated, alloc_block_lem}

abbrev pub small_disk : SuperBlock
small_disk = record {
  magic = 0;
  size = 20;
  nblocks = 16;
  ninodes = 8;
  nlogs = 0;
  logstart = 2;
  inodestart = 2;
  bmapstart = 3;
}

-- The blocks 0 to 9 are in use; the free map is block 3.
abbrev pub ten_used : Bits
ten_used b i = (b == 3) && ltb i 10

pub ten_used-MapReserved : MapReserved small_disk ten_used
ten_used-MapReserved = record {
  reserved = λ b lb.
      let first_row : b / bpb ≡ 0 = omega arith in
      (omega arith, ap (λ n. used small_disk ten_used (3 + n)) first_row);
}

alloc_block_lem_example :
    (((y : ℕ) → y < 20 → used small_disk ten_used y ≡ true)
      × (alloc_block small_disk ten_used ≡ (err out_of_block, ten_used)))
    ⊎ ((x : ℕ) × (d' : Bits) × (alloc_block small_disk ten_used ≡ (ok x, d'))
        × Allocated small_disk ten_used x d')
alloc_block_lem_example = alloc_block_lem small_disk ten_used ten_used-MapReserved

tenth : (alloc_block small_disk ten_used).0 ≡ ok 10
unfolding alloc_block scan_maps scan_bits
tenth = refl

tenth_marked : alloc_block small_disk ten_used ≡ (ok 10, (alloc_block small_disk ten_used).1)
unfolding alloc_block scan_maps scan_bits
tenth_marked = refl
