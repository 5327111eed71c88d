-- ===== src/Inode/Disk/Tests.antt =====
-- A file of one block on a small disk, and the theorems applied there.
use octopos.Base.{
  ℕ, zero, suc, ◌+◌, ◌%◌, ◌*◌, ◌/◌, ◌^◌, ◌≤◌, ◌<◌, ◌≡◌, refl, ap, ◌⊎◌, inl, true, false, Option,
  none, some, List, [], ◌∷◌, arith, ◌==◌, if◌then◌else◌, Result, ok, err, get_or,
}
use octopos.Fs.{FsError, read, write}
use octopos.Blocks.{Bits}
use octopos.Blocks.Scan.{used}
use octopos.Blocks.Tests.{small_disk, ten_used, ten_used-MapReserved}
use octopos.Inode.{bsize, maxfile, fill, map, write_from}
use octopos.Inode.Slots.{slot, place, Sound, Owned}
use octopos.Inode.Map.{Mapped, map_lem}
use octopos.Inode.Disk.{
  free, file, InodeInner, update_inode, lock_inode, read_inode, write_inode, trunc,
}
use octopos.Inode.Disk.Encode.{HasWidths, Reloaded, lock_inode-update_inode}
use octopos.Inode.Disk.Home.{IsFile}
use octopos.Inode.Disk.Write.{WroteFile, write_inode_lem}
use octopos.Inode.Disk.Read.{ReadFile, read_inode_lem, read_inode-write_inode}
use octopos.Inode.Disk.Trunc.{Truncated, trunc_lem}

-- Inode 1, with five bytes in block 9
abbrev pub one_block : InodeInner
one_block = record {
  valid = true;
  type = file;
  major = 0;
  minor = 0;
  nlink = 1;
  size = 5;
  addrs = λ i. if i == 0 then 9 else 0;
}

ten_used-Sound : Sound small_disk ten_used
ten_used-Sound = record { reserved = ten_used-MapReserved; boot = refl; small = omega arith }

place_at : (n : ℕ) → slot one_block.addrs ten_used n ≡ (if n == 0 then 9 else 0)
place_at n = ground arith

one_block-Owned : Owned small_disk (slot one_block.addrs ten_used) ten_used
one_block-Owned = record {
  in_disk = λ n ln nz. ground (arith, place_at n);
  in_use = λ n ln nz.
      let first : n ≡ 0 = ground (arith, place_at n, nz) in
      ap (λ i. used small_disk ten_used (slot one_block.addrs ten_used i)) first;
  off_map = λ n ln nz y ly. ground (arith, place_at n);
  distinct = λ m n lm ln nz e. ground (arith, place_at m, place_at n, nz, e);
}

pub one_block-IsFile : IsFile small_disk 1 one_block ten_used
one_block-IsFile = record {
  sound = ten_used-Sound;
  owned = one_block-Owned;
  lives = record {
    real = omega arith;
    inside = omega arith;
    in_use = refl;
    off_map = λ y ly. omega arith;
    apart = λ n ln. ground (arith, place_at n);
  };
  fits = omega arith;
  present = λ off lt. ground (arith, lt, place_at (place (off / bsize)));
}

abbrev pub two_bytes : List ℕ
two_bytes = 65 ∷ 66 ∷ []

pub two_bytes_small : (i : ℕ) → get_or two_bytes i 0 < 256
two_bytes_small zero = omega arith
two_bytes_small (suc zero) = omega arith
two_bytes_small (suc (suc i)) = omega arith

map_lem_example :
    Mapped small_disk 1 one_block.addrs ten_used (map small_disk 1 one_block.addrs ten_used)
map_lem_example = map_lem small_disk 1 one_block.addrs ten_used ten_used-Sound one_block-Owned

write_inode_lem_example :
    (((5 < 4) ⊎ (maxfile * bsize < 4 + 2))
      × (write_inode small_disk 1 two_bytes true 8 4 one_block ten_used
          ≡ some (err write, one_block, ten_used)))
    ⊎ ((4 ≤ 5)
        × (4 + 2 ≤ maxfile * bsize)
        × WroteFile small_disk 1 two_bytes true 8 4 one_block ten_used
            (write_inode small_disk 1 two_bytes true 8 4 one_block ten_used))
write_inode_lem_example =
    write_inode_lem small_disk 1 two_bytes true 8 4 one_block ten_used one_block-IsFile
      (omega arith) two_bytes_small (inl refl)

read_inode_lem_example :
    (((5 < 3) ⊎ (2 ^ 32 ≤ 3 + 10 % 2 ^ 32))
      × (read_inode small_disk 9 10 3 one_block ten_used ≡ (err read, one_block, ten_used)))
    ⊎ ((3 ≤ 5)
        × ReadFile small_disk 1 9 2 3 one_block ten_used
            (read_inode small_disk 9 10 3 one_block ten_used))
read_inode_lem_example = read_inode_lem small_disk 1 9 10 3 one_block ten_used one_block-IsFile

-- The file after the write of two bytes at offset 4
abbrev written : Option (Result ℕ FsError × InodeInner × Bits)
written = write_inode small_disk 1 two_bytes true 8 4 one_block ten_used

abbrev inner_of : Option (Result ℕ FsError × InodeInner × Bits) → InodeInner
inner_of none = one_block
inner_of (some x) = x.1

abbrev blocks_of : Option (Result ℕ FsError × InodeInner × Bits) → Bits
blocks_of none = ten_used
blocks_of (some x) = x.2

two_written : written ≡ some (ok 2, inner_of written, blocks_of written)
unfolding write_inode write_from map fill update_inode
two_written = refl

read_inode-write_inode_example :
    (read_inode small_disk 9 2 4 (inner_of written) (blocks_of written)).0 ≡ ok (65 ∷ 66 ∷ [])
read_inode-write_inode_example =
    read_inode-write_inode small_disk 1 two_bytes true 8 4 9 one_block ten_used one_block-IsFile
      (omega arith) two_bytes_small (inl refl) 2 (inner_of written) (blocks_of written) two_written
      (omega arith)

one_block-HasWidths : HasWidths one_block
one_block-HasWidths = record {
  major = omega arith;
  minor = omega arith;
  nlink = omega arith;
  size = omega arith;
  addrs = λ i lt. ground arith;
}

abbrev stale : InodeInner
stale = record one_block { valid = false; size = 0 }

lock_inode-update_inode_example :
    ((file ≡ free)
      × (lock_inode small_disk 1 stale (update_inode small_disk 1 one_block ten_used) ≡ none))
    ⊎ ((r : InodeInner) × (lock_inode small_disk 1 stale
            (update_inode small_disk 1 one_block ten_used)
          ≡ some r)
        × Reloaded one_block r)
lock_inode-update_inode_example =
    lock_inode-update_inode small_disk 1 one_block stale ten_used one_block-HasWidths refl

trunc_lem_example :
    Truncated small_disk 1 one_block ten_used (trunc small_disk 1 one_block ten_used)
trunc_lem_example = trunc_lem small_disk 1 one_block ten_used one_block-IsFile
