-- ===== src/Files/Chunks.antt =====
-- kernel/src/file.rs: `File::write` on an inode: the bytes go to the inode a few blocks at a time.
pub mod Ends
mod Tests
use octopos.Base.{
  ℕ, zero, suc, ◌+◌, ◌-◌, ◌*◌, ◌/◌, min, true, none, some, List, ltb, ◌==◌, if◌then◌else◌, ok, err,
  length, take, drop,
}
use octopos.Blocks.{SuperBlock, Bits}
use octopos.Log.{maxopblocks}
use octopos.Inode.{bsize}
use octopos.Inode.Disk.{InodeInner, write_inode}

-- How the loop of `File::write` ends: `Ok(n)` or `IoError`, with the offset of the file. `more` is that
-- the rounds are used up, `undefined` that `Inode::write` is.
pub data Chunks : Type 0 where
  more undefined : Chunks
  wrote io_error : ℕ → InodeInner → Bits → Chunks

-- `max`, the bytes of one transaction
abbrev pub max_chunk : ℕ
max_chunk = (maxopblocks - 1 - 1 - 2) / 2 * bsize

-- The loop, at byte `i` of the source, with `k` rounds left; user memory can be read up to `avail`.
pub write_chunks : SuperBlock → ℕ → List ℕ → ℕ → ℕ → ℕ → ℕ → InodeInner → Bits → Chunks
write_chunks sb inum src avail zero i offset inner d =
    if ltb i (length src)
    then more
    else if i == length src
    then wrote offset inner d
    else io_error offset inner d
write_chunks sb inum src avail (suc k) i offset inner d =
    if ltb i (length src)
    then (elim (write_inode sb inum (take (min (length src - i) max_chunk) (drop i src)) true
        (avail - i) offset inner d) [
          | none ↦ undefined
          | some (ok w, inner', d') ↦
              write_chunks sb inum src avail k (i + w) (offset + w) inner' d'
          | some (err _, inner', d') ↦ io_error offset inner' d'
        ])
    else if i == length src
    then wrote offset inner d
    else io_error offset inner d
