-- ===== src/Files.antt =====
-- kernel/src/file.rs: the table of open files. An entry has its reference count (FileMeta) and its
-- FileInner; pipes and inodes stand for themselves by a number. `none` is the failure of an `assert!`.
pub mod Refs
pub mod Chunks
mod Tests
use octopos.Base.{
  ℕ, zero, suc, ◌+◌, ◌-◌, ◌%◌, ◌^◌, Bool, true, false, Option, none, some, List, [], ◌∷◌, leb, ltb,
  ◌==◌, if◌then◌else◌, get_elem?, set, Result, ok, err,
}

pub data FileType : Type 0 where
  closed : FileType
  pipe inode : ℕ → FileType
  device : ℕ → ℕ → FileType

pub record File : Type 0 where
  pub ref_count : ℕ
  pub readable : Bool
  pub writeable : Bool
  pub type : FileType
  pub offset : ℕ

pub data Error : Type 0 where
  out_of_file : Error

-- `File::alloc`, from entry `i` on
pub alloc_file : ℕ → List File → Result ℕ Error × List File
alloc_file i [] = (err out_of_file, [])
alloc_file i (f ∷ fs) =
    let (r, fs') = alloc_file (i + 1) fs in
    if f.ref_count == 0 then (ok i, record f { ref_count = 1 } ∷ fs) else (r, f ∷ fs')

-- `File::dup`, on the entry
pub dup_file : File → Option File
dup_file f =
    if leb 1 f.ref_count then some (record f { ref_count = (f.ref_count + 1) % 2 ^ 64 }) else none

-- What `File::close` does to the object when the last reference goes.
pub data Release : Type 0 where
  kept nothing : Release
  closes_pipe : ℕ → Bool → Release
  puts_inode : ℕ → Release

pub release : FileType → Bool → Release
release closed w = nothing
release (pipe p) w = closes_pipe p w
release (inode i) w = puts_inode i
release (device i major) w = puts_inode i

-- `File::close`, on the entry
pub close_file : File → Option (File × Release)
close_file f =
    let left = f.ref_count - 1 in
    if leb 1 f.ref_count
    then (if ltb 0 left
        then some (record f { ref_count = left }, kept)
        else some (record f { ref_count = 0; type = closed }, release f.type f.writeable))
    else none
