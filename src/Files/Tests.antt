-- ===== src/Files/Tests.antt =====
-- Runs of the file table on small inputs, and the theorems applied there.
use octopos.Base.{
  ℕ, zero, suc, ◌<◌, ◌≡◌, refl, ◌⊎◌, true, false, some, List, [], ◌∷◌, ◌++◌, replicate, arith, ok,
}
use octopos.Files.{
  File, inode, closed, alloc_file, dup_file, close_file, Release, kept, release, puts_inode,
}
use octopos.Files.Refs.{Frees, Use, dups, closes, uses, closings, uses_lem}

abbrev opened : File
opened = record { ref_count = 1; readable = true; writeable = false; type = inode 9; offset = 0 }

allocates : (alloc_file 0 (opened ∷ record opened { ref_count = 0 } ∷ [])).0 ≡ ok 1
unfolding alloc_file
allocates = refl

abbrev shares : List Use
shares = dups ∷ closes ∷ closes ∷ []

shared :
    uses shares opened
    ≡ some (record opened { ref_count = 0; type = closed }, kept ∷ puts_inode 9 ∷ [])
unfolding dup_file close_file release
shared = refl

uses_lem_example :
    ((0 < 0)
      × (uses shares opened
          ≡ some (record opened { ref_count = 0 }, replicate (closings shares) kept)))
    ⊎ ((zero ≡ 0)
        × (c : ℕ) × (r : Release) × (closings shares ≡ suc c)
        × Frees opened.type opened.writeable r
        × (uses shares opened
            ≡ some (record opened { ref_count = 0; type = closed }, replicate c kept ++ (r ∷ []))))
uses_lem_example =
    uses_lem shares 0 opened (omega arith)
      (omega arith, omega arith, (omega arith, (omega arith, refl)))
