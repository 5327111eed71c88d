-- ===== src/Fs/Tests.antt =====
-- Runs of directories, paths and the inode table on small inputs, and the theorems applied there.
use octopos.Base.{
  ℕ, zero, suc, ◌<◌, ◌≡◌, ◌≢◌, refl, none, some, List, [], ◌∷◌, arith, replicate, ok, err,
  get_elem?,
}
use octopos.Fs.{
  Directory, link, until_zero, is_name_equal, lookup_from, lookup, put_entry, link_entry, Calls,
  lookup_reads, find_slot, set_name, padded, trim_start, break_slash, next_component, InodeMeta,
  get,
}
use octopos.Fs.Names.{NoZero}
use octopos.Fs.Link.{works, link_long_lem}
use octopos.Fs.Inodes.{Single, Got, get_lem}

-- `/ab//c`
abbrev path : List ℕ
path = 47 ∷ 97 ∷ 98 ∷ 47 ∷ 47 ∷ 99 ∷ []

cuts : next_component path ≡ some (97 ∷ 98 ∷ [], 99 ∷ [])
unfolding next_component trim_start break_slash
cuts = refl

abbrev home : List Directory
home =
    record { inum = 4; name = 97 ∷ replicate 13 0 }
    ∷ record { inum = 0; name = replicate 14 0 }
    ∷ []

finds : lookup (97 ∷ []) home ≡ some (0, 4)
unfolding lookup lookup_from is_name_equal until_zero
finds = refl

-- The disk is full: the write is of no byte.
abbrev full_disk : Calls
full_disk = record works { writes = ok 0 }

refused_write : link_entry full_disk (98 ∷ []) 5 home ≡ some (err link)
unfolding link_entry lookup_reads find_slot is_name_equal until_zero
refused_write = refl

linked_once :
    link_entry works (98 ∷ []) 5 home
    ≡ some (
        ok (
          record { inum = 4; name = 97 ∷ replicate 13 0 }
          ∷ record { inum = 5; name = 98 ∷ replicate 13 0 }
          ∷ []))
unfolding link_entry lookup_reads find_slot is_name_equal until_zero put_entry set_name padded
linked_once = refl

abbrev long : List ℕ
long = replicate 15 98

real : (n : ℕ) → suc n ≢ 0
real n e = omega arith

replicate-NoZero : (n : ℕ) → NoZero (replicate n 98)
replicate-NoZero zero = tt
replicate-NoZero (suc n) = (real 97, replicate-NoZero n)

not_found : lookup long home ≡ none
unfolding lookup lookup_from is_name_equal until_zero
not_found = refl

link_long_lem_example :
    (ds' : List Directory) × (link_entry works long 5 home ≡ some (ok ds'))
    × (lookup long ds' ≡ none)
    × (link_entry works long 5 ds' ≡ some (ok (put_entry long 5 ds')))
link_long_lem_example =
    link_long_lem long 5 home (replicate-NoZero 15) (real 4) (omega arith) not_found

abbrev inodes : List InodeMeta
inodes = record { dev = 1; inum = 7; refs = 2 } ∷ record { dev = 0; inum = 0; refs = 0 } ∷ []

only_first : (i : ℕ) (a : InodeMeta) → get_elem? inodes i ≡ some a → 0 < a.refs → i ≡ 0
only_first zero a e l = refl
only_first (suc zero) a e l = ground (arith, e, l)
only_first (suc (suc i)) a e l = absurd (cc)

inodes-Single : Single inodes
inodes-Single i j a b ea eb la lb ed ei = omega (arith, only_first i a ea la, only_first j b eb lb)

get_lem_example : Got 1 8 inodes (get 1 8 inodes)
get_lem_example = get_lem 1 8 inodes inodes-Single
