-- ===== src/Fs/Link.antt =====
-- `Directory::link` and `Directory::lookup`: what a new entry changes for later lookups.
use octopos.Base.{
  ℕ, ◌+◌, ◌<◌, ◌≡◌, ◌≢◌, sym, ◌∙◌, ◌⊎◌, inl, inr, true, false, none, some, List, [], ◌∷◌, arith,
  length, take, ◌==◌, Bool-cases, ok, err, Option, Result,
}
use octopos.Fs.{
  Directory, link, dirsize, entry_size, new_empty, set_name, is_name_equal, lookup_from, lookup,
  put_entry, link_entry, Calls, FsError, lookup_reads,
}
use octopos.Fs.Reads.{Short, Fails, lookup_reads_lem, find_slot_lem}
use octopos.Fs.Names.{NoZero, is_name_equal-set_name, take_long}

abbrev entry : Directory → List ℕ → ℕ → Directory
entry d name inum = record (set_name d name) { inum = inum }

module _ (name : List ℕ) (inum : ℕ) (plain : NoZero name) (real : inum ≢ 0) where
  entry-silent :
      (d : Directory) (other : List ℕ)
      → other ≢ take dirsize name
      → is_name_equal (entry d name inum) other ≡ false
  unfolding is_name_equal
  entry-silent d other ne = elim (Bool-cases (is_name_equal (entry d name inum) other)) [
    | inl yes_equal ↦ absurd (ne ((is_name_equal-set_name d name other plain).0 yes_equal))
    | inr no_equal ↦ no_equal
  ]

  lookup_from-other :
      (i : ℕ) (ds : List Directory) (other : List ℕ)
      → other ≢ take dirsize name
      → lookup_from other i (put_entry name inum ds) ≡ lookup_from other i ds
  unfolding lookup_from put_entry
  lookup_from-other i [] other ne = ground (arith, entry-silent new_empty other ne)
  lookup_from-other i (d ∷ ds) other ne = elim (Bool-cases (d.inum == 0)) [
    | inl free ↦ ground (arith, free, entry-silent d other ne)
    | inr used ↦ ground (arith, used, lookup_from-other (i + 1) ds other ne)
  ]

-- What `link` has done, which answers `r`, with the answers `c` of its calls.
pub data Linked (c : Calls) (name : List ℕ) (inum : ℕ) (ds : List Directory)
    (r : Option (Result (List Directory) FsError)) : Type 0 where
  -- A read was short: the assertion fails.
  panics :
      r ≡ none → Short c.looks (length ds) ⊎ Short c.scans (length ds) → Linked c name inum ds r
  -- The name is there.
  there : (x : ℕ × ℕ) → lookup name ds ≡ some x → r ≡ some (err link) → Linked c name inum ds r
  -- A read of its own loop failed, or its write failed or was short.
  fails :
      (e : FsError)
      → r ≡ some (err e)
      → Fails c.scans e (length ds)
        ⊎ (c.writes ≡ err e)
        ⊎ ((m : ℕ) × (c.writes ≡ ok m) × (m ≢ entry_size) × (e ≡ link))
      → Linked c name inum ds r
  -- The entry is written. Other names are found as before, and the name with the inode, unless the
  -- lookup for it failed.
  links :
      (ds' : List Directory)
      → r ≡ some (ok ds')
      → c.writes ≡ ok entry_size
      → ((other : List ℕ) → other ≢ name → lookup other ds' ≡ lookup other ds)
      → ((lookup name ds ≡ none) × (o : ℕ) × (lookup name ds' ≡ some (o, inum)))
        ⊎ ((e : FsError) × Fails c.looks e (length ds))
        ⊎ ((o x : ℕ) × (lookup name ds ≡ some (o, x)) × (c.gets x ≡ false))
      → Linked c name inum ds r

-- All calls succeed.
abbrev pub works : Calls
works = record {
  looks = λ _. ok entry_size;
  scans = λ _. ok entry_size;
  gets = λ _. true;
  writes = ok entry_size;
}

-- Then an absent name is linked.
link_entry-works :
    (name : List ℕ) (inum : ℕ) (ds : List Directory)
    → lookup name ds ≡ none
    → link_entry works name inum ds ≡ some (ok (put_entry name inum ds))
unfolding link_entry lookup
link_entry-works name inum ds absent =
    let looked : lookup_reads works name 0 ds ≡ some (ok none) =
      elim (lookup_reads_lem works name 0 ds) [
        | inl (_, s) ↦ absurd (ground (arith, s))
        | inr (inl (_, _, inl s)) ↦ absurd (ground (arith, s))
        | inr (inl (_, _, inr s)) ↦ absurd (ground (arith, s, absent))
        | inr (inr r) ↦ ground (arith, r, absent)
      ] in
    elim (find_slot_lem works 0 ds) [
      | inl (_, s) ↦ absurd (ground (arith, s))
      | inr (inl (_, _, s)) ↦ absurd (ground (arith, s))
      | inr (inr (_, r)) ↦ ground (arith, looked, r)
    ]

-- With all calls succeeding, a name of more than 14 bytes that is not in the directory can be linked,
-- but it is not found afterwards: `set_name` has cut it, and `is_name_equal` compares the whole name. So
-- it can be linked again.
pub link_long_lem :
    (name : List ℕ) (inum : ℕ) (ds : List Directory)
    → NoZero name
    → inum ≢ 0
    → dirsize < length name
    → lookup name ds ≡ none
    → (ds' : List Directory) × (link_entry works name inum ds ≡ some (ok ds'))
      × (lookup name ds' ≡ none)
      × (link_entry works name inum ds' ≡ some (ok (put_entry name inum ds')))
unfolding lookup
link_long_lem name inum ds plain real long absent =
    let cut : name ≢ take dirsize name = λ e. take_long dirsize name long (sym e) in
    let still : lookup_from name 0 (put_entry name inum ds) ≡ none =
      lookup_from-other name inum plain real 0 ds name cut ∙ absent in
    (
      put_entry name inum ds,
      link_entry-works name inum ds absent,
      still,
      link_entry-works name inum (put_entry name inum ds) still,
    )
