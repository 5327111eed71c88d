-- ===== src/Files/Refs.antt =====
-- The life of an open file: allocated, shared, and released once.
use octopos.Base.{
  ℕ, suc, ◌+◌, ◌-◌, ◌%◌, ◌^◌, ◌<◌, ◌≡◌, refl, dec_lt, ap, ◌⊎◌, inl, inr, Bool, Option, none, some,
  List, [], ◌∷◌, ◌++◌, replicate, arith,
}
use octopos.Files.{
  File, FileType, closed, pipe, inode, device, dup_file, Release, kept, nothing, closes_pipe,
  puts_inode, release, close_file,
}

-- What becomes of the object of an open file whose last handle is closed: an end of the pipe is closed,
-- or the reference to the inode is given back.
pub data Frees : FileType → Bool → Release → Type 0 where
  frees_none : (w : Bool) → Frees closed w nothing
  frees_end : (p : ℕ) (w : Bool) → Frees (pipe p) w (closes_pipe p w)
  frees_inode : (i : ℕ) (w : Bool) → Frees (inode i) w (puts_inode i)
  frees_device : (i major : ℕ) (w : Bool) → Frees (device i major) w (puts_inode i)

release-Frees : (t : FileType) (w : Bool) → Frees t w (release t w)
unfolding release
release-Frees closed w = frees_none w
release-Frees (pipe p) w = frees_end p w
release-Frees (inode i) w = frees_inode i w
release-Frees (device i major) w = frees_device i major w

-- Any mix of `dup` and `close` on an entry, with what the closes released; `none` after a failed assertion
pub data Use : Type 0 where
  dups closes : Use

abbrev pub uses : List Use → File → Option (File × List Release)
uses [] f = some (f, [])
uses (dups ∷ us) f = elim (dup_file f) [ none ↦ none | some f' ↦ uses us f' ]
uses (closes ∷ us) f = elim (close_file f) [
  | none ↦ none
  | some (f', r) ↦ elim (uses us f') [ none ↦ none | some (g, rs) ↦ some (g, r ∷ rs) ]
]

-- There are `n` handles left after the uses of `n₀`, at least one before each use.
abbrev pub Handles : ℕ → List Use → ℕ → Type 0
Handles n₀ [] n = n₀ ≡ n
Handles n₀ (dups ∷ us) n = (0 < n₀) × (n₀ + 1 < 2 ^ 64) × Handles (n₀ + 1) us n
Handles n₀ (closes ∷ us) n = (0 < n₀) × Handles (n₀ - 1) us n

abbrev pub closings : List Use → ℕ
closings [] = 0
closings (dups ∷ us) = closings us
closings (closes ∷ us) = suc (closings us)

dup_file_lem :
    (f : File)
    → 0 < f.ref_count
    → f.ref_count + 1 < 2 ^ 64
    → dup_file f ≡ some (record f { ref_count = f.ref_count + 1 })
unfolding dup_file
dup_file_lem f pos fits =
    let same : (f.ref_count + 1) % 2 ^ 64 ≡ f.ref_count + 1 = omega arith in ground (arith, same)

close_shared :
    (f : File)
    → 1 < f.ref_count
    → close_file f ≡ some (record f { ref_count = f.ref_count - 1 }, kept)
unfolding close_file
close_shared f pos = ground arith

close_last :
    (f : File)
    → f.ref_count ≡ 1
    → close_file f ≡ some (record f { ref_count = 0; type = closed }, release f.type f.writeable)
unfolding close_file
close_last f one = ground (arith, one)

-- From an open file with at least one reference: however handles to it are copied and closed, as long
-- as each call has one and the count fits into a usize, the file stays open, with as many references as
-- handles, while one is left, and nothing is released; and the close of the last one, and no other,
-- releases what the file was: its end of the pipe, or the inode of a file or device.
pub uses_lem :
    (us : List Use) (n : ℕ) (f : File)
    → 0 < f.ref_count
    → Handles f.ref_count us n
    → ((0 < n) × (uses us f ≡ some (record f { ref_count = n }, replicate (closings us) kept)))
      ⊎ ((n ≡ 0)
          × (c : ℕ) × (r : Release) × (closings us ≡ suc c)
          × Frees f.type f.writeable r
          × (uses us f
              ≡ some (record f { ref_count = 0; type = closed }, replicate c kept ++ (r ∷ []))))
uses_lem [] n f pos h = inl (omega arith, ground (arith, h))
uses_lem (dups ∷ us) n f pos (_, fits, h) =
    let step = dup_file_lem f pos fits in
    elim (uses_lem us n (record f { ref_count = f.ref_count + 1 }) (omega arith) h) [
      | inl (left, e) ↦ inl (left, ground (arith, step, e))
      | inr (gone, c, r, ec, fr, e) ↦ inr (gone, c, r, ec, fr, ground (arith, step, e))
    ]
uses_lem (closes ∷ us) n f pos (_, h) = elim (dec_lt 1 f.ref_count) [
  | yes shared ↦
      let step = close_shared f shared in
      elim (uses_lem us n (record f { ref_count = f.ref_count - 1 }) (omega arith) h) [
        | inl (left, e) ↦ inl (left, ground (arith, step, e))
        | inr (gone, c, r, ec, fr, e) ↦ inr (gone, suc c, r, ap suc ec, fr, ground (arith, step, e))
      ]
  | no alone ↦ last us n f (omega arith) h
]
  where
    last :
        (us : List Use) (n : ℕ) (f : File)
        → f.ref_count ≡ 1
        → Handles (f.ref_count - 1) us n
        → ((0 < n)
            × (uses (closes ∷ us) f
                ≡ some (record f { ref_count = n }, replicate (suc (closings us)) kept)))
          ⊎ ((n ≡ 0)
              × (c : ℕ) × (r : Release) × (suc (closings us) ≡ suc c)
              × Frees f.type f.writeable r
              × (uses (closes ∷ us) f
                  ≡ some (record f { ref_count = 0; type = closed }, replicate c kept ++ (r ∷ []))))
    last [] n f one h = inr (
      omega (arith, h),
      0,
      release f.type f.writeable,
      refl,
      release-Frees f.type f.writeable,
      ground (arith, close_last f one),
    )
    last (dups ∷ us) n f one (p, _, _) = absurd (omega arith)
    last (closes ∷ us) n f one (p, _) = absurd (omega arith)
