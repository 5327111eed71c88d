-- ===== src/Fs/Names.antt =====
-- Names in directory entries: what `set_name` stores, and what `is_name_equal` finds again.
use octopos.Base.{
  ℕ, zero, suc, ◌≤◌, ◌<◌, ◌≡◌, ◌≢◌, ◌↔◌, refl, ap, ap₂, sym, ◌∙◌, true, List, [], ◌∷◌, arith,
  length, take, All, ◌==◌, ==_iff, and_left, and_right,
}
use octopos.Fs.{Directory, dirsize, until_zero, bytes_equal, is_name_equal, padded, set_name}

-- A string that has no zero byte
abbrev pub NoZero : List ℕ → Type 0
NoZero name = All (λ (c : ℕ). c ≢ 0) name

bytes_equal_self : (a : List ℕ) → bytes_equal a a ≡ true
bytes_equal_self [] = refl
bytes_equal_self (c ∷ cs) = ground (arith, bytes_equal_self cs)

bytes_equal_same : (a b : List ℕ) → bytes_equal a b ≡ true → a ≡ b
bytes_equal_same [] [] e = refl
bytes_equal_same [] (d ∷ ds) e = absurd (cc)
bytes_equal_same (c ∷ cs) [] e = absurd (cc)
bytes_equal_same (c ∷ cs) (d ∷ ds) e =
    ap₂ ◌∷◌ ((==_iff c d).0 (and_left (c == d) (bytes_equal cs ds) e))
      (bytes_equal_same cs ds (and_right (c == d) (bytes_equal cs ds) e))

until_zero-padded : (n : ℕ) (name : List ℕ) → NoZero name → until_zero (padded n name) ≡ take n name
unfolding until_zero padded
until_zero-padded zero name h = refl
until_zero-padded (suc n) [] h = refl
until_zero-padded (suc n) (c ∷ cs) h = ground (arith, h.0, until_zero-padded n cs h.1)

-- The entry that `set_name` has filled in answers to exactly one string: the first 14 bytes of the name.
pub is_name_equal-set_name :
    (d : Directory) (name other : List ℕ)
    → NoZero name
    → (is_name_equal (set_name d name) other ≡ true) ↔ (other ≡ take dirsize name)
unfolding is_name_equal set_name
is_name_equal-set_name d name other h =
    let stored = until_zero-padded dirsize name h in
    (
      λ e. sym (bytes_equal_same (until_zero (padded dirsize name)) other e) ∙ stored,
      λ e. rw (stored, e) (bytes_equal_self (take dirsize name)),
    )

pub take_short : (n : ℕ) (xs : List ℕ) → length xs ≤ n → take n xs ≡ xs
take_short zero [] h = refl
take_short zero (x ∷ xs) h = absurd (omega arith)
take_short (suc n) [] h = refl
take_short (suc n) (x ∷ xs) h = ap (λ t. x ∷ t) (take_short n xs (omega arith))

pub take_long : (n : ℕ) (xs : List ℕ) → n < length xs → take n xs ≢ xs
take_long zero [] h e = omega arith
take_long zero (x ∷ xs) h e = cc
take_long (suc n) [] h e = omega arith
take_long (suc n) (x ∷ xs) h e = let tail : take n xs ≡ xs = cc in take_long n xs (omega arith) tail
