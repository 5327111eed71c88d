-- ===== src/Shell.antt =====
-- user/bin/sh.rs: the tokens of the shell, `Tokenizer`. The input is the list of its characters that are
-- still to be read; `ws` is `char::is_whitespace`.
pub mod Tokens
mod Tests
use octopos.Base.{
  ℕ, zero, suc, Bool, true, false, ◌||◌, Option, none, some, List, [], ◌∷◌, ◌==◌, if◌then◌else◌,
}

-- The characters `|();&<`, and `>`
abbrev pub is_single : ℕ → Bool
is_single c = c == 124 || c == 40 || c == 41 || c == 59 || c == 38 || c == 60

abbrev pub greater : ℕ
greater = 62

abbrev pub is_special : ℕ → Bool
is_special c = is_single c || c == greater

-- The first loop of `next_token`
pub skip : (ℕ → Bool) → List ℕ → List ℕ
skip ws [] = []
skip ws (c ∷ cs) = let rest = skip ws cs in if ws c then rest else c ∷ cs

-- The loop over the rest of a word: what it reads, and what is left.
pub word : (ℕ → Bool) → List ℕ → List ℕ × List ℕ
word ws [] = ([], [])
word ws (c ∷ cs) =
    let rest = word ws cs in if ws c || is_special c then ([], c ∷ cs) else (c ∷ rest.0, rest.1)

-- A token that begins with `>`
pub greater_token : List ℕ → List ℕ × List ℕ
greater_token [] = (greater ∷ [], [])
greater_token (c ∷ cs) =
    if c == greater then (greater ∷ greater ∷ [], cs) else (greater ∷ [], c ∷ cs)

-- The token at a character that is no white space
pub token_at : (ℕ → Bool) → List ℕ → Option (List ℕ × List ℕ)
token_at ws [] = none
token_at ws (c ∷ cs) =
    if is_single c
    then some (c ∷ [], cs)
    else if c == greater
    then some (greater_token cs)
    else some (c ∷ (word ws cs).0, (word ws cs).1)

-- `Tokenizer::next_token`
pub next_token : (ℕ → Bool) → List ℕ → Option (List ℕ × List ℕ)
next_token ws s = token_at ws (skip ws s)

-- The first `k` items of the iterator
pub tokens : (ℕ → Bool) → ℕ → List ℕ → List (List ℕ)
tokens ws zero s = []
tokens ws (suc k) s = elim (next_token ws s) [ none ↦ [] | some (t, rest) ↦ t ∷ tokens ws k rest ]
