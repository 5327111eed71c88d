-- ===== src/Shell/Tests.antt =====
-- The line `ls |wc>>a`, with the space as the only white space.
use octopos.Base.{ℕ, ◌≡◌, refl, Bool, List, [], ◌∷◌, arith, ◌==◌, All}
use octopos.Shell.{skip, word, greater_token, token_at, next_token, tokens}
use octopos.Shell.Tokens.{black, joined, IsToken, Cuts, tokens_lem}

abbrev is_space : ℕ → Bool
is_space c = c == 32

abbrev line : List ℕ
line = 108 ∷ 115 ∷ 32 ∷ 124 ∷ 119 ∷ 99 ∷ 62 ∷ 62 ∷ 97 ∷ []

line_cut :
    tokens is_space 9 line
    ≡ (108 ∷ 115 ∷ []) ∷ (124 ∷ []) ∷ (119 ∷ 99 ∷ []) ∷ (62 ∷ 62 ∷ []) ∷ (97 ∷ []) ∷ []
unfolding tokens next_token token_at skip word greater_token
line_cut = refl

tokens_lem_example :
    Cuts is_space line (tokens is_space 9 line)
    × (joined (tokens is_space 9 line) ≡ black is_space line)
    × All (IsToken is_space) (tokens is_space 9 line)
tokens_lem_example = tokens_lem is_space refl 9 line (omega arith)
