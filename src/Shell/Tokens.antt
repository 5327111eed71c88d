-- ===== src/Shell/Tokens.antt =====
-- The tokens of a line: where each begins and ends.
use octopos.Base.{
  ℕ, zero, suc, ◌≤◌, ◌<◌, ◌≡◌, ◌≢◌, refl, sym, ap, subst, ◌∙◌, inl, inr, Bool, true, false, ◌||◌,
  Option, none, some, List, [], ◌∷◌, ◌++◌, arith, if◌then◌else◌, Bool-cases, ℕ_discrete, length,
  All,
}
use octopos.Shell.{
  is_single, greater, is_special, skip, word, greater_token, token_at, next_token, tokens,
}

-- The characters that are no white space
abbrev pub black : (ℕ → Bool) → List ℕ → List ℕ
black ws [] = []
black ws (c ∷ cs) = if ws c then black ws cs else c ∷ black ws cs

abbrev pub joined : List (List ℕ) → List ℕ
joined [] = []
joined (t ∷ ts) = t ++ joined ts

-- A word has neither white space nor operators in it.
abbrev pub Plain : (ℕ → Bool) → ℕ → Type 0
Plain ws c = (ws c ≡ false) × (is_special c ≡ false)

pub data IsToken (ws : ℕ → Bool) : List ℕ → Type 0 where
  single : (c : ℕ) → is_single c ≡ true → IsToken ws (c ∷ [])
  one_greater : IsToken ws (greater ∷ [])
  two_greater : IsToken ws (greater ∷ greater ∷ [])
  a_word : (c : ℕ) (cs : List ℕ) → Plain ws c → All (Plain ws) cs → IsToken ws (c ∷ cs)

-- A word ends at the end of the line, or before white space or an operator.
abbrev pub Breaks : (ℕ → Bool) → List ℕ → Type 0
Breaks ws [] = Unit
Breaks ws (c ∷ cs) = (ws c || is_special c) ≡ true

-- A lone `>` is not followed by another.
abbrev pub NoGreater : List ℕ → Type 0
NoGreater [] = Unit
NoGreater (c ∷ cs) = c ≢ greater

-- The line cut into tokens: white space is left out, an operator is one character, two `>` in a row are
-- one operator, and a word is as long as it can be.
pub data Cuts (ws : ℕ → Bool) : List ℕ → List (List ℕ) → Type 0 where
  at_end : Cuts ws [] []
  blank :
      (c : ℕ) (cs : List ℕ) (ts : List (List ℕ)) → ws c ≡ true → Cuts ws cs ts → Cuts ws (c ∷ cs) ts
  operator :
      (c : ℕ) (cs : List ℕ) (ts : List (List ℕ))
      → ws c ≡ false
      → is_single c ≡ true
      → Cuts ws cs ts
      → Cuts ws (c ∷ cs) ((c ∷ []) ∷ ts)
  greater_two :
      (cs : List ℕ) (ts : List (List ℕ))
      → Cuts ws cs ts
      → Cuts ws (greater ∷ greater ∷ cs) ((greater ∷ greater ∷ []) ∷ ts)
  greater_one :
      (cs : List ℕ) (ts : List (List ℕ))
      → NoGreater cs
      → Cuts ws cs ts
      → Cuts ws (greater ∷ cs) ((greater ∷ []) ∷ ts)
  long_word :
      (c : ℕ) (cs rest : List ℕ) (ts : List (List ℕ))
      → Plain ws c
      → All (Plain ws) cs
      → Breaks ws rest
      → Cuts ws rest ts
      → Cuts ws (c ∷ (cs ++ rest)) ((c ∷ cs) ∷ ts)

-- What a token and the rest of the line come to.
record Cut (ws : ℕ → Bool) (s : List ℕ) (t rest : List ℕ) : Type 0 where
  token : IsToken ws t
  same : t ++ black ws rest ≡ black ws s
  shorter : length rest < length s
  cuts : (ts : List (List ℕ)) → Cuts ws rest ts → Cuts ws s (t ∷ ts)

skip-black :
    (ws : ℕ → Bool) (s : List ℕ)
    → (black ws (skip ws s) ≡ black ws s) × (length (skip ws s) ≤ length s)
unfolding skip
skip-black ws [] = (refl, omega arith)
skip-black ws (c ∷ cs) = elim (Bool-cases (ws c)) [
  | inl e ↦ let (same, le) = skip-black ws cs in (ground (arith, e, same), ground (arith, e, le))
  | inr e ↦ (ground (arith, e), ground (arith, e))
]

-- What is left begins with no white space.
skip-Head : (ws : ℕ → Bool) (s : List ℕ) (c : ℕ) (cs : List ℕ) → skip ws s ≡ c ∷ cs → ws c ≡ false
unfolding skip
skip-Head ws [] c cs e = cc
skip-Head ws (x ∷ xs) c cs e = elim (Bool-cases (ws x)) [
  | inl w ↦ let is : skip ws xs ≡ c ∷ cs = ground (arith, w, e) in skip-Head ws xs c cs is
  | inr w ↦
      let is : x ∷ xs ≡ c ∷ cs = ground (arith, w, e) in
      let same : x ≡ c = cc in ap ws (sym same) ∙ w
]

abbrev WordOf : (ℕ → Bool) → List ℕ → List ℕ × List ℕ → Type 0
WordOf ws s r =
    All (Plain ws) r.0
    × (r.0 ++ black ws r.1 ≡ black ws s)
    × (length r.1 ≤ length s)
    × (s ≡ r.0 ++ r.1)
    × Breaks ws r.1

-- The line is cut as what is left after its white space.
skip-Cuts :
    (ws : ℕ → Bool) (s : List ℕ) (ts : List (List ℕ)) → Cuts ws (skip ws s) ts → Cuts ws s ts
unfolding skip
skip-Cuts ws [] ts h = h
skip-Cuts ws (c ∷ cs) ts h = elim (Bool-cases (ws c)) [
  | inl e ↦
      let is : skip ws (c ∷ cs) ≡ skip ws cs = ground (arith, e) in
      blank c cs ts e (skip-Cuts ws cs ts (subst (λ r. Cuts ws r ts) is h))
  | inr e ↦ let is : skip ws (c ∷ cs) ≡ c ∷ cs = ground (arith, e) in subst (λ r. Cuts ws r ts) is h
]

word_lem : (ws : ℕ → Bool) (s : List ℕ) → WordOf ws s (word ws s)
unfolding word
word_lem ws [] = (tt, refl, omega arith, refl, tt)
word_lem ws (c ∷ cs) = elim (Bool-cases (ws c || is_special c)) [
  | inl stop ↦
      let is : word ws (c ∷ cs) ≡ ([], c ∷ cs) = ground (arith, stop) in
      subst (λ r. WordOf ws (c ∷ cs) r) (sym is) (tt, refl, omega arith, refl, stop)
  | inr goes_on ↦
      let black_c : ws c ≡ false = ground (arith, goes_on) in
      let plain : is_special c ≡ false = ground (arith, goes_on) in
      let (all, same, le, splits, breaks) = word_lem ws cs in
      let is : word ws (c ∷ cs) ≡ (c ∷ (word ws cs).0, (word ws cs).1) = ground (arith, goes_on) in
      subst (λ r. WordOf ws (c ∷ cs) r) (sym is)
        (
          ((black_c, plain), all),
          ap (λ l. c ∷ l) same ∙ ground (arith, black_c),
          omega (arith, le),
          ap (λ l. c ∷ l) splits,
          breaks,
        )
]

-- What `next_token` comes to.
data NextEnds (ws : ℕ → Bool) (s : List ℕ) : Option (List ℕ × List ℕ) → Type 0 where
  finished : black ws s ≡ [] → Cuts ws s [] → NextEnds ws s none
  cut : (t rest : List ℕ) → Cut ws s t rest → NextEnds ws s (some (t, rest))

module _ (ws : ℕ → Bool) (gt : ws greater ≡ false) where
  greater_lem : (cs : List ℕ) → NextEnds ws (greater ∷ cs) (some (greater_token cs))
  unfolding greater_token
  greater_lem [] = cut (greater ∷ []) [] (record {
    token = one_greater;
    same = ground (arith, gt);
    shorter = omega arith;
    cuts = λ ts h. greater_one [] ts tt h;
  })
  greater_lem (x ∷ xs) = elim (ℕ_discrete x greater) [
    | yes e ↦
        let is : greater_token (x ∷ xs) ≡ (greater ∷ greater ∷ [], xs) = ground (arith, e) in
        subst (λ r. NextEnds ws (greater ∷ x ∷ xs) (some r)) (sym is)
          (cut (greater ∷ greater ∷ []) xs (record {
            token = two_greater;
            same = ground (arith, gt, e);
            shorter = omega arith;
            cuts = λ ts h.
                subst (λ y. Cuts ws (greater ∷ y ∷ xs) ((greater ∷ greater ∷ []) ∷ ts)) (sym e)
                  (greater_two xs ts h);
          }))
    | no ne ↦
        let is : greater_token (x ∷ xs) ≡ (greater ∷ [], x ∷ xs) = ground (arith, ne) in
        subst (λ r. NextEnds ws (greater ∷ x ∷ xs) (some r)) (sym is)
          (cut (greater ∷ []) (x ∷ xs) (record {
            token = one_greater;
            same = ground (arith, gt);
            shorter = omega arith;
            cuts = λ ts h. greater_one (x ∷ xs) ts ne h;
          }))
  ]

  token_at_lem :
      (s : List ℕ)
      → ((c : ℕ) (cs : List ℕ) → s ≡ c ∷ cs → ws c ≡ false)
      → NextEnds ws s (token_at ws s)
  unfolding token_at
  token_at_lem [] head = finished refl at_end
  token_at_lem (c ∷ cs) head =
      let black_c : ws c ≡ false = head c cs refl in
      elim (Bool-cases (is_single c)) [
        | inl one ↦
            let is : token_at ws (c ∷ cs) ≡ some (c ∷ [], cs) = ground (arith, one) in
            subst (λ r. NextEnds ws (c ∷ cs) r) (sym is)
              (cut (c ∷ []) cs (record {
                token = single c one;
                same = ground (arith, black_c);
                shorter = omega arith;
                cuts = λ ts h. operator c cs ts black_c one h;
              }))
        | inr other ↦ elim (ℕ_discrete c greater) [
          | yes e ↦
              let is : token_at ws (c ∷ cs) ≡ some (greater_token cs) = ground (arith, other, e) in
              subst (λ r. NextEnds ws (c ∷ cs) r) (sym is)
                (subst (λ x. NextEnds ws (x ∷ cs) (some (greater_token cs))) (sym e)
                  (greater_lem cs))
          | no ne ↦
              let (all, same, le, splits, breaks) = word_lem ws cs in
              let is : token_at ws (c ∷ cs) ≡ some (c ∷ (word ws cs).0, (word ws cs).1) =
                ground (arith, other, ne) in
              let plain : is_special c ≡ false = ground (arith, other, ne) in
              subst (λ r. NextEnds ws (c ∷ cs) r) (sym is)
                (cut (c ∷ (word ws cs).0) (word ws cs).1 (record {
                  token = a_word c (word ws cs).0 (black_c, plain) all;
                  same = ap (λ l. c ∷ l) same ∙ ground (arith, black_c);
                  shorter = omega (arith, le);
                  cuts = λ ts h.
                      subst (λ l. Cuts ws (c ∷ l) ((c ∷ (word ws cs).0) ∷ ts)) (sym splits)
                        (long_word c (word ws cs).0 (word ws cs).1 ts (black_c, plain) all breaks
                          h);
                }))
        ]
      ]

  next_token_lem : (s : List ℕ) → NextEnds ws s (next_token ws s)
  unfolding next_token
  next_token_lem s =
      let (same, le) = skip-black ws s in
      whole s (skip ws s) same le (skip-Cuts ws s) (token_at ws (skip ws s))
        (token_at_lem (skip ws s) (λ c cs e. skip-Head ws s c cs e))
    where
      whole :
          (s s' : List ℕ)
          → black ws s' ≡ black ws s
          → length s' ≤ length s
          → ((ts : List (List ℕ)) → Cuts ws s' ts → Cuts ws s ts)
          → (r : Option (List ℕ × List ℕ)) → NextEnds ws s' r
          → NextEnds ws s r
      whole s s' same le over _ (finished e h) = finished (sym same ∙ e) (over [] h)
      whole s s' same le over _ (cut t rest c) = cut t rest (record {
        token = c.token;
        same = c.same ∙ same;
        shorter = omega (arith, c.shorter);
        cuts = λ ts h. over (t ∷ ts) (c.cuts ts h);
      })

  -- As many tokens as there are characters are enough. They are the line cut so that white space is left
  -- out, each of `|();&<` is a token, `>>` is one, and a word goes on to the next of these or to the end
  -- of the line; put together they are the line without its white space.
  pub tokens_lem :
      (k : ℕ) (s : List ℕ)
      → length s ≤ k
      → Cuts ws s (tokens ws k s)
        × (joined (tokens ws k s) ≡ black ws s)
        × All (IsToken ws) (tokens ws k s)
  unfolding tokens
  tokens_lem zero [] le = (at_end, refl, tt)
  tokens_lem zero (c ∷ cs) le = absurd (omega arith)
  tokens_lem (suc k) s le =
      go (next_token ws s) refl (next_token_lem s) (λ rest lt. tokens_lem k rest (omega arith))
    where
      go :
          (r : Option (List ℕ × List ℕ))
          → next_token ws s ≡ r
          → NextEnds ws s r
          → ((rest : List ℕ)
              → length rest < length s
              → Cuts ws rest (tokens ws k rest)
                × (joined (tokens ws k rest) ≡ black ws rest)
                × All (IsToken ws) (tokens ws k rest))
          → Cuts ws s (tokens ws (suc k) s)
            × (joined (tokens ws (suc k) s) ≡ black ws s)
            × All (IsToken ws) (tokens ws (suc k) s)
      go _ e (finished none_left h) again =
          let is : tokens ws (suc k) s ≡ [] = ground (arith, e) in
          (
            subst (λ ts. Cuts ws s ts) (sym is) h,
            ap joined is ∙ sym none_left,
            subst (λ ts. All (IsToken ws) ts) (sym is) tt,
          )
      go _ e (cut t rest c) again =
          let is : tokens ws (suc k) s ≡ t ∷ tokens ws k rest = ground (arith, e) in
          let (h, same, all) = again rest c.shorter in
          (
            subst (λ ts. Cuts ws s ts) (sym is) (c.cuts (tokens ws k rest) h),
            ap joined is ∙ ap (λ l. t ++ l) same ∙ c.same,
            subst (λ ts. All (IsToken ws) ts) (sym is) (c.token, all),
          )
