-- ===== src/Fs/Paths.antt =====
-- `Path::next_component`: how a path is cut, and that a walk along it ends.
use octopos.Base.{
  ℕ, ◌<◌, ◌≡◌, ◌≢◌, refl, ap, sym, subst, ◌∙◌, ◌⊎◌, inl, inr, none, some, List, [], ◌∷◌, ◌++◌,
  arith, length, All, ◌==◌, Bool-cases, ==_iff, length-append, append-nil,
}
use octopos.Fs.{slash, trim_start, break_slash, next_component}

abbrev pub Slashes : List ℕ → Type 0
Slashes = All (λ (c : ℕ). c ≡ slash)

abbrev pub NoSlash : List ℕ → Type 0
NoSlash = All (λ (c : ℕ). c ≢ slash)

-- The list is empty or begins with a byte that is not a slash.
abbrev pub Trimmed : List ℕ → Type 0
Trimmed [] = Unit
Trimmed (c ∷ cs) = c ≢ slash

trim_start_lem :
    (p : List ℕ) → (pre : List ℕ) × Slashes pre × (p ≡ pre ++ trim_start p) × Trimmed (trim_start p)
unfolding trim_start
trim_start_lem [] = ([], tt, refl, tt)
trim_start_lem (c ∷ cs) = elim (Bool-cases (c == slash)) [
  | inl is ↦
      let (pre, all, e, t) = trim_start_lem cs in
      (c ∷ pre, ((==_iff c slash).0 is, all), rw is (ap (λ t. c ∷ t) e), rw is t)
  | inr isnt ↦ ([], tt, ground (arith, isnt), rw isnt (ground (arith, isnt)))
]

-- The second part is empty or begins with a slash.
abbrev AtSlash : List ℕ → Type 0
AtSlash [] = Unit
AtSlash (c ∷ cs) = c ≡ slash

break_slash_lem :
    (p : List ℕ)
    → NoSlash (break_slash p).0
      × (p ≡ (break_slash p).0 ++ (break_slash p).1)
      × AtSlash (break_slash p).1
unfolding break_slash
break_slash_lem [] = (tt, refl, tt)
break_slash_lem (c ∷ cs) =
    let (plain, e, at) = break_slash_lem cs in
    elim (Bool-cases (c == slash)) [
      | inl is ↦ rw is (tt, refl, (==_iff c slash).0 is)
      | inr isnt ↦ rw isnt ((λ eq. ground (arith, isnt, eq), plain), ap (λ t. c ∷ t) e, at)
    ]

-- The path is slashes, the component `c`, slashes, and the rest.
pub record Cut (p c rest : List ℕ) : Type 0 where
  pub named : c ≢ []
  pub plain : NoSlash c
  pub trimmed : Trimmed rest
  pub before : List ℕ
  pub between : List ℕ
  pub slashes : Slashes before × Slashes between
  pub whole : p ≡ before ++ (c ++ (between ++ rest))
  pub apart : (rest ≡ []) ⊎ (0 < length between)

break_slash-named : (c : ℕ) (cs : List ℕ) → c ≢ slash → 0 < length (break_slash (c ∷ cs)).0
unfolding break_slash
break_slash-named c cs ne = elim (Bool-cases (c == slash)) [
  | inl is ↦ absurd (ne ((==_iff c slash).0 is))
  | inr isnt ↦ rw isnt (omega arith)
]

nonempty : (xs : List ℕ) → 0 < length xs → xs ≢ []
nonempty [] h e = omega arith
nonempty (x ∷ xs) h e = cc

separated :
    (after between rest : List ℕ)
    → AtSlash after
    → Trimmed rest
    → after ≡ between ++ rest
    → (rest ≡ []) ⊎ (0 < length between)
separated after (b ∷ bs) rest at t e = inr (omega arith)
separated after [] [] at t e = inl refl
separated after [] (x ∷ xs) at t e = absurd (t (subst AtSlash e at))

module _ (p : List ℕ) where
  Next : Type 0
  Next =
      ((next_component p ≡ none) × Slashes p)
      ⊎ ((c rest : List ℕ) × (next_component p ≡ some (c, rest))
          × Cut p c rest
          × (length rest < length p))

  next_of : (t : List ℕ) → trim_start p ≡ t → Next
  unfolding Next next_component
  next_of [] e =
      let (pre, all, w, _) = trim_start_lem p in
      inl (
        ground (arith, e),
        subst (λ q. Slashes q) (sym (w ∙ (ap (λ x. pre ++ x) e ∙ append-nil pre))) all,
      )
  next_of (c ∷ cs) e =
      let (pre, all, w, t) = trim_start_lem p in
      let (plain, w', at) = break_slash_lem (c ∷ cs) in
      let (mid, all', w'', t') = trim_start_lem (break_slash (c ∷ cs)).1 in
      let comp = (break_slash (c ∷ cs)).0 in
      let rest = trim_start (break_slash (c ∷ cs)).1 in
      let joined : p ≡ pre ++ (comp ++ (mid ++ rest)) =
        w ∙ ap (λ x. pre ++ x) (e ∙ (w' ∙ ap (λ x. comp ++ x) w'')) in
      let long : 0 < length comp = break_slash-named c cs (subst Trimmed e t) in
      inr (
        comp,
        rest,
        ground (arith, e),
        record {
          named = nonempty comp long;
          plain = plain;
          trimmed = t';
          before = pre;
          between = mid;
          slashes = (all, all');
          whole = joined;
          apart = separated (break_slash (c ∷ cs)).1 mid rest at t' w'';
        },
        omega (
          arith,
          long,
          ap (λ x. length x) joined,
          length-append pre (comp ++ (mid ++ rest)),
          length-append comp (mid ++ rest),
          length-append mid rest,
        ),
      )

-- `next_component` returns none exactly for a path of slashes alone. Any other path it cuts: after
-- leading slashes comes the component, which is not empty and has no slash, then slashes, at least one
-- unless the rest is empty, then the rest, which does not begin with one. The rest is shorter than the
-- path.
pub next_component_lem :
    (p : List ℕ)
    → ((next_component p ≡ none) × Slashes p)
      ⊎ ((c rest : List ℕ) × (next_component p ≡ some (c, rest))
          × Cut p c rest
          × (length rest < length p))
unfolding Next
next_component_lem p = next_of p (trim_start p) refl
