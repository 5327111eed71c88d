-- ===== src/Proc/MinPass.antt =====
-- `min_pass` against its description: the first of the processes with the least pass.
use octopos.Base.{
  ℕ, zero, suc, ◌+◌, ◌≤◌, ◌<◌, ◌≡◌, refl, ◌⊎◌, inl, inr, Bool, true, false, Option, none, some,
  List, [], ◌∷◌, arith, get_elem?, ltb, Bool-cases, subst,
}
use octopos.Proc.{ProcInner, ProcState, contains, pick, min_pass_from, min_pass}

-- Process `i` is in one of the states, has pass `m`, no process in one of them has less, and none
-- before it has as little.
pub record IsMin (states : List ProcState) (ps : List ProcInner) (i m : ℕ) : Type 0 where
  pub at :
      (p : ProcInner) × (get_elem? ps i ≡ some p) × (contains states p.state ≡ true) × (p.pass ≡ m)
  pub least :
      (j : ℕ) (p : ProcInner)
      → get_elem? ps j ≡ some p
      → contains states p.state ≡ true
      → m ≤ p.pass
  pub first :
      (j : ℕ) (p : ProcInner)
      → get_elem? ps j ≡ some p
      → contains states p.state ≡ true
      → j < i
      → m < p.pass

-- No process is in one of the states.
abbrev pub Absent : List ProcState → List ProcInner → Type 0
Absent states ps =
    (j : ℕ) (p : ProcInner) → get_elem? ps j ≡ some p → contains states p.state ≡ false

abbrev Picks : List ProcState → ℕ → List ProcInner → Option (ℕ × ℕ) → Type 0
Picks states k ps none = Absent states ps
Picks states k ps (some (i, m)) = (d : ℕ) × (i ≡ k + d) × IsMin states ps d m

module _ (states : List ProcState) (k : ℕ) (p : ProcInner) (ps : List ProcInner) where
  later :
      (d m : ℕ)
      → (contains states p.state ≡ true → m < p.pass)
      → IsMin states ps d m
      → IsMin states (p ∷ ps) (suc d) m
  later d m more h = record { at = h.at; least = least; first = first }
    where
      least :
          (j : ℕ) (q : ProcInner)
          → get_elem? (p ∷ ps) j ≡ some q
          → contains states q.state ≡ true
          → m ≤ q.pass
      least zero q e c = ground (arith, more)
      least (suc j) q e c = h.least j q e c

      first :
          (j : ℕ) (q : ProcInner)
          → get_elem? (p ∷ ps) j ≡ some q
          → contains states q.state ≡ true
          → j < suc d
          → m < q.pass
      first zero q e c lt = ground (arith, more)
      first (suc j) q e c lt = h.first j q e c (omega arith)

  skip :
      (r : Option (ℕ × ℕ))
      → contains states p.state ≡ false
      → Picks states (k + 1) ps r
      → Picks states k (p ∷ ps) r
  skip none no_p h = absent
    where
      absent : Absent states (p ∷ ps)
      absent zero q e = ground arith
      absent (suc j) q e = h j q e
  skip (some (i, m)) no_p (d, e, h) = (suc d, omega arith, later d m (λ c. absurd (ground arith)) h)

  take_first :
      contains states p.state ≡ true
      → ((j : ℕ) (q : ProcInner)
          → get_elem? ps j ≡ some q
          → contains states q.state ≡ true
          → p.pass ≤ q.pass)
      → Picks states k (p ∷ ps) (some (k, p.pass))
  take_first has h = (
    0,
    omega arith,
    record { at = (p, refl, has, refl); least = least; first = λ j q e c lt. absurd (omega arith) },
  )
    where
      least :
          (j : ℕ) (q : ProcInner)
          → get_elem? (p ∷ ps) j ≡ some q
          → contains states q.state ≡ true
          → p.pass ≤ q.pass
      least zero q e' c = ground arith
      least (suc j) q e' c = h j q e' c

  pick-Picks :
      (b : Bool) (r : Option (ℕ × ℕ))
      → contains states p.state ≡ b
      → Picks states (k + 1) ps r
      → Picks states k (p ∷ ps) (pick b k p.pass r)
  unfolding pick
  pick-Picks false r e h = skip r e h
  pick-Picks true none e h = take_first e (λ j q e' c. absurd (ground (arith, h j q e')))
  pick-Picks true (some (i, m)) e (d, ei, h) = elim (Bool-cases (ltb m p.pass)) [
    | inl less ↦ rw less (suc d, omega arith, later d m (λ c. ground arith) h)
    | inr more ↦ rw more (take_first e (λ j q e' c. ground (arith, h.least j q e' c)))
  ]

min_pass_from-Picks :
    (states : List ProcState) (k : ℕ) (ps : List ProcInner)
    → Picks states k ps (min_pass_from states k ps)
unfolding min_pass_from
min_pass_from-Picks states k [] = λ j p e. absurd (cc)
min_pass_from-Picks states k (p ∷ ps) =
    pick-Picks states k p ps (contains states p.state) (min_pass_from states (k + 1) ps) refl
      (min_pass_from-Picks states (k + 1) ps)

-- `min_pass` returns the first process with the least pass among those in one of the states, with
-- that pass; it returns none exactly when no process is in one of them.
pub min_pass_lem :
    (states : List ProcState) (ps : List ProcInner)
    → ((min_pass states ps ≡ none) × Absent states ps)
      ⊎ ((i m : ℕ) × (min_pass states ps ≡ some (i, m)) × IsMin states ps i m)
unfolding min_pass
min_pass_lem states ps = go (min_pass_from states 0 ps) refl (min_pass_from-Picks states 0 ps)
  where
    go :
        (r : Option (ℕ × ℕ))
        → min_pass_from states 0 ps ≡ r
        → Picks states 0 ps r
        → ((min_pass_from states 0 ps ≡ none) × Absent states ps)
          ⊎ ((i m : ℕ) × (min_pass_from states 0 ps ≡ some (i, m)) × IsMin states ps i m)
    go none e h = inl (e, h)
    go (some (i, m)) e (d, ed, h) = inr (i, m, e, subst (λ x. IsMin states ps x m) (omega arith) h)
