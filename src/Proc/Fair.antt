-- ===== src/Proc/Fair.antt =====
-- Stride scheduling on one CPU, while processes give it up by `yield`: the passes stay close, and so
-- the processes get their shares.
use octopos.Base.{
  ℕ, zero, suc, ◌+◌, ◌%◌, ◌≤◌, ◌<◌, ◌≡◌, inl, inr, true, Option, none, some, List, [], ◌∷◌, arith,
  get_elem?, set, ◌==◌, if◌then◌else◌, get_elem?-set,
}
use octopos.Proc.{
  ProcInner, ProcState, runnable, running, contains, min_pass, dispatch, retry, runs, normalized,
  switch_back, yield_inner, usize_mod,
}
use octopos.Proc.MinPass.{min_pass_lem}
use octopos.Proc.Schedule.{dispatch_lem}

-- Process `i` gives up the CPU by `yield`, and the scheduler charges it.
unfoldable pub yields : ℕ → List ProcInner → Option (List ProcInner)
yields i ps = elim (get_elem? ps i) [
  | none ↦ none
  | some p ↦ some (set ps i (switch_back (yield_inner p)))
]

-- A round of the loop of `stride_scheduler`, with the run of the process in the middle. `none` is a
-- round that runs none.
unfoldable pub round : List ProcInner → Option (List ProcInner)
round ps = elim (min_pass (runnable ∷ []) ps) [
  | none ↦ none
  | some (i, _) ↦ elim (dispatch ps i) [
    | retry ↦ none
    | normalized ps' ↦ none
    | runs ps' ↦ yields i ps'
  ]
]

unfoldable pub rounds : ℕ → List ProcInner → Option (List ProcInner)
rounds zero ps = some ps
rounds (suc k) ps = elim (round ps) [ none ↦ none | some ps' ↦ rounds k ps' ]

-- What a round has done: the runnable process with the least pass is charged its stride.
pub record Ran (ps : List ProcInner) (i : ℕ) (p : ProcInner) (ps' : List ProcInner) : Type 0 where
  pub at : get_elem? ps i ≡ some p
  pub is : p.state ≡ runnable
  pub least :
      (j : ℕ) (q : ProcInner) → get_elem? ps j ≡ some q → q.state ≡ runnable → p.pass ≤ q.pass
  pub now :
      (j : ℕ)
      → get_elem? ps' j ≡ (
          if i == j
          then some
              (record p { pass = p.pass + p.stride; n_schedule = (p.n_schedule + 1) % usize_mod })
          else get_elem? ps j)

contains-runnable : (s : ProcState) → s ≡ runnable → contains (runnable ∷ []) s ≡ true
contains-runnable s e = ground arith

charged : ProcInner → ProcInner
charged p = switch_back (yield_inner (record p { state = running }))

charged_lem :
    (p : ProcInner)
    → p.state ≡ runnable
    → p.pass + p.stride < usize_mod
    → charged p ≡ record p { pass = p.pass + p.stride; n_schedule = (p.n_schedule + 1) % usize_mod }
unfolding charged switch_back
charged_lem p is fits = ground arith

pub round_lem :
    (ps ps' : List ProcInner)
    → round ps ≡ some ps'
    → (i m : ℕ) × (p : ProcInner) × (min_pass (runnable ∷ []) ps ≡ some (i, m)) × Ran ps i p ps'
unfolding round yields charged
round_lem ps ps' e = elim (min_pass_lem (runnable ∷ []) ps) [
  | inl (none_min, _) ↦ absurd (ground arith)
  | inr (i, m, em, h) ↦
      let (p, at, c, pm) = h.at in
      elim (dispatch_lem ps i p at) [
        | inl (_, r) ↦ absurd (ground arith)
        | inr (inr (_, _, _, _, _, _, r)) ↦ absurd (ground arith)
        | inr (inl (is, fits, r)) ↦
            let p' : ProcInner = record p { state = running } in
            let mid : get_elem? (set ps i p') i ≡ some p' =
              ground (arith, get_elem?-set ps i i p' at) in
            let after : ps' ≡ set (set ps i p') i (charged p) = ground (arith, em, r, mid) in
            (
              i,
              m,
              p,
              em,
              record {
                at = at;
                is = is;
                least = λ j q ej sj. ground (arith, h.least j q ej (contains-runnable q.state sj));
                now = λ j.
                    rw (after, charged_lem p is fits)
                      (ground (
                        arith,
                        get_elem?-set (set ps i p') i j (charged p) mid,
                        get_elem?-set ps i j p' at,
                        charged_lem p is fits,
                      ));
              },
            )
      ]
]
