-- ===== src/Proc/Schedule.antt =====
-- A round of `stride_scheduler`: what it does with the chosen process, the normalisation of the
-- passes, and the charge after the process has run.
use octopos.Base.{
  ℕ, ◌+◌, ◌-◌, ◌≤◌, ◌<◌, ◌≡◌, refl, ◌⊎◌, inl, inr, ◌≢◌, true, false, some, List, [], ◌∷◌, arith,
  get_elem?, set, get_elem?-map, ok, dec_lt, ap, ◌*◌,
}
use octopos.Proc.{
  ProcInner, ProcState, unused, used, sleeping, zombie, runnable, running, contains, state_eq,
  normalize, retry, normalized, runs, dispatch, switch_back, usize_mod, set_tickets,
}
use octopos.Proc.MinPass.{IsMin, min_pass_lem}
use octopos.Proc.Tickets.{IsShare, set_tickets_lem}

abbrev pub schedulable : List ProcState
schedulable = running ∷ runnable ∷ []

pub runnable-cases :
    (s : ProcState) → (s ≡ runnable) ⊎ ((s ≢ runnable) × (state_eq s runnable ≡ false))
runnable-cases unused = inr (λ h. cc, refl)
runnable-cases used = inr (λ h. cc, refl)
runnable-cases sleeping = inr (λ h. cc, refl)
runnable-cases runnable = inl refl
runnable-cases running = inr (λ h. cc, refl)
runnable-cases zombie = inr (λ h. cc, refl)

-- With the chosen process `p` locked again: it is tried again if it is no longer runnable; if its
-- next pass would not fit into a usize, the least pass of the running and runnable processes, which
-- is at most its own, is subtracted everywhere; else it runs, and nothing else changes.
pub dispatch_lem :
    (ps : List ProcInner) (i : ℕ) (p : ProcInner)
    → get_elem? ps i ≡ some p
    → ((p.state ≢ runnable) × (dispatch ps i ≡ retry))
      ⊎ ((p.state ≡ runnable)
          × (p.pass + p.stride < usize_mod)
          × (dispatch ps i ≡ runs (set ps i (record p { state = running }))))
      ⊎ ((p.state ≡ runnable)
          × (usize_mod ≤ p.pass + p.stride)
          × (j m : ℕ) × IsMin schedulable ps j m
          × (m ≤ p.pass)
          × (dispatch ps i ≡ normalized (normalize m ps)))
unfolding dispatch
dispatch_lem ps i p e = elim (runnable-cases p.state) [
  | inr (ne, test) ↦ inl (ne, ground arith)
  | inl is ↦ elim (dec_lt (p.pass + p.stride) usize_mod) [
    | yes fits ↦ inr (inl (is, fits, ground arith))
    | no over ↦ elim (min_pass_lem schedulable ps) [
      | inl (_, absent) ↦ absurd (ground (arith, absent i p e))
      | inr (j, m, em, h) ↦
          inr (inr (is, omega arith, j, m, h, h.least i p e (ground arith), ground arith))
    ]
  ]
]

-- The baseline of a normalisation is the least pass of the running and runnable processes, so their
-- passes all fall by exactly that much and keep their order and their distances; one falls to 0.
pub normalize-exact :
    (ps : List ProcInner) (i m j : ℕ) (p : ProcInner)
    → IsMin schedulable ps i m
    → get_elem? ps j ≡ some p
    → contains schedulable p.state ≡ true
    → (q : ProcInner) × (get_elem? (normalize m ps) j ≡ some q)
      × (q.pass + m ≡ p.pass)
      × (q.state ≡ p.state)
      × (q.stride ≡ p.stride)
      × (q.n_schedule ≡ p.n_schedule)
      × (j ≡ i → q.pass ≡ 0)
normalize-exact ps i m j p h e c = (
  record p { pass = p.pass - m },
  get_elem?-map _ ps j e,
  omega (arith, h.least j p e c),
  refl,
  refl,
  refl,
  λ same. ground (arith, h.at),
)

-- A process that was switched to, and whose pass and stride are the same when it switches back, is
-- charged its stride with no wrap.
pub charge_exact :
    (ps ps' : List ProcInner) (i : ℕ) (p q : ProcInner)
    → get_elem? ps i ≡ some p
    → dispatch ps i ≡ runs ps'
    → q.pass ≡ p.pass
    → q.stride ≡ p.stride
    → (switch_back q).pass ≡ p.pass + p.stride
unfolding switch_back
charge_exact ps ps' i p q e d ep es = elim (dispatch_lem ps i p e) [
  | inl (_, r) ↦ absurd (cc)
  | inr (inl (_, fits, _)) ↦ omega arith
  | inr (inr (_, _, _, _, _, _, r)) ↦ absurd (cc)
]

-- The test for overflow is made before the process runs, and a process may lower its tickets while
-- it runs: a process with 150 tickets whose pass is within LARGE_NUMBER / 10 of the end of a usize is
-- switched to, and once it has called settickets(10) its charge wraps to a smaller pass.
pub charge_wraps :
    (ps : List ProcInner) (i : ℕ) (p : ProcInner)
    → get_elem? ps i ≡ some p
    → p.state ≡ runnable
    → IsShare p
    → p.tickets ≡ 150
    → usize_mod ≤ p.pass + 360360
    → p.pass + 24024 < usize_mod
    → (dispatch ps i ≡ runs (set ps i (record p { state = running })))
      × (q : ProcInner) × (set_tickets (record p { state = running }) 10 ≡ ok q)
      × ((switch_back q).pass < p.pass)
unfolding switch_back
charge_wraps ps i p e is s t hi lo =
    let stride : p.stride ≡ 24024 = omega (arith, s.exact, ap (λ k. k * p.stride) t) in
    elim (dispatch_lem ps i p e) [
      | inl (ne, _) ↦ absurd (ne is)
      | inr (inr (_, over, _, _, _, _, _)) ↦ absurd (omega arith)
      | inr (inl (_, _, d)) ↦ elim (set_tickets_lem (record p { state = running }) 10) [
        | inr (bad, _) ↦ absurd (omega arith)
        | inl (_, _, _, q, eq, sq, tq, pq, _) ↦
            let stride' : q.stride ≡ 360360 = omega (arith, sq.exact, ap (λ k. k * q.stride) tq) in
            (d, q, eq, omega arith)
      ]
    ]
