-- ===== src/Proc/Share.antt =====
-- Stride scheduling: the passes stay close, and so the processes get their shares.
use octopos.Base.{
  ℕ, zero, suc, ◌+◌, ◌*◌, ◌%◌, ◌≤◌, ◌<◌, ◌≡◌, refl, ◌⊎◌, inl, inr, ◌≢◌, sym, none, some, List, [],
  ◌∷◌, ◌==◌, if◌then◌else◌, arith, get_elem?, ap, ◌∙◌, ℕ_discrete, Option-cases, subst,
}
use octopos.Proc.{ProcInner, runnable, usize_mod, min_pass}
use octopos.Proc.Fair.{round, rounds, Ran, round_lem}
use octopos.Proc.Tickets.{IsShare, stride_bounds}

-- The passes of any two runnable processes differ by at most `w`.
abbrev pub Spread : ℕ → List ProcInner → Type 0
Spread w ps =
    (a b : ℕ) (p q : ProcInner)
    → get_elem? ps a ≡ some p
    → p.state ≡ runnable
    → get_elem? ps b ≡ some q
    → q.state ≡ runnable
    → p.pass ≤ q.pass + w

-- Every stride is at most `w`.
abbrev pub Bounded : ℕ → List ProcInner → Type 0
Bounded w ps = (a : ℕ) (p : ProcInner) → get_elem? ps a ≡ some p → p.stride ≤ w

module _ (ps ps' : List ProcInner) (i : ℕ) (p : ProcInner) (ran : Ran ps i p ps') where
  -- An entry of the table after the round comes from the entry before it.
  back :
      (a : ℕ) (q : ProcInner)
      → get_elem? ps' a ≡ some q
      → ((a ≡ i)
          × (q.pass ≡ p.pass + p.stride)
          × (q.stride ≡ p.stride)
          × (q.n_schedule ≡ (p.n_schedule + 1) % usize_mod)
          × (q.state ≡ p.state))
        ⊎ ((a ≢ i) × (get_elem? ps a ≡ some q))
  back a q e = elim (ℕ_discrete a i) [
    | yes same ↦ inl (ground (arith, ran.now a))
    | no other ↦ inr (other, ground (arith, ran.now a))
  ]

  Ran-Bounded : (w : ℕ) → Bounded w ps → Bounded w ps'
  Ran-Bounded w h a q e = elim (back a q e) [
    | inl (_, _, es, _, _) ↦ rw es (h i p ran.at)
    | inr (_, old) ↦ h a q old
  ]

  Ran-Spread : (w : ℕ) → Bounded w ps → Spread w ps → Spread w ps'
  Ran-Spread w h s a b x y ex rx ey ry = elim (back a x ex) [
    | inl (_, ep, _, _, _) ↦ elim (back b y ey) [
      | inl (_, eq, _, _, _) ↦ omega arith
      | inr (_, old) ↦ omega (arith, ran.least b y old ry, h i p ran.at)
    ]
    | inr (_, oldx) ↦ elim (back b y ey) [
      | inl (_, eq, _, _, _) ↦ omega (arith, s a i x p oldx rx ran.at ran.is)
      | inr (_, oldy) ↦ s a b x y oldx rx oldy ry
    ]
  ]

-- How many of `k` rounds run process `a`, the one that `min_pass` picks in each.
unfoldable pub turns : ℕ → ℕ → List ProcInner → ℕ
turns a zero ps = 0
turns a (suc k) ps = elim (min_pass (runnable ∷ []) ps) [
  | none ↦ 0
  | some (i, _) ↦
      let later : ℕ = elim (round ps) [ none ↦ 0 | some ps' ↦ turns a k ps' ] in
      (if i == a then 1 else 0) + later
]

-- Process `a` has been charged `d` times: what it has become.
abbrev Charged : List ProcInner → ℕ → ProcInner → ℕ → Type 0
Charged ps a q d =
    (r : ProcInner) × (get_elem? ps a ≡ some r)
    × (r.state ≡ runnable)
    × (r.stride ≡ q.stride)
    × (r.pass ≡ q.pass + d * q.stride)
    × (r.n_schedule ≡ (q.n_schedule + d) % usize_mod)

Ran-Charged :
    (ps ps' : List ProcInner) (i : ℕ) (p : ProcInner)
    → Ran ps i p ps'
    → (a : ℕ) (q : ProcInner) → get_elem? ps a ≡ some q
    → q.state ≡ runnable
    → q.n_schedule < usize_mod
    → Charged ps' a q (if i == a then 1 else 0)
Ran-Charged ps ps' i p ran a q e is small = elim (ℕ_discrete i a) [
  | yes same ↦
      let one : (if i == a then 1 else 0) ≡ 1 = ground (arith, same) in
      subst (λ d. Charged ps' a q d) (sym one)
        (
          record p { pass = p.pass + p.stride; n_schedule = (p.n_schedule + 1) % usize_mod },
          ground (arith, ran.now a),
          ran.is,
          ground (arith, ran.at),
          ground (arith, ran.at),
          ground (arith, ran.at),
        )
  | no other ↦
      let zero_turns : (if i == a then 1 else 0) ≡ 0 = ground (arith, other) in
      subst (λ d. Charged ps' a q d) (sym zero_turns)
        (q, ground (arith, ran.now a), is, refl, omega arith, omega arith)
]

rounds-split :
    (k : ℕ) (ps ps' : List ProcInner)
    → rounds (suc k) ps ≡ some ps'
    → (mid : List ProcInner) × (round ps ≡ some mid) × (rounds k mid ≡ some ps')
unfolding rounds
rounds-split k ps ps' e = elim (Option-cases (round ps)) [
  | inl stop ↦ absurd (ground arith)
  | inr (mid, em) ↦ (mid, em, ground arith)
]

turns-split :
    (a k : ℕ) (ps mid : List ProcInner) (i m : ℕ)
    → min_pass (runnable ∷ []) ps ≡ some (i, m)
    → round ps ≡ some mid
    → turns a (suc k) ps ≡ (if i == a then 1 else 0) + turns a k mid
unfolding turns
turns-split a k ps mid i m em er = ground (arith, em, er)

rounds-Charged :
    (k : ℕ) (ps ps' : List ProcInner)
    → rounds k ps ≡ some ps'
    → (a : ℕ) (q : ProcInner) → get_elem? ps a ≡ some q
    → q.state ≡ runnable
    → q.n_schedule < usize_mod
    → (turns a k ps ≤ k) × Charged ps' a q (turns a k ps)
unfolding rounds turns
rounds-Charged zero ps ps' e a q eq is small =
    (omega arith, (q, ground arith, is, refl, omega arith, omega arith))
rounds-Charged (suc k) ps ps' e a q eq is small =
    let (mid, em, er) = rounds-split k ps ps' e in
    let (i, m, p, ei, ran) = round_lem ps mid em in
    let d = turns a k mid in
    let one : ℕ = if i == a then 1 else 0 in
    let le : one ≤ 1 = ground arith in
    let (r, ea, ra, es, ep, en) = Ran-Charged ps mid i p ran a q eq is small in
    let (hd, (x, ex, rx, sx, px, nx)) = rounds-Charged k mid ps' er a r ea ra (omega arith) in
    let t = turns-split a k ps mid i m ei em in
    subst (λ n. (n ≤ suc k) × Charged ps' a q n) (sym t)
      (
        omega arith,
        (
          x,
          ex,
          rx,
          sx ∙ es,
          spent x.pass r.pass q.pass r.stride q.stride d one es ep px,
          omega arith,
        ),
      )
  where
    spent : (x r y s t d one : ℕ) → s ≡ t → r ≡ y + one * t → x ≡ r + d * s → x ≡ y + (one + d) * t
    spent x r y s t d one e f g = omega (arith, ap (λ n. d * n) e, f, g)

rounds-Spread :
    (w k : ℕ) (ps ps' : List ProcInner)
    → rounds k ps ≡ some ps'
    → Bounded w ps
    → Spread w ps
    → Spread w ps'
unfolding rounds
rounds-Spread w zero ps ps' e h s = subst (Spread w) (ground arith) s
rounds-Spread w (suc k) ps ps' e h s =
    let (mid, em, er) = rounds-split k ps ps' e in
    let (i, _, p, _, ran) = round_lem ps mid em in
    rounds-Spread w k mid ps' er (Ran-Bounded ps mid i p ran w h) (Ran-Spread ps mid i p ran w h s)

-- Proportional shares. From a table of exact shares in which the passes of the runnable processes lie
-- within LARGE_NUMBER / 10 of one another, let the scheduler run `k` rounds with no normalisation. A
-- runnable process is charged its stride exactly in the rounds that run it, which `turns` counts, and
-- `n_schedule` counts them too; and for any two, what the one is charged in all exceeds what the other
-- is charged by at most twice LARGE_NUMBER / 10.
pub proportional_share :
    (k : ℕ) (ps ps' : List ProcInner) (a b : ℕ) (p q : ProcInner)
    → ((j : ℕ) (r : ProcInner) → get_elem? ps j ≡ some r → IsShare r)
    → Spread 360360 ps
    → rounds k ps ≡ some ps'
    → get_elem? ps a ≡ some p
    → p.state ≡ runnable
    → p.n_schedule < usize_mod
    → get_elem? ps b ≡ some q
    → q.state ≡ runnable
    → q.n_schedule < usize_mod
    → let d = turns a k ps in
      let e = turns b k ps in
      (p' q' : ProcInner) × (get_elem? ps' a ≡ some p')
      × (p'.pass ≡ p.pass + d * p.stride)
      × (p'.n_schedule ≡ (p.n_schedule + d) % usize_mod)
      × (get_elem? ps' b ≡ some q')
      × (q'.pass ≡ q.pass + e * q.stride)
      × (q'.n_schedule ≡ (q.n_schedule + e) % usize_mod)
      × (d ≤ k)
      × (e ≤ k)
      × (d * p.stride ≤ e * q.stride + 720720)
proportional_share k ps ps' a b p q shares s run ep rp np eq rq nq =
    let (ld, (p', ep', rp', _, pp, np')) = rounds-Charged k ps ps' run a p ep rp np in
    let (le, (q', eq', rq', _, pq, nq')) = rounds-Charged k ps ps' run b q eq rq nq in
    let bounded : Bounded 360360 ps = λ j r er. (stride_bounds r (shares j r er)).1 in
    let after = rounds-Spread 360360 k ps ps' run bounded s a b p' q' ep' rp' eq' rq' in
    (
      p',
      q',
      ep',
      pp,
      np',
      eq',
      pq,
      nq',
      ld,
      le,
      omega (arith, s b a q p eq rq ep rp, after, pp, pq),
    )
