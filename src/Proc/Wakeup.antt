-- ===== src/Proc/Wakeup.antt =====
-- `wakeup`: which processes it makes runnable, and with which pass.
use octopos.Base.{
  ℕ, zero, suc, ◌+◌, ◌≤◌, ◌≡◌, refl, ◌⊎◌, inl, inr, true, false, Option, none, some, List, [], ◌∷◌,
  arith, get_elem?, Bool-cases, Option-cases, max, ◌↔◌, ap, ◌∙◌,
}
use octopos.Proc.{
  ProcInner, ProcState, sleeping, runnable, state_eq, Channel, channel_eq, is_current, raise,
  wakeup_baseline, wake_one, wakeup_from, wakeup,
}
use native.Mathlib.Nat.{add-zero}
use octopos.Proc.MinPass.{IsMin, min_pass_lem}

channel_eq_iff : (a b : Channel) → (channel_eq a b ≡ true) ↔ (a ≡ b)
channel_eq_iff a b = ground arith

pub state_eq_iff : (a b : ProcState) → (state_eq a b ≡ true) ↔ (a ≡ b)
state_eq_iff a b = ground arith

wakeup_from_lem :
    (current baseline : Option ℕ) (c : Channel) (k : ℕ) (ps : List ProcInner) (j : ℕ)
    {p : ProcInner}
    → get_elem? ps j ≡ some p
    → get_elem? (wakeup_from current baseline c k ps) j
      ≡ some (wake_one current baseline c (k + j) p)
unfolding wakeup_from
wakeup_from_lem current baseline c k [] j e = absurd (cc)
wakeup_from_lem current baseline c k (x ∷ ps) zero e = ground (arith, add-zero k)
wakeup_from_lem current baseline c k (x ∷ ps) (suc j) {p} e =
    let shift : k + 1 + j ≡ k + suc j = omega arith in
    wakeup_from_lem current baseline c (k + 1) ps j e
    ∙ ap (λ i. some (wake_one current baseline c i p)) shift

-- Process `j`, not the caller, sleeps on the channel.
abbrev pub Waits : Option ℕ → Channel → ℕ → ProcInner → Type 0
Waits current c j p = (is_current current j ≡ false) × (p.state ≡ sleeping) × (p.channel ≡ some c)

wake_one-cases :
    (current baseline : Option ℕ) (c : Channel) (j : ℕ) (p : ProcInner)
    → (Waits current c j p
        × (wake_one current baseline c j p
            ≡ record p { pass = raise baseline p.pass; state = runnable }))
      ⊎ ((¬ Waits current c j p) × (wake_one current baseline c j p ≡ p))
unfolding wake_one
wake_one-cases current baseline c j p = elim (Bool-cases (is_current current j)) [
  | inl me ↦ inr (λ w. ground (arith, w.0), ground arith)
  | inr other ↦ elim (Bool-cases (state_eq p.state sleeping)) [
    | inr awake ↦ inr (λ w. ground (arith, w.1, state_eq_iff p.state sleeping), ground arith)
    | inl asleep ↦ elim (Option-cases p.channel) [
      | inl e ↦ inr (λ w. ground (arith, w.2), ground arith)
      | inr (d, e) ↦ elim (Bool-cases (channel_eq d c)) [
        | inl same ↦ inl (
          (
            other,
            (state_eq_iff p.state sleeping).0 asleep,
            e ∙ ap some ((channel_eq_iff d c).0 same),
          ),
          ground arith,
        )
        | inr not_same ↦ inr (λ w. ground (arith, w.2, channel_eq_iff d c), ground arith)
      ]
    ]
  ]
]

IsMin-unique :
    (states : List ProcState) (ps : List ProcInner) (i j m n : ℕ)
    → IsMin states ps i m
    → IsMin states ps j n
    → m ≡ n
IsMin-unique states ps i j m n h k =
    let (p, ep, cp, pm) = h.at in
    let (q, eq, cq, qn) = k.at in omega (arith, h.least j q eq cq, k.least i p ep cp)

baseline_lem :
    (current : Option ℕ) (ps : List ProcInner) (i m : ℕ)
    → IsMin (runnable ∷ []) ps i m
    → wakeup_baseline current ps ≡ some m
unfolding wakeup_baseline
baseline_lem current ps i m h = elim (min_pass_lem (runnable ∷ []) ps) [
  | inl (_, absent) ↦ let (p, ep, cp, _) = h.at in absurd (ground (arith, absent i p ep))
  | inr (j, n, e, k) ↦ ground (arith, e, IsMin-unique (runnable ∷ []) ps i j m n h k)
]

-- `wakeup` makes runnable exactly the processes, other than the caller, that sleep on the channel, and
-- changes nothing else: one that it wakes keeps its pass, or gets the least pass of the processes that
-- were runnable, if that is greater. So a process cannot save up passes by sleeping.
pub wakeup_lem :
    (current : Option ℕ) (c : Channel) (ps : List ProcInner) (j : ℕ) (p : ProcInner)
    → get_elem? ps j ≡ some p
    → (Waits current c j p
        × (q : ProcInner) × (get_elem? (wakeup current c ps) j ≡ some q)
        × (q.state ≡ runnable)
        × (p.pass ≤ q.pass)
        × ((i m : ℕ) → IsMin (runnable ∷ []) ps i m → q.pass ≡ max p.pass m)
        × (record q { state = p.state; pass = p.pass } ≡ p))
      ⊎ ((¬ Waits current c j p) × (get_elem? (wakeup current c ps) j ≡ some p))
unfolding wakeup
wakeup_lem current c ps j p e =
    let baseline = wakeup_baseline current ps in
    let step = wakeup_from_lem current baseline c 0 ps j e in
    let zero_add : 0 + j ≡ j = omega arith in
    elim (wake_one-cases current baseline c j p) [
      | inr (not_waits, same) ↦ inr (
        not_waits,
        step ∙ ap (λ i. some (wake_one current baseline c i p)) zero_add ∙ ap some same,
      )
      | inl (waits, woken) ↦ inl (
        waits,
        record p { pass = raise baseline p.pass; state = runnable },
        step ∙ ap (λ i. some (wake_one current baseline c i p)) zero_add ∙ ap some woken,
        refl,
        raise-le baseline p.pass,
        (λ i m h. ap (λ b. raise b p.pass) (baseline_lem current ps i m h)),
        refl,
      )
    ]
  where
    raise-le : (b : Option ℕ) (n : ℕ) → n ≤ raise b n
    raise-le none n = omega arith
    raise-le (some b) n = omega arith

wakeup_from-absent :
    (current baseline : Option ℕ) (c : Channel) (k : ℕ) (ps : List ProcInner) (j : ℕ)
    → get_elem? ps j ≡ none
    → get_elem? (wakeup_from current baseline c k ps) j ≡ none
unfolding wakeup_from
wakeup_from-absent current baseline c k [] j e = refl
wakeup_from-absent current baseline c k (x ∷ ps) zero e = absurd (ground (arith, e))
wakeup_from-absent current baseline c k (x ∷ ps) (suc j) e =
    wakeup_from-absent current baseline c (k + 1) ps j e

-- `wakeup` adds no process.
pub wakeup-absent :
    (current : Option ℕ) (c : Channel) (ps : List ProcInner) (j : ℕ)
    → get_elem? ps j ≡ none
    → get_elem? (wakeup current c ps) j ≡ none
unfolding wakeup
wakeup-absent current c ps j e = wakeup_from-absent current (wakeup_baseline current ps) c 0 ps j e
