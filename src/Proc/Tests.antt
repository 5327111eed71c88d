-- ===== src/Proc/Tests.antt =====
-- Runs of the scheduler and of the process table on small inputs, and the theorems applied there.
use octopos.Base.{
  ℕ, zero, suc, ◌+◌, ◌-◌, ◌*◌, ◌%◌, ◌^◌, ◌≤◌, ◌<◌, ◌≡◌, refl, subst, sym, ◌∙◌, ◌⊎◌, inl, inr, true,
  false, Option, none, some, List, [], ◌∷◌, map, arith, get_elem?, set, ok,
}
use octopos.Proc.{
  usize_mod, ticks, unused, sleeping, runnable, running, ProcInner, set_tickets, min_pass,
  min_pass_from, pick, runs, dispatch, switch_back, wakeup, kill, wakeup_from, wake_one,
  wakeup_baseline,
}
use octopos.Proc.Tickets.{IsShare}
use octopos.Proc.MinPass.{IsMin, Absent, min_pass_lem}
use octopos.Proc.Schedule.{schedulable, charge_exact, charge_wraps}
use octopos.Proc.Fair.{round, rounds, yields}
use octopos.Proc.Share.{turns, Spread, proportional_share}

abbrev slow : ProcInner
slow = record {
  state = runnable;
  channel = none;
  killed = false;
  xstate = 0;
  pid = 1;
  tickets = 10;
  pass = 7;
  stride = 360360;
  n_schedule = 0;
}

abbrev fast : ProcInner
fast = record slow { pid = 2; tickets = 150; pass = 3; stride = 24024 }

abbrev asleep : ProcInner
asleep = record slow { pid = 3; state = sleeping; channel = some ticks; pass = 1 }

abbrev idle : ProcInner
idle = record slow { pid = 0; state = unused }

abbrev table : List ProcInner
table = slow ∷ fast ∷ asleep ∷ idle ∷ []

-- A process whose next pass fits into a usize only with its present stride.
abbrev late : ProcInner
late = record fast { pass = 2 ^ 64 - 24025 }

least : min_pass (runnable ∷ []) table ≡ some (1, 3)
unfolding min_pass min_pass_from pick
least = refl

woken : map (λ (p : ProcInner). p.pass) (wakeup (some 0) ticks table) ≡ 7 ∷ 3 ∷ 3 ∷ 7 ∷ []
unfolding wakeup wakeup_from wake_one wakeup_baseline min_pass min_pass_from pick
woken = refl

killed : (kill 3 table).0 ≡ true
unfolding kill
killed = refl

fast-IsShare : IsShare fast
fast-IsShare = record { lower = omega arith; upper = omega arith; exact = refl }

min_pass_lem_example :
    ((min_pass (runnable ∷ []) table ≡ none) × Absent (runnable ∷ []) table)
    ⊎ ((i m : ℕ) × (min_pass (runnable ∷ []) table ≡ some (i, m)) × IsMin (runnable ∷ []) table i m)
min_pass_lem_example = min_pass_lem (runnable ∷ []) table

charge_wraps_example :
    (dispatch (late ∷ []) 0 ≡ runs (set (late ∷ []) 0 (record late { state = running })))
    × (q : ProcInner) × (set_tickets (record late { state = running }) 10 ≡ ok q)
    × ((switch_back q).pass < late.pass)
charge_wraps_example =
    charge_wraps (late ∷ []) 0 late refl refl
      (record { lower = omega arith; upper = omega arith; exact = refl }) refl (omega arith)
      (omega arith)

runs_slow : dispatch table 0 ≡ runs (set table 0 (record slow { state = running }))
unfolding dispatch
runs_slow = refl

charge_exact_example :
    (switch_back (record slow { state = runnable })).pass ≡ slow.pass + slow.stride
charge_exact_example =
    charge_exact table (set table 0 (record slow { state = running })) 0 slow
      (record slow { state = runnable }) refl runs_slow refl refl

abbrev two : List ProcInner
two = slow ∷ fast ∷ []

two-IsShare : (j : ℕ) (r : ProcInner) → get_elem? two j ≡ some r → IsShare r
two-IsShare zero r e =
    let same : slow ≡ r = cc in
    subst (λ q. IsShare q) same (record { lower = omega arith; upper = omega arith; exact = refl })
two-IsShare (suc zero) r e = let same : fast ≡ r = cc in subst (λ q. IsShare q) same fast-IsShare
two-IsShare (suc (suc j)) r e = absurd (cc)

two_passes : (j : ℕ) (r : ProcInner) → get_elem? two j ≡ some r → r.pass ≤ 7
two_passes zero r e = ground arith
two_passes (suc zero) r e = ground arith
two_passes (suc (suc j)) r e = absurd (cc)

two-Spread : Spread 360360 two
two-Spread a b p q ep rp eq rq = omega (arith, two_passes a p ep)

abbrev two_later : List ProcInner
two_later =
    record slow { pass = 360367; n_schedule = 1 }
    ∷ record fast { pass = 24027; n_schedule = 1 }
    ∷ []

two-rounds : rounds 2 two ≡ some two_later
unfolding rounds round yields min_pass min_pass_from pick dispatch switch_back
two-rounds = refl

proportional_share_example :
    let d = turns 0 2 two in
    let e = turns 1 2 two in
    (p' q' : ProcInner) × (get_elem? two_later 0 ≡ some p')
    × (p'.pass ≡ slow.pass + d * slow.stride)
    × (p'.n_schedule ≡ (slow.n_schedule + d) % usize_mod)
    × (get_elem? two_later 1 ≡ some q')
    × (q'.pass ≡ fast.pass + e * fast.stride)
    × (q'.n_schedule ≡ (fast.n_schedule + e) % usize_mod)
    × (d ≤ 2)
    × (e ≤ 2)
    × (d * slow.stride ≤ e * fast.stride + 720720)
proportional_share_example =
    proportional_share 2 two two_later 0 1 slow fast two-IsShare two-Spread two-rounds refl refl
      (omega arith) refl refl (omega arith)

least_two : min_pass schedulable two ≡ some (1, 3)
unfolding min_pass min_pass_from pick
least_two = refl

abbrev Minimal : Option (ℕ × ℕ) → Type 0
Minimal none = Unit
Minimal (some (i, m)) = IsMin schedulable two i m

least-IsMin : IsMin schedulable two 1 3
least-IsMin = elim (min_pass_lem schedulable two) [
  | inl (e, _) ↦ absurd (ground (arith, sym least_two ∙ e))
  | inr (i, m, e, h) ↦ subst Minimal (sym e ∙ least_two) h
]
