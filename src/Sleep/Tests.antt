-- ===== src/Sleep/Tests.antt =====
-- Two processes and a sleep lock: one takes it, the other goes to sleep, and the guard is dropped.
use octopos.Base.{ℕ, zero, suc, ◌≡◌, refl, true, false, none, some, [], ◌∷◌, arith, get_elem?}
use octopos.Proc.{ProcInner, running, sleeping, lock}
use octopos.Sleep.{new_lock, lock_round, drop_guard}
use octopos.Sleep.Steps.{
  World, Sleeps, locks, goes_to_sleep, drops, Reaches, here, after, Safe, Reaches-Safe,
}

abbrev first : ProcInner
first = record {
  state = running;
  channel = none;
  killed = false;
  xstate = 0;
  pid = 1;
  tickets = 10;
  pass = 7;
  stride = 360360;
  n_schedule = 0;
}

abbrev second : ProcInner
second = record first { pid = 2 }

abbrev start : World
start = record { inner = new_lock; procs = first ∷ second ∷ []; guards = [] }

abbrev taken : World
taken = record {
  inner = record { locked = true; pid = some 1 };
  procs = first ∷ second ∷ [];
  guards = 0 ∷ [];
}

abbrev contended : World
contended = record taken {
  procs = first ∷ record second { state = sleeping; channel = some (lock 64) } ∷ [];
}

abbrev dropped : World
dropped = record {
  inner = (drop_guard 64 (some 0) contended.inner contended.procs).0;
  procs = (drop_guard 64 (some 0) contended.inner contended.procs).1;
  guards = [];
}

takes : lock_round 64 0 first start.inner start.procs ≡ (true, taken.inner, taken.procs)
unfolding lock_round
takes = refl

sleeps : lock_round 64 1 second taken.inner taken.procs ≡ (false, contended.inner, contended.procs)
unfolding lock_round
sleeps = refl

dropped-Reaches : Reaches 64 start dropped
dropped-Reaches =
    after
      (after (after here (locks 0 first taken.inner taken.procs refl refl takes))
        (goes_to_sleep 1 second contended.inner contended.procs refl refl sleeps))
      (drops 0 first [] refl refl refl)

awake : (j : ℕ) (p : ProcInner) → get_elem? (first ∷ second ∷ []) j ≡ some p → ¬ Sleeps 64 p
awake zero p e (asleep, _) = ground (arith, e, asleep)
awake (suc zero) p e (asleep, _) = ground (arith, e, asleep)
awake (suc (suc j)) p e (asleep, _) = cc

Reaches-Safe_example : Safe 64 dropped
Reaches-Safe_example = Reaches-Safe 64 (first ∷ second ∷ []) dropped awake dropped-Reaches
