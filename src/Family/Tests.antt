-- ===== src/Family/Tests.antt =====
-- Runs of `fork`, `exit` and `wait` on a small family, and the theorems applied there.
use octopos.Base.{
  ℕ, zero, suc, ◌+◌, ◌<◌, ◌≡◌, ◌≢◌, refl, true, false, Option, none, some, List, [], ◌∷◌, arith,
  get_elem?, ok,
}
use octopos.Proc.{
  proc, unused, used, zombie, runnable, running, sleeping, ProcInner, free, wakeup, wakeup_from,
  wakeup_baseline, wake_one, min_pass, min_pass_from, pick, alloc_proc, alloc_from, alloc_inner,
}
use octopos.Proc.Pids.{Unique}
use octopos.Family.{reaped, exit, wait, fork, reparent, scan_kids}
use octopos.Family.Tree.{Alive, Lives, Family}
use octopos.Family.Exit.{Exited, exit_lem}
use octopos.Family.Wait.{Waited, wait_lem}
use octopos.Family.Fork.{Forked, fork_lem}
use octopos.Family.Steps.{World, Orderly, Step, waits, here, after}
use octopos.Family.Orderly.{Reaches-Orderly}

abbrev init_proc : ProcInner
init_proc = record {
  state = sleeping;
  channel = some (proc 0);
  killed = false;
  xstate = 0;
  pid = 1;
  tickets = 10;
  pass = 4;
  stride = 360360;
  n_schedule = 2;
}

abbrev shell : ProcInner
shell = record init_proc { state = running; channel = none; pid = 2; pass = 7 }

abbrev done_child : ProcInner
done_child = record init_proc { state = zombie; channel = none; pid = 3; xstate = 5 }

abbrev idle_proc : ProcInner
idle_proc = record init_proc { state = unused; channel = none; pid = 0 }

abbrev family_procs : List ProcInner
family_procs = init_proc ∷ shell ∷ done_child ∷ idle_proc ∷ []

abbrev family_parents : List (Option ℕ)
family_parents = none ∷ some 0 ∷ some 1 ∷ none ∷ []

abbrev world : World
world = record { parents = family_parents; table = record { procs = family_procs; next_pid = 4 } }

init_proc-Alive : Alive init_proc.state
init_proc-Alive = ((λ c. cc), (λ c. cc), (λ c. cc))

shell-Alive : Alive shell.state
shell-Alive = ((λ c. cc), (λ c. cc), (λ c. cc))

small-Family : Family 0 family_parents family_procs
small-Family = record {
  root_lives = (init_proc, refl, init_proc-Alive);
  parent = parent_of;
  entry = entry_of;
}
  where
    parent_of :
        (j : ℕ) (p : ProcInner)
        → get_elem? family_procs j ≡ some p
        → p.state ≢ unused
        → p.state ≢ used
        → j ≢ 0
        → (k : ℕ) × (get_elem? family_parents j ≡ some (some k)) × Lives family_procs k
    parent_of zero p e nu nd jr = absurd (jr refl)
    parent_of (suc zero) p e nu nd jr = (0, refl, (init_proc, refl, init_proc-Alive))
    parent_of (suc (suc zero)) p e nu nd jr = (1, refl, (shell, refl, shell-Alive))
    parent_of (suc (suc (suc zero))) p e nu nd jr = absurd (ground (arith, e, nu))
    parent_of (suc (suc (suc (suc j)))) p e nu nd jr = absurd (cc)

    entry_of :
        (j : ℕ) (p : ProcInner)
        → get_elem? family_procs j ≡ some p
        → (x : Option ℕ) × (get_elem? family_parents j ≡ some x)
    entry_of zero p e = (none, refl)
    entry_of (suc zero) p e = (some 0, refl)
    entry_of (suc (suc zero)) p e = (some 1, refl)
    entry_of (suc (suc (suc zero))) p e = (none, refl)
    entry_of (suc (suc (suc (suc j)))) p e = absurd (cc)

numbered :
    (j : ℕ) (p : ProcInner)
    → get_elem? family_procs j ≡ some p
    → p.state ≢ unused
    → (p.pid ≡ j + 1) × (j < 3)
numbered zero p e nu = (ground (arith, e), omega arith)
numbered (suc zero) p e nu = (ground (arith, e), omega arith)
numbered (suc (suc zero)) p e nu = (ground (arith, e), omega arith)
numbered (suc (suc (suc zero))) p e nu = absurd (ground (arith, e, nu))
numbered (suc (suc (suc (suc j)))) p e nu = absurd (cc)

small-Unique : Unique world.table
small-Unique = record {
  fresh = λ j p e nu. omega (arith, numbered j p e nu);
  distinct = λ i j p q ei ni ej nj same. omega (arith, numbered i p ei ni, numbered j q ej nj);
}

world-Orderly : Orderly 0 world
world-Orderly = record { unique = small-Unique; family = small-Family }

exit_lem_example :
    Exited 1 0 9 shell family_parents family_procs (exit 1 0 9 family_parents family_procs)
exit_lem_example = exit_lem 1 0 9 family_parents family_procs shell small-Family refl refl (λ c. cc)

wait_lem_example :
    Waited true false 1 0 family_parents family_procs
      (wait true 1 false family_parents family_procs)
wait_lem_example = wait_lem true false 1 0 family_parents family_procs small-Family

fork_lem_example :
    Forked true true 1 0 family_parents world.table (fork true true 1 7 family_parents world.table)
fork_lem_example =
    fork_lem true true 1 0 7 family_parents world.table small-Unique small-Family
      (shell, refl, shell-Alive) (omega arith)

-- The shell reaps its child.
abbrev reaped_world : World
reaped_world = record {
  parents = none ∷ some 0 ∷ none ∷ none ∷ [];
  table = record { procs = init_proc ∷ shell ∷ free done_child ∷ idle_proc ∷ []; next_pid = 4 };
}

reaps :
    wait true 1 false family_parents family_procs
    ≡ some (reaped 3, reaped_world.parents, reaped_world.table.procs)
unfolding wait scan_kids
reaps = refl

abbrev reap_step : Step 0 world reaped_world
reap_step =
    waits 1 true shell (reaped 3) reaped_world.parents reaped_world.table.procs (refl, refl) reaps

Reaches-Orderly_example : Orderly 0 reaped_world
Reaches-Orderly_example =
    Reaches-Orderly 0 world reaped_world world-Orderly (after here reap_step) (omega arith)

-- Without the child reaped, the shell's exit hands it to init, which is woken up.
orphaned :
    exit 1 0 9 family_parents family_procs
    ≡ some (
      none ∷ some 0 ∷ some 0 ∷ none ∷ [],
      record init_proc { state = runnable; pass = 7 }
          ∷ record shell { state = zombie; xstate = 9 }
          ∷ done_child
          ∷ idle_proc
          ∷ [],
    )
unfolding exit reparent wakeup wakeup_from wakeup_baseline wake_one min_pass min_pass_from pick
orphaned = refl

forked_first : (fork true true 1 7 family_parents world.table).0 ≡ ok 4
unfolding fork alloc_proc alloc_from alloc_inner
forked_first = refl
