-- ===== src/Family/Steps.antt =====
-- The steps that change the process table and the parents, in any order and by any of the processes.
-- Every call is one step: the locks that it releases on the way are not modelled.
use octopos.Base.{ℕ, ◌+◌, ok, ◌≡◌, ◌≢◌, Bool, Option, some, List, get_elem?, set}
use octopos.Proc.{
  Channel, running, ProcInner, Table, dispatch, normalized, runs, set_tickets, woken_inner,
  switch_back, yield_inner, sleep_inner, wakeup, kill,
}
use octopos.Proc.Pids.{Unique}
use octopos.Family.{WaitEnds, exit, wait, fork}
use octopos.Family.Tree.{Family}

-- The parents and the process table.
pub record World : Type 0 where
  pub parents : List (Option ℕ)
  pub table : Table

-- Process `me` runs `p`.
abbrev pub Runs : World → ℕ → ProcInner → Type 0
Runs w me p = (get_elem? w.table.procs me ≡ some p) × (p.state ≡ running)

abbrev pub with_procs : World → List ProcInner → World
with_procs w ps = record w { table = record w.table { procs = ps } }

pub data Step (root : ℕ) (w : World) : World → Type 0 where
  dispatches :
      (i : ℕ) (ps : List ProcInner)
      → dispatch w.table.procs i ≡ runs ps
      → Step root w (with_procs w ps)
  normalizes :
      (i : ℕ) (ps : List ProcInner)
      → dispatch w.table.procs i ≡ normalized ps
      → Step root w (with_procs w ps)
  yields :
      (me : ℕ) (p : ProcInner)
      → Runs w me p
      → Step root w (with_procs w (set w.table.procs me (yield_inner p)))
  goes_to_sleep :
      (me : ℕ) (p : ProcInner) (c : Channel)
      → Runs w me p
      → Step root w (with_procs w (set w.table.procs me (sleep_inner c p)))
  ends_sleep :
      (me : ℕ) (p : ProcInner)
      → Runs w me p
      → Step root w (with_procs w (set w.table.procs me (woken_inner p)))
  sets_tickets :
      (me tickets : ℕ) (p q : ProcInner)
      → Runs w me p
      → set_tickets p tickets ≡ ok q
      → Step root w (with_procs w (set w.table.procs me q))
  charges :
      (i : ℕ) (p : ProcInner)
      → get_elem? w.table.procs i ≡ some p
      → Step root w (with_procs w (set w.table.procs i (switch_back p)))
  wakes :
      (current : Option ℕ) (c : Channel)
      → Step root w (with_procs w (wakeup current c w.table.procs))
  kills : (pid : ℕ) → Step root w (with_procs w (kill pid w.table.procs).1)
  forks :
      (pages copied : Bool) (me : ℕ) (p : ProcInner)
      → Runs w me p
      → Step root w (record {
        parents = (fork pages copied me p.pass w.parents w.table).1;
        table = (fork pages copied me p.pass w.parents w.table).2;
      })
  exits :
      (me status : ℕ) (p : ProcInner) (parents : List (Option ℕ)) (ps : List ProcInner)
      → Runs w me p
      → me ≢ root
      → exit me root status w.parents w.table.procs ≡ some (parents, ps)
      → Step root w (with_procs (record w { parents = parents }) ps)
  waits :
      (me : ℕ) (copies : Bool) (p : ProcInner) (r : WaitEnds) (parents : List (Option ℕ))
      (ps : List ProcInner)
      → Runs w me p
      → wait copies me p.killed w.parents w.table.procs ≡ some (r, parents, ps)
      → Step root w (with_procs (record w { parents = parents }) ps)

-- Any number of steps
pub data Reaches (root : ℕ) (w : World) : World → Type 0 where
  here : Reaches root w w
  after : {v x : World} → Reaches root w v → Step root v x → Reaches root w x

-- How many calls of `fork` there are among the steps
abbrev pub forks_in : {root : ℕ} {w v : World} → Step root w v → ℕ
forks_in (forks pages copied me p r) = 1
forks_in _ = 0

abbrev pub forks_of : {root : ℕ} {w v : World} → Reaches root w v → ℕ
forks_of here = 0
forks_of (after r s) = forks_of r + forks_in s

-- The pids are unique and every process is in the family.
pub record Orderly (root : ℕ) (w : World) : Type 0 where
  pub unique : Unique w.table
  pub family : Family root w.parents w.table.procs
