-- ===== src/Proc.antt =====
-- kernel/src/proc.rs: the process table and what the kernel does to it under the locks. A process is
-- its `ProcInner`; its place in the list is the `id` of the source. `ProcData` (memory, registers,
-- files) is not part of this state.
pub mod Tickets
pub mod MinPass
pub mod Schedule
pub mod Fair
pub mod Share
pub mod Wakeup
pub mod Kill
pub mod Pids
mod Tests
use octopos.Base.{
  ℕ, zero, suc, ◌+◌, ◌-◌, ◌/◌, ◌%◌, ◌^◌, max, Bool, true, false, not, ◌&&◌, ◌||◌, Option, none,
  some, List, [], ◌∷◌, map, ltb, leb, ◌==◌, if◌then◌else◌, get_elem?, set, Result, ok, err,
}

abbrev pub large_number : ℕ
large_number = 3603600

abbrev pub usize_mod : ℕ
usize_mod = 2 ^ 64

pub data Channel : Type 0 where
  proc buffer lock pipe_read pipe_write : ℕ → Channel
  ticks log : Channel

-- the derived `PartialEq`
abbrev pub channel_eq : Channel → Channel → Bool
channel_eq (proc a) (proc b) = a == b
channel_eq (buffer a) (buffer b) = a == b
channel_eq (lock a) (lock b) = a == b
channel_eq (pipe_read a) (pipe_read b) = a == b
channel_eq (pipe_write a) (pipe_write b) = a == b
channel_eq ticks ticks = true
channel_eq log log = true
channel_eq _ _ = false

pub data ProcState : Type 0 where
  unused used sleeping runnable running zombie : ProcState

abbrev pub discriminant : ProcState → ℕ
discriminant unused = 0
discriminant used = 1
discriminant sleeping = 2
discriminant runnable = 3
discriminant running = 4
discriminant zombie = 5

-- the derived `PartialEq`
abbrev pub state_eq : ProcState → ProcState → Bool
state_eq a b = discriminant a == discriminant b

-- `states.contains(&state)`
abbrev pub contains : List ProcState → ProcState → Bool
contains [] s = false
contains (x ∷ xs) s = state_eq x s || contains xs s

pub record ProcInner : Type 0 where
  pub state : ProcState
  pub channel : Option Channel
  pub killed : Bool
  pub xstate : ℕ
  pub pid : ℕ
  pub tickets : ℕ
  pub pass : ℕ
  pub stride : ℕ
  pub n_schedule : ℕ

-- `ProcInner::new`
pub new_inner : ProcInner
new_inner = record {
  state = unused;
  channel = none;
  killed = false;
  xstate = 0;
  pid = 0;
  tickets = 10;
  pass = 0;
  stride = large_number / 10;
  n_schedule = 0;
}

pub data Error : Type 0 where
  invalid_argument out_of_proc alloc : Error

-- `Proc::set_tickets`
unfoldable pub set_tickets : ProcInner → ℕ → Result ProcInner Error
set_tickets p tickets =
    if leb 10 tickets && leb tickets 150 && (tickets % 10 == 0)
    then ok (record p { tickets = tickets; stride = large_number / tickets })
    else err invalid_argument

-- `Proc::free`, on `ProcInner`
pub free : ProcInner → ProcInner
free p = record p { pid = 0; channel = none; killed = false; xstate = 0; state = unused }

-- A step of `min_by_key` from the back: of two equal passes the first process is kept.
unfoldable pub pick : Bool → ℕ → ℕ → Option (ℕ × ℕ) → Option (ℕ × ℕ)
pick false i pass rest = rest
pick true i pass none = some (i, pass)
pick true i pass (some (j, q)) = if ltb q pass then some (j, q) else some (i, pass)

-- `ProcTable::min_pass`: index and pass of the first process with the least pass among those in one
-- of the states, counted from `i` on.
unfoldable pub min_pass_from : List ProcState → ℕ → List ProcInner → Option (ℕ × ℕ)
min_pass_from states i [] = none
min_pass_from states i (p ∷ ps) =
    pick (contains states p.state) i p.pass (min_pass_from states (i + 1) ps)

unfoldable pub min_pass : List ProcState → List ProcInner → Option (ℕ × ℕ)
min_pass states ps = min_pass_from states 0 ps

-- What `alloc` makes of the unused process that it finds; `pages` says whether the trapframe and the
-- page table could be allocated. The table is left with the freed process if not.
unfoldable pub alloc_inner : ProcInner → ℕ → Bool → ProcInner
alloc_inner p pid pages =
    let p' : ProcInner = record p {
      pid = pid;
      state = used;
      tickets = 10;
      stride = large_number / 10;
      n_schedule = 0;
    } in
    if pages then p' else free p'

-- The table with the counter of `Pid::alloc`, which wraps on usize.
pub record Table : Type 0 where
  pub procs : List ProcInner
  pub next_pid : ℕ

-- `ProcTable::alloc`: the index of the process, counted from `i` on.
unfoldable pub alloc_from : Bool → ℕ → ℕ → List ProcInner → Result ℕ Error × List ProcInner × ℕ
alloc_from pages next_pid i [] = (err out_of_proc, [], next_pid)
alloc_from pages next_pid i (p ∷ ps) =
    let (r, ps', next) = alloc_from pages next_pid (i + 1) ps in
    if state_eq p.state unused
    then (
      if pages then ok i else err alloc,
      alloc_inner p next_pid pages ∷ ps,
      (next_pid + 1) % usize_mod,
    )
    else (r, p ∷ ps', next)

unfoldable pub alloc_proc : Bool → Table → Result ℕ Error × Table
alloc_proc pages t =
    let (r, ps, next) = alloc_from pages t.next_pid 0 t.procs in
    (r, record { procs = ps; next_pid = next })

-- `saturating_sub(baseline)` on the pass of every process
abbrev pub normalize : ℕ → List ProcInner → List ProcInner
normalize baseline = map (λ (p : ProcInner). record p { pass = p.pass - baseline })

-- What a round of `stride_scheduler` does with the process that it has chosen and locked again:
-- try again, subtract the baseline and try again, or switch to it.
pub data Dispatch : Type 0 where
  retry : Dispatch
  normalized runs : List ProcInner → Dispatch

unfoldable pub dispatch : List ProcInner → ℕ → Dispatch
dispatch ps i = elim (get_elem? ps i) [
  | none ↦ retry
  | some p ↦
      if not (state_eq p.state runnable)
      then retry
      else if leb usize_mod (p.pass + p.stride)
      then (elim (min_pass (running ∷ runnable ∷ []) ps) [
        | none ↦ retry
        | some (_, baseline) ↦ normalized (normalize baseline ps)
      ])
      else runs (set ps i (record p { state = running }))
]

-- After the switch back to the scheduler: `pass += stride; n_schedule += 1` on usize.
unfoldable pub switch_back : ProcInner → ProcInner
switch_back p = record p {
  pass = (p.pass + p.stride) % usize_mod;
  n_schedule = (p.n_schedule + 1) % usize_mod;
}

-- `r#yield`, up to `sched`
abbrev pub yield_inner : ProcInner → ProcInner
yield_inner p = record p { state = runnable }

-- `sleep`, up to `sched`, and after it
abbrev pub sleep_inner : Channel → ProcInner → ProcInner
sleep_inner c p = record p { channel = some c; state = sleeping }

abbrev pub woken_inner : ProcInner → ProcInner
woken_inner p = record p { channel = none }

-- `inner.channel == Some(channel)`
abbrev pub sleeps_on : Option Channel → Channel → Bool
sleeps_on none c = false
sleeps_on (some d) c = channel_eq d c

abbrev pub is_current : Option ℕ → ℕ → Bool
is_current none i = false
is_current (some j) i = j == i

-- The `baseline` of `wakeup`
unfoldable pub wakeup_baseline : Option ℕ → List ProcInner → Option ℕ
wakeup_baseline current ps = elim (min_pass (runnable ∷ []) ps) [
  | some (_, m) ↦ some m
  | none ↦ elim current [
    | none ↦ none
    | some i ↦ elim (get_elem? ps i) [ none ↦ none | some p ↦ some p.pass ]
  ]
]

abbrev pub raise : Option ℕ → ℕ → ℕ
raise none pass = pass
raise (some b) pass = max pass b

-- The body of the loop of `wakeup`, at process `i`.
unfoldable pub wake_one : Option ℕ → Option ℕ → Channel → ℕ → ProcInner → ProcInner
wake_one current baseline c i p =
    if is_current current i
    then p
    else if state_eq p.state sleeping && sleeps_on p.channel c
    then record p { pass = raise baseline p.pass; state = runnable }
    else p

unfoldable pub wakeup_from : Option ℕ → Option ℕ → Channel → ℕ → List ProcInner → List ProcInner
wakeup_from current baseline c i [] = []
wakeup_from current baseline c i (p ∷ ps) =
    wake_one current baseline c i p ∷ wakeup_from current baseline c (i + 1) ps

unfoldable pub wakeup : Option ℕ → Channel → List ProcInner → List ProcInner
wakeup current c ps = wakeup_from current (wakeup_baseline current ps) c 0 ps

-- What `kill` does to the process that it finds.
pub kill_inner : ProcInner → ProcInner
kill_inner p =
    if state_eq p.state sleeping
    then record p { killed = true; state = runnable }
    else record p { killed = true }

-- `kill`
pub kill : ℕ → List ProcInner → Bool × List ProcInner
kill pid [] = (false, [])
kill pid (p ∷ ps) =
    let (found, ps') = kill pid ps in
    if not (state_eq p.state unused) && (p.pid == pid)
    then (true, kill_inner p ∷ ps)
    else (found, p ∷ ps')

-- `pid_exists`
pub pid_exists : ℕ → List ProcInner → Bool
pid_exists pid [] = false
pid_exists pid (p ∷ ps) = (p.pid == pid && not (state_eq p.state unused)) || pid_exists pid ps

pub record PStat : Type 0 where
  pub inuse : ℕ
  pub pid : ℕ
  pub tickets : ℕ
  pub pass : ℕ
  pub stride : ℕ
  pub n_schedule : ℕ

-- `ProcTable::getpinfo`
pub getpinfo : ProcInner → PStat
getpinfo p = record {
  inuse = if state_eq p.state unused then 0 else 1;
  pid = p.pid;
  tickets = p.tickets;
  pass = p.pass;
  stride = p.stride;
  n_schedule = p.n_schedule;
}
