-- ===== src/Family.antt =====
-- kernel/src/proc.rs: parents and children, over the process table of Proc. `parents` is the array of
-- that name, entry `j` the id of the parent of process `j`. `me` is the id of the calling process and
-- `root` that of INIT_PROC. `none` is a panic.
pub mod Tree
pub mod Exit
pub mod Wait
pub mod Fork
pub mod Steps
pub mod Kept
pub mod Orderly
mod Tests
use octopos.Base.{
  ℕ, zero, suc, ◌+◌, Bool, true, false, not, ◌&&◌, ◌||◌, Option, none, some, List, [], ◌∷◌, ◌==◌,
  if◌then◌else◌, get_elem?, set, Result, ok, err,
}
use octopos.Proc.{
  Channel, proc, ProcState, runnable, zombie, state_eq, ProcInner, Table, Error, free, wakeup,
  min_pass, alloc_proc,
}

-- `parent == Some(me)`
abbrev pub is_parent : ℕ → Option ℕ → Bool
is_parent me none = false
is_parent me (some k) = k == me

-- `reparent`, entry by entry: the children of `me` go to `root`, which is woken up for each.
pub reparent : ℕ → ℕ → List (Option ℕ) → List ProcInner → List (Option ℕ) × List ProcInner
reparent me root [] ps = ([], ps)
reparent me root (x ∷ xs) ps =
    let ps' : List ProcInner = if is_parent me x then wakeup (some me) (proc root) ps else ps in
    let (xs', ps'') = reparent me root xs ps' in
    ((if is_parent me x then some root else x) ∷ xs', ps'')

-- `exit`, from the lock of the parents on
pub exit : ℕ → ℕ → ℕ → List (Option ℕ) → List ProcInner → Option (List (Option ℕ) × List ProcInner)
exit me root status parents ps =
    let (parents', ps') = reparent me root parents ps in
    if me == root then none else (elim (get_elem? parents' me) [
      | some (some k) ↦
          (let ps'' = wakeup (some me) (proc k) ps' in
            elim (get_elem? ps'' me) [
              | none ↦ none
              | some p ↦ some (parents', set ps'' me (record p { xstate = status; state = zombie }))
            ])
      | _ ↦ none
    ])

-- What the scan of `wait` finds, from process `j` on: a child that is a zombie, or whether there are
-- children.
pub data Found : Type 0 where
  dead : ℕ → ProcInner → Found
  kids : Bool → Found

pub scan_kids : ℕ → ℕ → Bool → List (Option ℕ) → List ProcInner → Found
scan_kids me j have [] ps = kids have
scan_kids me j have (x ∷ xs) [] = kids have
scan_kids me j have (x ∷ xs) (p ∷ ps) =
    let rest = scan_kids me (j + 1) (have || is_parent me x) xs ps in
    if is_parent me x && state_eq p.state zombie then dead j p else rest

pub data WaitEnds : Type 0 where
  reaped : ℕ → WaitEnds
  no_child sleeps : WaitEnds

-- One round of the loop of `wait`. `copies` is whether the exit status can be copied out, or need not be.
pub wait :
    Bool
    → ℕ
    → Bool
    → List (Option ℕ)
    → List ProcInner
    → Option (WaitEnds × List (Option ℕ) × List ProcInner)
wait copies me killed parents ps = elim (scan_kids me 0 false parents ps) [
  | dead j p ↦ if copies then some (reaped p.pid, set parents j none, set ps j (free p)) else none
  | kids have ↦
      if not have || killed then some (no_child, parents, ps) else some (sleeps, parents, ps)
]

-- The last part of `fork`, on the process that `alloc` has made: its pass and its state.
pub start_child : ℕ → ℕ → List ProcInner → List ProcInner
start_child id parent_pass ps =
    let pass : ℕ = elim (min_pass (runnable ∷ []) ps) [ some (_, m) ↦ m | none ↦ parent_pass ] in
    elim (get_elem? ps id) [
      | none ↦ ps
      | some p ↦ set ps id (record p { pass = pass; state = runnable })
    ]

-- `fork`, on the table and the parents. `pages` and `copied` say whether the process's own pages and
-- the copy of its memory could be had.
pub fork : Bool → Bool → ℕ → ℕ → List (Option ℕ) → Table → Result ℕ Error × List (Option ℕ) × Table
fork pages copied me parent_pass parents t =
    let (r, t₁) = alloc_proc pages t in
    elim r [
      | err e ↦ (err e, parents, t₁)
      | ok id ↦ elim (get_elem? t₁.procs id) [
        | none ↦ (err Error.alloc, parents, t₁)
        | some p ↦
            if copied
            then (
              ok p.pid,
              set parents id (some me),
              record t₁ { procs = start_child id parent_pass t₁.procs },
            )
            else (err Error.alloc, parents, record t₁ { procs = set t₁.procs id (free p) })
      ]
    ]
