-- ===== src/Family/Orderly.antt =====
-- No step leaves a process without a parent that lives, or two under one pid.
use octopos.Base.{
  ℕ, ◌+◌, ◌≤◌, ◌<◌, ◌≡◌, ◌≢◌, refl, sym, ap, subst, ◌∙◌, inl, inr, Bool, Option, some, List, arith,
  get_elem?, set, ℕ_discrete, Option-cases,
}
use octopos.Proc.{
  usize_mod, Channel, normalize, normalized, woken_inner, zombie, running, sleeping, ProcInner,
  dispatch, runs, discriminant, switch_back, yield_inner, sleep_inner, wakeup, kill,
}
use octopos.Proc.Pids.{free-Unique}
use octopos.Proc.Wakeup.{state_eq_iff}
use octopos.Proc.Schedule.{dispatch_lem}
use octopos.Proc.Kill.{kill_lem}
use octopos.Family.{WaitEnds, no_child, sleeps, exit, wait}
use octopos.Family.Tree.{Alive, Alike-same, wakeup-Woken}
use octopos.Family.Exit.{exit_lem}
use octopos.Family.Wait.{wait_lem}
use octopos.Family.Fork.{fork_lem}
use octopos.Family.Steps.{
  normalizes, ends_sleep, sets_tickets, forks_in, forks_of, World, Runs, with_procs, Step,
  dispatches, yields, goes_to_sleep, charges, wakes, kills, forks, exits, waits, Reaches, here,
  after, Orderly,
}
use octopos.Family.Kept.{
  Covers, Covers-Unique, Same, Kept-Orderly, set-Kept, Woken-Kept, charged, some_inj, lives,
  dispatch-absent, runs_inj, normalized_inj, normalize-Kept, tickets-Same,
}

module _ (root : ℕ) (w : World) (o : Orderly root w) where
  set-Orderly :
      (i : ℕ) (p x : ProcInner)
      → get_elem? w.table.procs i ≡ some p
      → Same p x
      → Orderly root (with_procs w (set w.table.procs i x))
  set-Orderly i p x e s =
      Kept-Orderly root w (set w.table.procs i x) o (set-Kept w.table.procs i p x e s)

  Runs-Orderly :
      (me : ℕ) (p x : ProcInner)
      → Runs w me p
      → x.pid ≡ p.pid
      → Alive x.state
      → Orderly root (with_procs w (set w.table.procs me x))
  Runs-Orderly me p x r pid a =
      set-Orderly me p x r.0 (pid, inr (lives r.1 (λ c. cc) (λ c. cc) (λ c. cc), a))

  dispatches-Orderly :
      (i : ℕ) (ps : List ProcInner)
      → dispatch w.table.procs i ≡ runs ps
      → Orderly root (with_procs w ps)
  dispatches-Orderly i ps e = elim (Option-cases (get_elem? w.table.procs i)) [
    | inl gone ↦ absurd (ground (arith, dispatch-absent w.table.procs i gone, e))
    | inr (p, ep) ↦ elim (dispatch_lem w.table.procs i p ep) [
      | inl (_, er) ↦ absurd (cc)
      | inr (inr (_, _, _, _, _, _, er)) ↦ absurd (cc)
      | inr (inl (run, _, er)) ↦
          let x : ProcInner = record p { state = running } in
          let is : set w.table.procs i x ≡ ps = runs_inj (sym er ∙ e) in
          subst (λ y. Orderly root (with_procs w y)) is
            (set-Orderly i p x ep (
              refl,
              inr (lives run (λ c. cc) (λ c. cc) (λ c. cc), ((λ c. cc), (λ c. cc), (λ c. cc))),
            ))
    ]
  ]

  normalizes-Orderly :
      (i : ℕ) (ps : List ProcInner)
      → dispatch w.table.procs i ≡ normalized ps
      → Orderly root (with_procs w ps)
  normalizes-Orderly i ps e = elim (Option-cases (get_elem? w.table.procs i)) [
    | inl gone ↦ absurd (ground (arith, dispatch-absent w.table.procs i gone, e))
    | inr (p, ep) ↦ elim (dispatch_lem w.table.procs i p ep) [
      | inl (_, er) ↦ absurd (cc)
      | inr (inl (_, _, er)) ↦ absurd (cc)
      | inr (inr (_, _, _, m, _, _, er)) ↦
          let is : normalize m w.table.procs ≡ ps = normalized_inj (sym er ∙ e) in
          subst (λ y. Orderly root (with_procs w y)) is
            (Kept-Orderly root w (normalize m w.table.procs) o (normalize-Kept m w.table.procs))
    ]
  ]

  kills-Orderly : (pid : ℕ) → Orderly root (with_procs w (kill pid w.table.procs).1)
  kills-Orderly pid = elim (kill_lem pid w.table.procs) [
    | inl (_, e) ↦ rw e o
    | inr (i, p, ep, _, _, e, k) ↦ rw e (
        set-Orderly i p _ ep (
          k.rest.1,
          elim (ℕ_discrete (discriminant p.state) 2) [
            | yes is ↦
                let asleep : p.state ≡ sleeping =
                  (state_eq_iff p.state sleeping).0 (ground (arith, is)) in
                inr (
                  lives asleep (λ c. cc) (λ c. cc) (λ c. cc),
                  lives (k.wakes asleep) (λ c. cc) (λ c. cc) (λ c. cc),
                )
            | no other ↦ inl (k.stays (λ c. other (ap discriminant c)))
          ],
        ))
  ]

  exits-Orderly :
      (me status : ℕ) (p : ProcInner) (parents : List (Option ℕ)) (ps : List ProcInner)
      → Runs w me p
      → me ≢ root
      → exit me root status w.parents w.table.procs ≡ some (parents, ps)
      → Orderly root (with_procs (record w { parents = parents }) ps)
  exits-Orderly me status p parents ps r nr e =
      let x = exit_lem me root status w.parents w.table.procs p o.family r.0 r.1 nr in
      let cover : Covers w.table.procs x.procs = λ j q eq nu. elim (ℕ_discrete j me) [
        | yes mine ↦
            let qp : record p { xstate = status; state = zombie } ≡ q =
              ground (arith, x.dead, eq, mine) in
            (p, ground (arith, r.0, mine), ground (arith, r.1), ap (λ (y : ProcInner). y.pid) qp)
        | no other ↦
            let (p', ep, a) = x.others j q other eq in
            (
              p',
              ep,
              elim (Alike-same p' q a).1 [
                | inl same ↦ (λ c. nu (same ∙ c))
                | inr (s, _) ↦ (λ c. ground (arith, s, c))
              ],
              sym (Alike-same p' q a).0,
            )
      ] in
      let good : Orderly root (with_procs (record w { parents = x.parents' }) x.procs) = record {
        unique = Covers-Unique w.table x.procs o.unique cover;
        family = x.family;
      } in
      let is : (x.parents', x.procs) ≡ (parents, ps) = some_inj (sym x.returns ∙ e) in
      subst
        (λ (y : List (Option ℕ) × List ProcInner).
          Orderly root (with_procs (record w { parents = y.0 }) y.1))
        is good

  waits-Orderly :
      (me : ℕ) (copies killed : Bool) (r : WaitEnds) (parents : List (Option ℕ))
      (ps : List ProcInner)
      → wait copies me killed w.parents w.table.procs ≡ some (r, parents, ps)
      → Orderly root (with_procs (record w { parents = parents }) ps)
  waits-Orderly me copies killed r parents ps e =
      let over : (y : WaitEnds × List (Option ℕ) × List ProcInner)
          → wait copies me killed w.parents w.table.procs ≡ some y
          → Orderly root (with_procs (record w { parents = y.1 }) y.2)
          → Orderly root (with_procs (record w { parents = parents }) ps) =
        λ y ey good.
          subst
            (λ (z : WaitEnds × List (Option ℕ) × List ProcInner).
              Orderly root (with_procs (record w { parents = z.1 }) z.2))
            (some_inj (sym ey ∙ e)) good in
      elim (wait_lem copies killed me root w.parents w.table.procs o.family) [
        | inl (j, q, c, z, how) ↦ elim how [
          | inl (_, er, f) ↦
              over _ er record { unique = free-Unique w.table j q o.unique c.1; family = f }
          | inr (_, er) ↦ absurd (cc)
        ]
        | inr (_, how) ↦ elim how [
          | inl (_, er) ↦ over (no_child, w.parents, w.table.procs) er o
          | inr (_, _, er) ↦ over (sleeps, w.parents, w.table.procs) er o
        ]
      ]

-- The table is orderly, and at most `n` pids were handed out since the counter was at `next`.
Ran : ℕ → ℕ → ℕ → World → Type 0
Ran root next n v = Orderly root v × (v.table.next_pid ≤ next + n)

-- Every step keeps the table orderly, while the counter of pids does not wrap.
step-Orderly :
    (root : ℕ) (w v : World)
    → Orderly root w
    → (s : Step root w v) → w.table.next_pid + forks_in s < usize_mod
    → Ran root w.table.next_pid (forks_in s) v
unfolding Ran
step-Orderly root w v o (dispatches i ps e) room = (dispatches-Orderly root w o i ps e, omega arith)
step-Orderly root w v o (normalizes i ps e) room = (normalizes-Orderly root w o i ps e, omega arith)
step-Orderly root w v o (yields me p r) room = (
  Runs-Orderly root w o me p (yield_inner p) r refl ((λ c. cc), (λ c. cc), (λ c. cc)),
  omega arith,
)
step-Orderly root w v o (goes_to_sleep me p c r) room = (
  Runs-Orderly root w o me p (sleep_inner c p) r refl ((λ d. cc), (λ d. cc), (λ d. cc)),
  omega arith,
)
step-Orderly root w v o (ends_sleep me p r) room =
    (set-Orderly root w o me p (woken_inner p) r.0 (refl, inl refl), omega arith)
step-Orderly root w v o (sets_tickets me tickets p q r e) room =
    let s = tickets-Same p q tickets e in
    (set-Orderly root w o me p q r.0 (s.0, inl s.1), omega arith)
step-Orderly root w v o (charges i p e) room =
    (set-Orderly root w o i p (switch_back p) e (charged p), omega arith)
step-Orderly root w v o (wakes current c) room =
    let on : Channel → Type 0 = λ d. d ≡ c in
    let ps = wakeup current c w.table.procs in
    (
      Kept-Orderly root w ps o
          (Woken-Kept on w.table.procs ps (wakeup-Woken current c w.table.procs on refl)),
      omega arith,
    )
step-Orderly root w v o (kills pid) room = (kills-Orderly root w o pid, omega arith)
step-Orderly root w v o (forks pages copied me p r) room =
    let f =
      fork_lem pages copied me root p.pass w.parents w.table o.unique o.family
        (p, r.0, lives r.1 (λ c. cc) (λ c. cc) (λ c. cc)) room in
    (record { unique = f.unique; family = f.family }, f.counter)
step-Orderly root w v o (exits me status p parents ps r nr e) room =
    (exits-Orderly root w o me status p parents ps r nr e, omega arith)
step-Orderly root w v o (waits me copies p r parents ps _ e) room =
    (waits-Orderly root w o me copies p.killed r parents ps e, omega arith)

-- So do all steps together.
steps-Orderly :
    (root : ℕ) (w v : World)
    → Orderly root w
    → (r : Reaches root w v) → w.table.next_pid + forks_of r < usize_mod
    → Ran root w.table.next_pid (forks_of r) v
unfolding Ran
steps-Orderly root w v o here room = (o, omega arith)
steps-Orderly root w v o (after {v = u} r s) room =
    let (before, count) = steps-Orderly root w u o r (omega arith) in
    let (now, more) = step-Orderly root u v before s (omega arith) in (now, omega arith)

-- From an orderly table on, whatever sequence of these steps follows - switches to and from a process,
-- normalised passes, changed tickets, sleeps and wakeups, kills, forks, exits and waits, by any processes
-- in any order - and as long as the calls of `fork` are too few for the counter of pids to wrap around,
-- the pids of the processes in use stay unique, the root stays alive, and every other process that has a
-- program or is a zombie has a parent that is alive, so that a zombie can be waited for.
pub Reaches-Orderly :
    (root : ℕ) (w v : World)
    → Orderly root w
    → (r : Reaches root w v) → w.table.next_pid + forks_of r < usize_mod
    → Orderly root v
unfolding Ran
Reaches-Orderly root w v o r room = (steps-Orderly root w v o r room).0
