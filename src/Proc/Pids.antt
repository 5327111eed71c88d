-- ===== src/Proc/Pids.antt =====
-- `ProcTable::alloc` and `Proc::free`: which entry is taken, and that pids stay unique.
use octopos.Base.{
  ℕ, zero, suc, ◌+◌, ◌%◌, ◌≤◌, ◌<◌, ◌≡◌, refl, ◌⊎◌, inl, inr, ◌≢◌, Bool, true, false, List, [], ◌∷◌,
  some, arith, get_elem?, set, if◌then◌else◌, Bool-cases, Result, ok, err, get_elem?-set, ap,
  ℕ_discrete,
}
use octopos.Proc.{
  usize_mod, ProcInner, unused, used, state_eq, Error, out_of_proc, alloc, alloc_inner, alloc_from,
  alloc_proc, Table, free,
}
use octopos.Proc.Wakeup.{state_eq_iff}

-- Every entry up to `d` is in use.
abbrev InUse : ℕ → List ProcInner → Type 0
InUse d ps = (j : ℕ) (p : ProcInner) → get_elem? ps j ≡ some p → j < d → p.state ≢ unused

-- What the search from entry `i` on returns.
Allocated : Bool → ℕ → ℕ → List ProcInner → Result ℕ Error × List ProcInner × ℕ → Type 0
Allocated pages next i ps r =
    (((j : ℕ) (p : ProcInner) → get_elem? ps j ≡ some p → p.state ≢ unused)
      × (r ≡ (err out_of_proc, ps, next)))
    ⊎ ((d : ℕ) × (p : ProcInner) × (get_elem? ps d ≡ some p)
        × (p.state ≡ unused)
        × InUse d ps
        × (r ≡ (
          if pages then ok (i + d) else err alloc,
          set ps d (alloc_inner p next pages),
          (next + 1) % usize_mod,
        )))

head : {x p : ProcInner} → some x ≡ some p → x ≡ p
head e = cc

busy_all :
    (x : ProcInner) (ps : List ProcInner)
    → x.state ≢ unused
    → ((j : ℕ) (p : ProcInner) → get_elem? ps j ≡ some p → p.state ≢ unused)
    → (j : ℕ) (p : ProcInner) → get_elem? (x ∷ ps) j ≡ some p
    → p.state ≢ unused
busy_all x ps nx h zero p e = ground (arith, head e)
busy_all x ps nx h (suc j) p e = h j p e

busy_before :
    (d : ℕ) (x : ProcInner) (ps : List ProcInner)
    → x.state ≢ unused
    → InUse d ps
    → InUse (suc d) (x ∷ ps)
busy_before d x ps nx h zero p e lt = ground (arith, head e)
busy_before d x ps nx h (suc j) p e lt = h j p e (omega arith)

alloc_from-Allocated :
    (pages : Bool) (next i : ℕ) (ps : List ProcInner)
    → Allocated pages next i ps (alloc_from pages next i ps)
unfolding alloc_from Allocated
alloc_from-Allocated pages next i [] = inl (λ j p e. absurd (cc), refl)
alloc_from-Allocated pages next i (x ∷ ps) = elim (Bool-cases (state_eq x.state unused)) [
  | inl free ↦ inr (
    0,
    x,
    refl,
    (state_eq_iff x.state unused).0 free,
    (λ j p e lt. absurd (omega arith)),
    rw free (
        ap
          (λ k. (
            if pages then ok k else err alloc,
            alloc_inner x next pages ∷ ps,
            (next + 1) % usize_mod,
          ))
          (omega arith)),
  )
  | inr busy ↦
      let nx : x.state ≢ unused = λ e. ground (arith, e, busy) in
      elim (alloc_from-Allocated pages next (i + 1) ps) [
        | inl (h, e) ↦ inl (busy_all x ps nx h, ground arith)
        | inr (d, p, ep, is, h, e) ↦
            let shift : i + 1 + d ≡ i + suc d = omega arith in
            inr (suc d, p, ep, is, busy_before d x ps nx h, ground arith)
      ]
]

-- The pids of the processes in use are distinct, and have been handed out by `Pid::alloc`.
pub record Unique (t : Table) : Type 0 where
  pub fresh :
      (j : ℕ) (p : ProcInner) → get_elem? t.procs j ≡ some p → p.state ≢ unused → p.pid < t.next_pid
  pub distinct :
      (i j : ℕ) (p q : ProcInner)
      → get_elem? t.procs i ≡ some p
      → p.state ≢ unused
      → get_elem? t.procs j ≡ some q
      → q.state ≢ unused
      → p.pid ≡ q.pid
      → i ≡ j

-- An entry that is written with an unused process, or with one of a new pid.
put-Unique :
    (t : Table) (d next : ℕ) (p x : ProcInner)
    → Unique t
    → get_elem? t.procs d ≡ some p
    → t.next_pid ≤ next
    → (x.state ≢ unused → (t.next_pid ≤ x.pid) × (x.pid < next))
    → Unique (record { procs = set t.procs d x; next_pid = next })
put-Unique t d next p x u ep le hx = record {
  fresh = λ j q e nq. elim (ℕ_discrete d j) [
    | yes same ↦ ground (arith, get_elem?-set t.procs d j x ep, hx)
    | no other ↦ ground (arith, get_elem?-set t.procs d j x ep, u.fresh j q)
  ];
  distinct = λ i j q r ei nq ej nr same. elim (ℕ_discrete d i) [
    | yes di ↦ elim (ℕ_discrete d j) [
      | yes dj ↦ omega arith
      | no nj ↦ absurd (
          ground (
            arith,
            get_elem?-set t.procs d i x ep,
            get_elem?-set t.procs d j x ep,
            hx,
            u.fresh j r,
          ))
    ]
    | no ni ↦ elim (ℕ_discrete d j) [
      | yes dj ↦ absurd (
          ground (
            arith,
            get_elem?-set t.procs d i x ep,
            get_elem?-set t.procs d j x ep,
            hx,
            u.fresh i q,
          ))
      | no nj ↦
          u.distinct i j q r (ground (arith, get_elem?-set t.procs d i x ep)) nq
            (ground (arith, get_elem?-set t.procs d j x ep)) nr same
    ]
  ];
}

alloc_inner_lem :
    (p : ProcInner) (pid : ℕ) (pages : Bool)
    → ((pages ≡ true)
        × ((alloc_inner p pid pages).state ≡ used)
        × ((alloc_inner p pid pages).pid ≡ pid)
        × ((alloc_inner p pid pages).tickets ≡ 10))
      ⊎ ((pages ≡ false) × ((alloc_inner p pid pages).state ≡ unused))
unfolding alloc_inner free
alloc_inner_lem p pid true = inl (refl, refl, refl, refl)
alloc_inner_lem p pid false = inr (refl, refl)

-- With the counter of pids not at its end, `alloc` fails with `OutOfProc`, and changes nothing, exactly
-- when no process is unused. Otherwise it takes the first unused one and leaves all others as they are:
-- with the pages allocated it returns that index, and the process is used, under a pid that the counter
-- had not reached; without them the process is unused again. The pids stay unique.
pub alloc_proc_lem :
    (pages : Bool) (t : Table)
    → Unique t
    → t.next_pid + 1 < usize_mod
    → let (r, t') = alloc_proc pages t in
      Unique t'
      × (t'.next_pid ≤ t.next_pid + 1)
      × ((((j : ℕ) (p : ProcInner) → get_elem? t.procs j ≡ some p → p.state ≢ unused)
            × (r ≡ err out_of_proc)
            × (t' ≡ t))
          ⊎ ((d : ℕ) × (p q : ProcInner) × (get_elem? t.procs d ≡ some p)
              × (p.state ≡ unused)
              × ((j : ℕ) (x : ProcInner) → get_elem? t.procs j ≡ some x → j < d → x.state ≢ unused)
              × (get_elem? t'.procs d ≡ some q)
              × ((j : ℕ) → j ≢ d → get_elem? t'.procs j ≡ get_elem? t.procs j)
              × (((pages ≡ true) × (r ≡ ok d) × (q.state ≡ used) × (q.pid ≡ t.next_pid))
                  ⊎ ((pages ≡ false) × (r ≡ err alloc) × (q.state ≡ unused)))))
unfolding alloc_proc Allocated
alloc_proc_lem pages t u room = elim (alloc_from-Allocated pages t.next_pid 0 t.procs) [
  | inl (h, e) ↦ (rw e u, rw e (omega arith), inl (h, rw e refl, rw e refl))
  | inr (d, p, ep, is, first, e) ↦
      let counted : (t.next_pid + 1) % usize_mod ≡ t.next_pid + 1 = omega (arith, room) in
      let q : ProcInner = alloc_inner p t.next_pid pages in
      let zero_add : 0 + d ≡ d = omega arith in
      let kind = alloc_inner_lem p t.next_pid pages in
      (
        rw (e, counted)
            (put-Unique t d (t.next_pid + 1) p q u ep (omega arith) (λ nq. ground (arith, kind))),
        rw (e, counted) (omega arith),
        inr (
          d,
          p,
          q,
          ep,
          is,
          first,
          rw e (ground (arith, get_elem?-set t.procs d d q ep)),
          rw e (λ j ne. ground (arith, get_elem?-set t.procs d j q ep)),
          rw (e, zero_add) (ground (arith, kind)),
        ),
      )
]

-- Freeing a process keeps the pids unique.
pub free-Unique :
    (t : Table) (i : ℕ) (p : ProcInner)
    → Unique t
    → get_elem? t.procs i ≡ some p
    → Unique (record t { procs = set t.procs i (free p) })
unfolding free
free-Unique t i p u e =
    put-Unique t i t.next_pid p (free p) u e (omega arith) (λ ne. absurd (ne refl))

pub free_lem : (p : ProcInner) → (free p).state ≡ unused
unfolding free
free_lem p = refl

-- An entry in use that is written with a process of the same pid.
pub same_pid-Unique :
    (t : Table) (d : ℕ) (p x : ProcInner)
    → Unique t
    → get_elem? t.procs d ≡ some p
    → p.state ≢ unused
    → x.pid ≡ p.pid
    → Unique (record t { procs = set t.procs d x })
same_pid-Unique t d p x u ep nu same =
    let now : (j : ℕ) (q : ProcInner)
        → get_elem? (set t.procs d x) j ≡ some q
        → q.state ≢ unused
        → (o : ProcInner) × (get_elem? t.procs j ≡ some o) × (o.state ≢ unused) × (o.pid ≡ q.pid) =
      λ j q e nq. elim (ℕ_discrete d j) [
        | yes here ↦ (
          p,
          ground (arith, ep, here),
          nu,
          ground (arith, get_elem?-set t.procs d j x ep, e, here),
        )
        | no other ↦ (q, ground (arith, get_elem?-set t.procs d j x ep, e), nq, refl)
      ] in
    record {
      fresh = λ j q e nq.
          let (o, eo, no_o, pid) = now j q e nq in ground (arith, u.fresh j o eo no_o, pid);
      distinct = λ i j q r ei nq ej nr pids.
          let (o, eo, no_o, pid) = now i q ei nq in
          let (o', eo', no_o', pid') = now j r ej nr in
          u.distinct i j o o' eo no_o eo' no_o' (ground (arith, pid, pid', pids));
    }
