-- ===== src/Family/Fork.antt =====
-- `fork`: the child joins the family under a new pid.
use octopos.Base.{
  ℕ, ◌+◌, ◌≤◌, ◌<◌, ◌≡◌, ◌≢◌, refl, sym, ap, subst, ◌∙◌, ◌⊎◌, false, inl, inr, Bool, Option, some,
  List, [], ◌∷◌, arith, ◌==◌, if◌then◌else◌, Bool-cases, get_elem?, set, get_elem?-set, ℕ_discrete,
  Result, ok, err,
}
use octopos.Proc.{
  usize_mod, unused, used, runnable, ProcInner, Table, Error, out_of_proc, free, alloc_proc,
}
use octopos.Proc.MinPass.{min_pass_lem}
use octopos.Proc.Pids.{Unique, alloc_proc_lem, free_lem, free-Unique, same_pid-Unique}
use octopos.Family.{start_child, fork}
use octopos.Family.Tree.{Alive, Lives, Family}

-- A process without a program has its entry changed: it stays without one, or its parent lives.
replace-Family :
    (root d : ℕ) (parents parents' : List (Option ℕ)) (ps ps' : List ProcInner) (p x : ProcInner)
    → Family root parents ps
    → get_elem? ps d ≡ some p
    → ¬ Alive p.state
    → get_elem? ps' d ≡ some x
    → ((j : ℕ) → j ≢ d → get_elem? ps' j ≡ get_elem? ps j)
    → ((j : ℕ) → j ≢ d → get_elem? parents' j ≡ get_elem? parents j)
    → ((y : Option ℕ) × (get_elem? parents' d ≡ some y))
    → (x.state ≢ unused
        → x.state ≢ used
        → (k : ℕ) × (get_elem? parents' d ≡ some (some k)) × Lives ps k)
    → Family root parents' ps'
replace-Family root d parents parents' ps ps' p x f ep na ex keep keep' entry new = record {
  root_lives = still root f.root_lives;
  parent = λ j q eq nu nd jr. elim (ℕ_discrete j d) [
    | yes same ↦
        let xq : x ≡ q = ground (arith, ex, eq, same) in
        let (k, ek, l) = new (λ c. nu (ground (arith, c, xq))) (λ c. nd (ground (arith, c, xq))) in
        (k, ground (arith, ek, same), still k l)
    | no apart ↦
        let (k, ek, l) = f.parent j q (ground (arith, keep j apart, eq)) nu nd jr in
        (k, ground (arith, keep' j apart, ek), still k l)
  ];
  entry = λ j q eq. elim (ℕ_discrete j d) [
    | yes same ↦ (entry.0, ground (arith, entry.1, same))
    | no apart ↦
        let (y, ey) = f.entry j q (ground (arith, keep j apart, eq)) in
        (y, ground (arith, keep' j apart, ey))
  ];
}
  where
    still : (n : ℕ) → Lives ps n → Lives ps' n
    still n (q, eq, a) = elim (ℕ_discrete n d) [
      | yes same ↦
          let pq : q ≡ p = ground (arith, ep, eq, same) in
          absurd (na (subst (λ (o : ProcInner). Alive o.state) pq a))
      | no apart ↦ (q, ground (arith, keep n apart, eq), a)
    ]

-- The child, made runnable.
record Started (parent_pass : ℕ) (ps ps' : List ProcInner) (id : ℕ) (p : ProcInner) : Type 0 where
  q : ProcInner
  returns : ps' ≡ set ps id q
  kept : (q.state ≡ runnable) × (q.pid ≡ p.pid)
  least : (j : ℕ) (x : ProcInner) → get_elem? ps j ≡ some x → x.state ≡ runnable → q.pass ≤ x.pass

start_child_lem :
    (id parent_pass : ℕ) (ps : List ProcInner) (p : ProcInner)
    → get_elem? ps id ≡ some p
    → Started parent_pass ps (start_child id parent_pass ps) id p
unfolding start_child
start_child_lem id parent_pass ps p e = elim (min_pass_lem (runnable ∷ []) ps) [
  | inl (no_one, absent) ↦ record {
    q = record p { pass = parent_pass; state = runnable };
    returns = ground (arith, e, no_one);
    kept = (refl, refl);
    least = λ j x ex is. absurd (ground (arith, absent j x ex, is));
  }
  | inr (i, m, least, min) ↦ record {
    q = record p { pass = m; state = runnable };
    returns = ground (arith, e, least);
    kept = (refl, refl);
    least = λ j x ex is. min.least j x ex (ground (arith, is));
  }
]

-- What `fork` leaves: an error and the table without a new process in use, or a child.
pub data Ends (pages copied : Bool) (me : ℕ) (parents parents' : List (Option ℕ)) (t t' : Table)
    : Result ℕ Error → Type 0 where
  fails :
      (e : Error)
      → ((e ≡ out_of_proc)
          × ((j : ℕ) (p : ProcInner) → get_elem? t.procs j ≡ some p → p.state ≢ unused))
        ⊎ ((e ≡ Error.alloc) × ((pages ≡ false) ⊎ (copied ≡ false)))
      → parents' ≡ parents
      → ((j : ℕ) (p : ProcInner)
          → get_elem? t'.procs j ≡ some p
          → p.state ≢ unused
          → get_elem? t.procs j ≡ some p)
      → Ends pages copied me parents parents' t t' (err e)
  child :
      (d : ℕ) (p q : ProcInner)
      → get_elem? t.procs d ≡ some p
      → p.state ≡ unused
      → get_elem? t'.procs d ≡ some q
      → q.state ≡ runnable
      → q.pid ≡ t.next_pid
      → get_elem? parents' d ≡ some (some me)
      → ((j : ℕ) → j ≢ d → get_elem? t'.procs j ≡ get_elem? t.procs j)
      → ((j : ℕ) → j ≢ d → get_elem? parents' j ≡ get_elem? parents j)
      → ((j : ℕ) (x : ProcInner)
          → get_elem? t'.procs j ≡ some x
          → x.state ≡ runnable
          → q.pass ≤ x.pass)
      → Ends pages copied me parents parents' t t' (ok t.next_pid)

pub record Forked (pages copied : Bool) (me root : ℕ) (parents : List (Option ℕ)) (t : Table)
    (x : Result ℕ Error × List (Option ℕ) × Table) : Type 0 where
  pub unique : Unique x.2
  pub family : Family root x.1 x.2.procs
  pub counter : x.2.next_pid ≤ t.next_pid + 1
  pub ends : Ends pages copied me parents x.1 t x.2 x.0

-- With the pids unique and their counter not at its end, every process in the family and the caller
-- alive, `fork` keeps both, whether or not the memory can be had. It fails only with no process unused, or
-- without the memory, and then no process is new and the parents are as they were. Otherwise it returns
-- a pid that the counter had not reached, of a process that was unused, is now runnable and a child of
-- the caller, and has no larger pass than any runnable process; all other processes and parents stay.
pub fork_lem :
    (pages copied : Bool) (me root parent_pass : ℕ) (parents : List (Option ℕ)) (t : Table)
    → Unique t
    → Family root parents t.procs
    → Lives t.procs me
    → t.next_pid + 1 < usize_mod
    → Forked pages copied me root parents t (fork pages copied me parent_pass parents t)
unfolding fork
fork_lem pages copied me root parent_pass parents t u f l room =
    let t₁ = (alloc_proc pages t).1 in
    let (u₁, counted, ends) = alloc_proc_lem pages t u room in
    let is : (x : Result ℕ Error × List (Option ℕ) × Table)
        → Forked pages copied me root parents t x
        → fork pages copied me parent_pass parents t ≡ x
        → Forked pages copied me root parents t (fork pages copied me parent_pass parents t) =
      λ x good e. subst (λ y. Forked pages copied me root parents t y) (sym e) good in
    elim ends [
      | inl (full, er, et) ↦
          is (err out_of_proc, parents, t)
            record {
              unique = u;
              family = f;
              counter = omega arith;
              ends = fails out_of_proc (inl (refl, full)) refl (λ j p e _. e);
            }
            (ground (arith, er, et))
      | inr (d, p, q, ep, free_p, _, eq, keep, how) ↦
          let na : ¬ Alive p.state = λ a. a.0 free_p in
          let entry_d = f.entry d p ep in
          let gone : (ps : List ProcInner) (x : ProcInner)
              → get_elem? ps d ≡ some x
              → x.state ≡ unused
              → ((j : ℕ) → j ≢ d → get_elem? ps j ≡ get_elem? t.procs j)
              → (j : ℕ) (o : ProcInner) → get_elem? ps j ≡ some o
              → o.state ≢ unused
              → get_elem? t.procs j ≡ some o =
            λ ps x ex free_x same j o eo used_o. elim (ℕ_discrete j d) [
              | yes here ↦ absurd (used_o (ground (arith, ex, eo, here, free_x)))
              | no there ↦ ground (arith, same j there, eo)
            ] in
          let none_new : (ps : List ProcInner) (x : ProcInner)
              → get_elem? ps d ≡ some x
              → x.state ≡ unused
              → ((j : ℕ) → j ≢ d → get_elem? ps j ≡ get_elem? t.procs j)
              → Family root parents ps =
            λ ps x ex free_x same.
              replace-Family root d parents parents t.procs ps p x f ep na ex same (λ j _. refl)
                entry_d (λ nu. absurd (nu free_x)) in
          elim how [
            | inr (no_pages, er, free_q) ↦
                is (err Error.alloc, parents, t₁)
                  record {
                    unique = u₁;
                    counter = counted;
                    family = none_new t₁.procs q eq free_q keep;
                    ends =
                        fails Error.alloc (inr (refl, inl no_pages)) refl
                          (gone t₁.procs q eq free_q keep);
                  }
                  (ground (arith, er))
            | inl (_, er, used_q, pid) ↦
                let at : (x : ProcInner) (j : ℕ)
                    → get_elem? (set t₁.procs d x) j
                      ≡ (if d == j then some x else get_elem? t₁.procs j) =
                  λ x j. get_elem?-set t₁.procs d j x eq in
                let same : (x : ProcInner) (j : ℕ)
                    → j ≢ d
                    → get_elem? (set t₁.procs d x) j ≡ get_elem? t.procs j =
                  λ x j ne. ground (arith, at x j, keep j ne, ne) in
                elim (Bool-cases copied) [
                  | inl yes_copy ↦
                      let s = start_child_lem d parent_pass t₁.procs q eq in
                      let ps = set t₁.procs d s.q in
                      let ex : get_elem? ps d ≡ some s.q = ground (arith, at s.q d) in
                      let xs = set parents d (some me) in
                      let child_d : get_elem? xs d ≡ some (some me) =
                        ground (arith, get_elem?-set parents d d (some me) entry_d.1) in
                      let other : (j : ℕ) → j ≢ d → get_elem? xs j ≡ get_elem? parents j =
                        λ j ne. ground (arith, get_elem?-set parents d j (some me) entry_d.1, ne) in
                      let pid_q : s.q.pid ≡ t.next_pid = s.kept.1 ∙ pid in
                      is (ok t.next_pid, xs, record t₁ { procs = ps })
                        record {
                          counter = counted;
                          unique =
                              same_pid-Unique t₁ d q s.q u₁ eq (λ c. ground (arith, c, used_q))
                                s.kept.1;
                          family =
                              replace-Family root d parents xs t.procs ps p s.q f ep na ex
                                (same s.q) other (some me, child_d) (λ _ _. (me, child_d, l));
                          ends =
                              child d p s.q ep free_p ex s.kept.0 pid_q child_d (same s.q) other
                                (λ j x ej run. elim (ℕ_discrete d j) [
                                  | yes here ↦
                                      let sx : s.q ≡ x = ground (arith, ex, ej, here) in
                                      omega (arith, ap (λ (o : ProcInner). o.pass) sx)
                                  | no there ↦ s.least j x (ground (arith, at s.q j, ej, there)) run
                                ]);
                        }
                        (ground (arith, er, eq, yes_copy, s.returns, pid))
                  | inr no_copy ↦
                      let ps = set t₁.procs d (free q) in
                      let ex : get_elem? ps d ≡ some (free q) = ground (arith, at (free q) d) in
                      is (err Error.alloc, parents, record t₁ { procs = ps })
                        record {
                          counter = counted;
                          unique = free-Unique t₁ d q u₁ eq;
                          family = none_new ps (free q) ex (free_lem q) (same (free q));
                          ends =
                              fails Error.alloc (inr (refl, inr no_copy)) refl
                                (gone ps (free q) ex (free_lem q) (same (free q)));
                        }
                        (ground (arith, er, eq, no_copy))
                ]
          ]
    ]
