-- ===== src/Family/Kept.antt =====
-- What a change of the process table may do and keep it orderly.
use octopos.Base.{
  ℕ, ◌≡◌, ◌≢◌, refl, sym, subst, ◌∙◌, ◌⊎◌, inl, inr, none, some, List, arith, ◌==◌, zero, suc, [],
  ◌∷◌, ◌-◌, map, get_elem?-map, Option-cases, Bool-cases, leb, ◌&&◌, ◌%◌, ◌/◌, Result, ok, ap,
  if◌then◌else◌, get_elem?, set, get_elem?-set, ℕ_discrete,
}
use octopos.Proc.{
  Channel, Error, normalize, normalized, set_tickets, large_number, ProcState, unused, used, zombie,
  ProcInner, Table, dispatch, runs, retry, switch_back,
}
use octopos.Proc.Pids.{Unique}
use octopos.Family.Tree.{Alive, Lives, Alike, Alike-same, Woken}
use octopos.Family.Steps.{World, with_procs, Orderly}

-- The processes in use were there before, under the same pids.
abbrev pub Covers : List ProcInner → List ProcInner → Type 0
Covers ps ps' =
    (j : ℕ) (q : ProcInner)
    → get_elem? ps' j ≡ some q
    → q.state ≢ unused
    → (p : ProcInner) × (get_elem? ps j ≡ some p) × (p.state ≢ unused) × (p.pid ≡ q.pid)

pub Covers-Unique :
    (t : Table) (ps : List ProcInner)
    → Unique t
    → Covers t.procs ps
    → Unique (record t { procs = ps })
Covers-Unique t ps u c = record {
  fresh =
      λ j q e nq. let (o, eo, no_o, pid) = c j q e nq in ground (arith, u.fresh j o eo no_o, pid);
  distinct = λ i j q r ei nq ej nr pids.
      let (o, eo, no_o, pid) = c i q ei nq in
      let (o', eo', no_o', pid') = c j r ej nr in
      u.distinct i j o o' eo no_o eo' no_o' (ground (arith, pid, pid', pids));
}

-- A process keeps its pid, and lives exactly if it did, or keeps its state.
abbrev pub Same : ProcInner → ProcInner → Type 0
Same p q = (q.pid ≡ p.pid) × ((q.state ≡ p.state) ⊎ (Alive p.state × Alive q.state))

pub record Kept (ps ps' : List ProcInner) : Type 0 where
  pub forth :
      (j : ℕ) (p : ProcInner)
      → get_elem? ps j ≡ some p
      → (q : ProcInner) × (get_elem? ps' j ≡ some q) × Same p q
  pub back :
      (j : ℕ) (q : ProcInner)
      → get_elem? ps' j ≡ some q
      → (p : ProcInner) × (get_elem? ps j ≡ some p) × Same p q

pub Kept-Orderly :
    (root : ℕ) (w : World) (ps : List ProcInner)
    → Orderly root w
    → Kept w.table.procs ps
    → Orderly root (with_procs w ps)
Kept-Orderly root w ps o k = record {
  unique = Covers-Unique w.table ps o.unique (λ j q e nu.
      let (p, ep, (pid, s)) = k.back j q e in
      (p, ep, elim s [ inl same ↦ (λ c. nu (same ∙ c)) | inr (a, _) ↦ a.0 ], sym pid));
  family = record {
    root_lives = still root o.family.root_lives;
    parent = λ j q e nu nd jr.
        let (p, ep, (_, s)) = k.back j q e in
        let (x, ex, l) =
          o.family.parent j p ep (elim s [ inl same ↦ (λ c. nu (same ∙ c)) | inr (a, _) ↦ a.0 ])
            (elim s [ inl same ↦ (λ c. nd (same ∙ c)) | inr (a, _) ↦ a.1 ]) jr in
        (x, ex, still x l);
    entry = λ j q e. let (p, ep, _) = k.back j q e in o.family.entry j p ep;
  };
}
  where
    still : (n : ℕ) → Lives w.table.procs n → Lives ps n
    still n (p, ep, a) =
        let (q, eq, (_, s)) = k.forth n p ep in
        (q, eq, elim s [ inl same ↦ subst (λ x. Alive x) (sym same) a | inr (_, l) ↦ l ])

pub set-Kept :
    (ps : List ProcInner) (i : ℕ) (p x : ProcInner)
    → get_elem? ps i ≡ some p
    → Same p x
    → Kept ps (set ps i x)
set-Kept ps i p x e s = record {
  forth = λ j q eq. elim (ℕ_discrete i j) [
    | yes same ↦ (
      x,
      ground (arith, now j, same),
      let pq : p ≡ q = ground (arith, e, eq, same) in subst (λ y. Same y x) pq s,
    )
    | no other ↦ (q, ground (arith, now j, eq, other), (refl, inl refl))
  ];
  back = λ j q eq. elim (ℕ_discrete i j) [
    | yes same ↦ (
      p,
      ground (arith, e, same),
      let xq : x ≡ q = ground (arith, now j, eq, same) in subst (λ y. Same p y) xq s,
    )
    | no other ↦ (q, ground (arith, now j, eq, other), (refl, inl refl))
  ];
}
  where
    now : (j : ℕ) → get_elem? (set ps i x) j ≡ (if i == j then some x else get_elem? ps j)
    now j = get_elem?-set ps i j x e

pub charged : (p : ProcInner) → Same p (switch_back p)
unfolding switch_back
charged p = (refl, inl refl)

pub some_inj {ℓ} : {A : Type ℓ} {x y : A} → some x ≡ some y → x ≡ y
some_inj e = cc

pub lives : {s t : ProcState} → s ≡ t → t ≢ unused → t ≢ used → t ≢ zombie → Alive s
lives e a b c = ((λ d. a (sym e ∙ d)), (λ d. b (sym e ∙ d)), (λ d. c (sym e ∙ d)))

Alike-Same : (on : Channel → Type 0) (p q : ProcInner) → Alike on p q → Same p q
Alike-Same on p q a = (
  (Alike-same p q a).0,
  elim (Alike-same p q a).1 [
    | inl same ↦ inl same
    | inr (s, r) ↦
        inr (lives s (λ c. cc) (λ c. cc) (λ c. cc), lives r (λ c. cc) (λ c. cc) (λ c. cc))
  ],
)

pub Woken-Kept : (on : Channel → Type 0) (ps ps' : List ProcInner) → Woken on ps ps' → Kept ps ps'
Woken-Kept on ps ps' w = record {
  forth = λ j p e. let (q, eq, a) = w.forth j p e in (q, eq, Alike-Same on p q a);
  back = λ j q e. let (p, ep, a) = w.back j q e in (p, ep, Alike-Same on p q a);
}

pub dispatch-absent : (ps : List ProcInner) (i : ℕ) → get_elem? ps i ≡ none → dispatch ps i ≡ retry
unfolding dispatch
dispatch-absent ps i e = ground (arith, e)

pub runs_inj : {a b : List ProcInner} → runs a ≡ runs b → a ≡ b
runs_inj e = cc

pub normalized_inj : {a b : List ProcInner} → normalized a ≡ normalized b → a ≡ b
normalized_inj e = cc

pub normalize-Kept : (m : ℕ) (ps : List ProcInner) → Kept ps (normalize m ps)
normalize-Kept m ps = record {
  forth = λ j p e. (lowered p, get_elem?-map lowered ps j e, (refl, inl refl));
  back = λ j q e. elim (Option-cases (get_elem? ps j)) [
    | inl gone ↦ absurd (ground (arith, map-absent lowered ps j gone, e))
    | inr (p, ep) ↦
        let same : lowered p ≡ q = some_inj (sym (get_elem?-map lowered ps j ep) ∙ e) in
        (p, ep, subst (λ y. Same p y) same (refl, inl refl))
  ];
}
  where
    lowered : ProcInner → ProcInner
    lowered p = record p { pass = p.pass - m }

    map-absent :
        (f : ProcInner → ProcInner) (xs : List ProcInner) (j : ℕ)
        → get_elem? xs j ≡ none
        → get_elem? (map f xs) j ≡ none
    map-absent f [] j e = refl
    map-absent f (x ∷ xs) zero e = absurd (cc)
    map-absent f (x ∷ xs) (suc j) e = map-absent f xs j e

-- `set_tickets` changes the tickets and the stride.
pub tickets-Same :
    (p q : ProcInner) (tickets : ℕ)
    → set_tickets p tickets ≡ ok q
    → (q.pid ≡ p.pid) × (q.state ≡ p.state)
unfolding set_tickets
tickets-Same p q tickets e =
    elim (Bool-cases (leb 10 tickets && leb tickets 150 && (tickets % 10 == 0))) [
      | inl right ↦
          let is : record p { tickets = tickets; stride = large_number / tickets } ≡ q =
            ok_inj (ground (arith, right, e)) in
          (ap (λ (x : ProcInner). x.pid) (sym is), ap (λ (x : ProcInner). x.state) (sym is))
      | inr wrong ↦ absurd (ground (arith, wrong, e))
    ]
  where
    ok_inj : {a b : ProcInner} → ◌≡◌ {A = Result ProcInner Error} (ok a) (ok b) → a ≡ b
    ok_inj e = cc
