-- ===== src/Family/Tree.antt =====
-- The invariant of parents: every process that can run, or is to be reaped, has a parent that lives.
use octopos.Base.{
  ℕ, ◌≤◌, ◌≡◌, ◌≢◌, refl, sym, ap, subst, ◌∙◌, ◌⊎◌, inl, inr, Option, some, List, arith,
  Option-cases, get_elem?,
}
use octopos.Proc.{Channel, ProcState, unused, used, sleeping, runnable, zombie, ProcInner, wakeup}
use octopos.Proc.Wakeup.{wakeup_lem, wakeup-absent}

-- The process has a program: it sleeps, waits for the CPU or runs.
abbrev pub Alive : ProcState → Type 0
Alive s = (s ≢ unused) × (s ≢ used) × (s ≢ zombie)

-- Process `k` is alive.
abbrev pub Lives : List ProcInner → ℕ → Type 0
Lives ps k = (q : ProcInner) × (get_elem? ps k ≡ some q) × Alive q.state

pub record Family (root : ℕ) (parents : List (Option ℕ)) (ps : List ProcInner) : Type 0 where
  pub root_lives : Lives ps root
  pub parent :
      (j : ℕ) (p : ProcInner)
      → get_elem? ps j ≡ some p
      → p.state ≢ unused
      → p.state ≢ used
      → j ≢ root
      → (k : ℕ) × (get_elem? parents j ≡ some (some k)) × Lives ps k
  -- A process has its parents entry.
  pub entry :
      (j : ℕ) (p : ProcInner)
      → get_elem? ps j ≡ some p
      → (x : Option ℕ) × (get_elem? parents j ≡ some x)

-- The process is asleep on the channel.
abbrev pub AsleepOn : Channel → ProcInner → Type 0
AsleepOn c p = (p.state ≡ sleeping) × (p.channel ≡ some c)

-- A process is as it was, or it slept on one of the channels `on` and is runnable, with a pass that is
-- not smaller and all else the same.
pub record Alike (on : Channel → Type 0) (p q : ProcInner) : Type 0 where
  pub change :
      (q ≡ p)
      ⊎ ((p.state ≡ sleeping)
          × (q.state ≡ runnable)
          × (p.pass ≤ q.pass)
          × ((c : Channel) × on c × (p.channel ≡ some c))
          × (record q { state = p.state; pass = p.pass } ≡ p))

-- A wakeup changes nothing of what the invariant reads.
pub Alike-same :
    {on : Channel → Type 0} (p q : ProcInner)
    → Alike on p q
    → (q.pid ≡ p.pid) × ((q.state ≡ p.state) ⊎ ((p.state ≡ sleeping) × (q.state ≡ runnable)))
Alike-same p q a = elim a.change [
  | inl e ↦ (ap (λ (x : ProcInner). x.pid) e, inl (ap (λ (x : ProcInner). x.state) e))
  | inr (s, r, _, _, e) ↦ (ap (λ (x : ProcInner). x.pid) e, inr (s, r))
]

pub record Woken (on : Channel → Type 0) (ps ps' : List ProcInner) : Type 0 where
  pub forth :
      (j : ℕ) (p : ProcInner)
      → get_elem? ps j ≡ some p
      → (q : ProcInner) × (get_elem? ps' j ≡ some q) × Alike on p q
  pub back :
      (j : ℕ) (q : ProcInner)
      → get_elem? ps' j ≡ some q
      → (p : ProcInner) × (get_elem? ps j ≡ some p) × Alike on p q

module _ (on : Channel → Type 0) where
  pub Woken-self : (ps : List ProcInner) → Woken on ps ps
  Woken-self ps = record {
    forth = λ j p e. (p, e, record { change = inl refl });
    back = λ j q e. (q, e, record { change = inl refl });
  }

  Alike-trans : (p q r : ProcInner) → Alike on p q → Alike on q r → Alike on p r
  Alike-trans p q r a b = elim a.change [
    | inl e ↦ subst (λ x. Alike on x r) e b
    | inr (s, w, _, _, _) ↦ elim b.change [
      | inl e ↦ subst (λ x. Alike on p x) (sym e) a
      | inr (z, _, _, _, _) ↦ absurd (ground (arith, w, z))
    ]
  ]

  pub Woken-trans : (a b c : List ProcInner) → Woken on a b → Woken on b c → Woken on a c
  Woken-trans a b c v w = record {
    forth = λ j p e.
        let (q, eq, l) = v.forth j p e in
        let (r, er, m) = w.forth j q eq in (r, er, Alike-trans p q r l m);
    back = λ j r e.
        let (q, eq, m) = w.back j r e in
        let (p, ep, l) = v.back j q eq in (p, ep, Alike-trans p q r l m);
  }

  Alike-Alive : (p q : ProcInner) → Alike on p q → Alive p.state → Alive q.state
  Alike-Alive p q a l = elim (Alike-same p q a).1 [
    | inl e ↦ subst (λ s. Alive s) (sym e) l
    | inr (_, e) ↦ subst (λ s. Alive s) (sym e) ((λ c. cc), (λ c. cc), (λ c. cc))
  ]

  pub Lives-Woken : (ps ps' : List ProcInner) (k : ℕ) → Woken on ps ps' → Lives ps k → Lives ps' k
  Lives-Woken ps ps' k w (q, e, l) = let (r, er, a) = w.forth k q e in (r, er, Alike-Alive q r a l)

  -- A process that is not unused or used after the wakeup was not before.
  pub busy_before :
      (p q : ProcInner)
      → Alike on p q
      → q.state ≢ unused
      → q.state ≢ used
      → (p.state ≢ unused) × (p.state ≢ used)
  busy_before p q a nu nd = elim (Alike-same p q a).1 [
    | inl e ↦ ((λ c. nu (e ∙ c)), (λ c. nd (e ∙ c)))
    | inr (e, _) ↦ ((λ c. ground (arith, e, c)), (λ c. ground (arith, e, c)))
  ]

module _ (current : Option ℕ) (c : Channel) (ps : List ProcInner) (on : Channel → Type 0)
    (is : on c) where
  woken_at :
      (j : ℕ) (p : ProcInner)
      → get_elem? ps j ≡ some p
      → (q : ProcInner) × (get_elem? (wakeup current c ps) j ≡ some q) × Alike on p q
  woken_at j p e = elim (wakeup_lem current c ps j p e) [
    | inl (w, q, eq, s, le, _, r) ↦ (q, eq, record { change = inr (w.1, s, le, (c, is, w.2), r) })
    | inr (_, eq) ↦ (p, eq, record { change = inl refl })
  ]

  pub wakeup-Woken : Woken on ps (wakeup current c ps)
  wakeup-Woken = record {
    forth = woken_at;
    back = λ j q e. elim (Option-cases (get_elem? ps j)) [
      | inl gone ↦ absurd (ground (arith, wakeup-absent current c ps j gone, e))
      | inr (p, ep) ↦
          let (r, er, a) = woken_at j p ep in
          let same : r ≡ q = ground (arith, er, e) in (p, ep, subst (λ x. Alike on p x) same a)
    ];
  }

-- The caller is not woken up.
pub wakeup_self :
    (me : ℕ) (c : Channel) (ps : List ProcInner) (p : ProcInner)
    → get_elem? ps me ≡ some p
    → get_elem? (wakeup (some me) c ps) me ≡ some p
wakeup_self me c ps p e = elim (wakeup_lem (some me) c ps me p e) [
  | inl (w, _, _, _, _, _, _) ↦ absurd (ground (arith, w.0))
  | inr (_, eq) ↦ eq
]

-- No process but `me` is asleep on the channel.
abbrev pub Quiet : ℕ → Channel → List ProcInner → Type 0
Quiet me c ps = (n : ℕ) (q : ProcInner) → n ≢ me → get_elem? ps n ≡ some q → ¬ AsleepOn c q

pub Quiet-Woken :
    (on : Channel → Type 0) (me : ℕ) (c : Channel) (ps ps' : List ProcInner)
    → Woken on ps ps'
    → Quiet me c ps
    → Quiet me c ps'
Quiet-Woken on me c ps ps' w h n q nm eq asleep =
    let (p, ep, a) = w.back n q eq in
    elim a.change [
      | inl e ↦ h n p nm ep (subst (λ x. AsleepOn c x) e asleep)
      | inr (_, r, _, _, _) ↦ ground (arith, r, asleep.0)
    ]

-- A wakeup leaves no process but the caller asleep on its channel.
pub wakeup-Quiet : (me : ℕ) (c : Channel) (ps : List ProcInner) → Quiet me c (wakeup (some me) c ps)
wakeup-Quiet me c ps n q nm eq asleep = elim (Option-cases (get_elem? ps n)) [
  | inl gone ↦ ground (arith, wakeup-absent (some me) c ps n gone, eq)
  | inr (p, ep) ↦ elim (wakeup_lem (some me) c ps n p ep) [
    | inl (_, q', eq', awake, _, _, _) ↦ absurd (ground (arith, eq, eq', awake, asleep.0))
    | inr (not_waits, same) ↦
        let is : p ≡ q = cc in
        let (s, on) = subst (λ x. AsleepOn c x) (sym is) asleep in
        not_waits (ground (arith, nm), s, on)
  ]
]
