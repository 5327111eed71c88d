-- ===== src/Sleep/Steps.antt =====
-- The lock and the processes under any order of steps: at most one guard, and no wakeup that is lost.
use octopos.Base.{
  ℕ, ◌≡◌, refl, sym, ap, ◌∙◌, ◌⊎◌, inl, inr, Bool, true, false, some, List, [], ◌∷◌, arith,
  Bool-cases, Option-cases, ℕ_discrete, get_elem?, set,
}
use octopos.Proc.{ProcInner, sleeping, running, lock, sleep_inner, wakeup}
use octopos.Proc.Wakeup.{wakeup_lem, wakeup-absent}
use octopos.Sleep.{SleepLockInner, new_lock, lock_round, drop_guard}

-- The lock, the process table, and the processes that hold a guard, the last first.
pub record World : Type 0 where
  pub inner : SleepLockInner
  pub procs : List ProcInner
  pub guards : List ℕ

-- Process `p` sleeps in `lock`.
abbrev pub Sleeps : ℕ → ProcInner → Type 0
Sleeps addr p = (p.state ≡ sleeping) × (p.channel ≡ some (lock addr))

pub data Step (addr : ℕ) (w : World) : World → Type 0 where
  locks :
      (me : ℕ) (p : ProcInner) (inner : SleepLockInner) (procs : List ProcInner)
      → get_elem? w.procs me ≡ some p
      → p.state ≡ running
      → lock_round addr me p w.inner w.procs ≡ (true, inner, procs)
      → Step addr w (record { inner = inner; procs = procs; guards = me ∷ w.guards })
  goes_to_sleep :
      (me : ℕ) (p : ProcInner) (inner : SleepLockInner) (procs : List ProcInner)
      → get_elem? w.procs me ≡ some p
      → p.state ≡ running
      → lock_round addr me p w.inner w.procs ≡ (false, inner, procs)
      → Step addr w (record w { inner = inner; procs = procs })
  drops :
      (me : ℕ) (p : ProcInner) (others : List ℕ)
      → get_elem? w.procs me ≡ some p
      → p.state ≡ running
      → w.guards ≡ me ∷ others
      → Step addr w (record {
        inner = (drop_guard addr (some me) w.inner w.procs).0;
        procs = (drop_guard addr (some me) w.inner w.procs).1;
        guards = others;
      })
  -- Whatever else happens to the processes, it puts none to sleep in `lock`.
  elsewhere :
      (procs : List ProcInner)
      → ((j : ℕ) (q : ProcInner)
          → get_elem? procs j ≡ some q
          → Sleeps addr q
          → (p : ProcInner) × (get_elem? w.procs j ≡ some p) × Sleeps addr p)
      → Step addr w (record w { procs = procs })

pub data Reaches (addr : ℕ) (w : World) : World → Type 0 where
  here : Reaches addr w w
  after : {v x : World} → Reaches addr w v → Step addr v x → Reaches addr w x

-- The lock is free, nobody has a guard and nobody sleeps in `lock`; or it is taken, by one process.
pub record Safe (addr : ℕ) (w : World) : Type 0 where
  pub exclusive :
      ((w.inner.locked ≡ false) × (w.guards ≡ []))
      ⊎ ((w.inner.locked ≡ true) × (me : ℕ) × (w.guards ≡ me ∷ []))
  pub no_lost_wakeup :
      w.inner.locked ≡ false
      → (j : ℕ) (p : ProcInner) → get_elem? w.procs j ≡ some p
      → ¬ Sleeps addr p

-- After `wakeup` by a process that runs, none sleeps on the channel.
wakeup-all :
    (addr me : ℕ) (r : ProcInner) (ps : List ProcInner)
    → get_elem? ps me ≡ some r
    → r.state ≡ running
    → (j : ℕ) (q : ProcInner) → get_elem? (wakeup (some me) (lock addr) ps) j ≡ some q
    → ¬ Sleeps addr q
wakeup-all addr me r ps er run j q eq (asleep, on) = elim (Option-cases (get_elem? ps j)) [
  | inl gone ↦ ground (arith, wakeup-absent (some me) (lock addr) ps j gone, eq)
  | inr (p, ep) ↦ elim (wakeup_lem (some me) (lock addr) ps j p ep) [
    | inl (_, q', eq', awake, _, _, _) ↦ absurd (ground (arith, eq, eq', awake, asleep))
    | inr (not_waits, same) ↦
        let is : p ≡ q = cc in
        elim (ℕ_discrete me j) [
          | no other ↦ not_waits (
            ground (arith, other),
            ap (λ (x : ProcInner). x.state) is ∙ asleep,
            ap (λ (x : ProcInner). x.channel) is ∙ on,
          )
          | yes me_too ↦
              let mine : r ≡ p = ground (arith, er, ep, me_too) in
              absurd (
                ground (
                  arith,
                  run,
                  asleep,
                  ap (λ (x : ProcInner). x.state) is,
                  ap (λ (x : ProcInner). x.state) mine,
                ))
        ]
  ]
]

new_lock-Safe :
    (addr : ℕ) (ps : List ProcInner)
    → ((j : ℕ) (p : ProcInner) → get_elem? ps j ≡ some p → ¬ Sleeps addr p)
    → Safe addr (record { inner = new_lock; procs = ps; guards = [] })
new_lock-Safe addr ps awake = record { exclusive = inl (refl, refl); no_lost_wakeup = λ _. awake }

Step-Safe : (addr : ℕ) (w x : World) → Safe addr w → Step addr w x → Safe addr x
unfolding lock_round drop_guard
Step-Safe addr w x safe (locks me p inner procs at run e) = elim (Bool-cases w.inner.locked) [
  | inl taken ↦ absurd (ground (arith, taken, e))
  | inr clear ↦
      let is : (true, record { locked = true; pid = some p.pid }, w.procs) ≡ (true, inner, procs) =
        ground (arith, clear, e) in
      let held : inner.locked ≡ true =
        sym (ap (λ (t : Bool × SleepLockInner × List ProcInner). t.1.locked) is) in
      elim safe.exclusive [
        | inr (taken, _, _) ↦ absurd (ground (arith, taken, clear))
        | inl (_, nobody) ↦ record {
          exclusive = inr (held, me, ap (λ l. me ∷ l) nobody);
          no_lost_wakeup = λ c. absurd (ground (arith, held, c));
        }
      ]
]
Step-Safe addr w x safe (goes_to_sleep me p inner procs at run e) =
    elim (Bool-cases w.inner.locked) [
      | inr clear ↦ absurd (ground (arith, clear, e))
      | inl taken ↦
          let is : (false, w.inner, set w.procs me (sleep_inner (lock addr) p))
              ≡ (false, inner, procs) =
            ground (arith, taken, e) in
          let held : inner.locked ≡ true =
            sym (ap (λ (t : Bool × SleepLockInner × List ProcInner). t.1.locked) is) ∙ taken in
          elim safe.exclusive [
            | inl (clear, _) ↦ absurd (ground (arith, taken, clear))
            | inr (_, who, g) ↦ record {
              exclusive = inr (held, who, g);
              no_lost_wakeup = λ c. absurd (ground (arith, held, c));
            }
          ]
    ]
Step-Safe addr w x safe (drops me p others at run g) = record {
  exclusive = elim safe.exclusive [
    | inl (_, nobody) ↦ absurd (cc)
    | inr (_, who, one) ↦ let none_left : others ≡ [] = cc in inl (refl, none_left)
  ];
  no_lost_wakeup = λ _. wakeup-all addr me p w.procs at run;
}
Step-Safe addr w x safe (elsewhere procs h) = record {
  exclusive = safe.exclusive;
  no_lost_wakeup =
      λ clear j q e s. let (p, ep, asleep) = h j q e s in safe.no_lost_wakeup clear j p ep asleep;
}

-- From a new lock on which nobody sleeps, whatever steps follow: while the lock is taken exactly one process
-- has a guard; while it is not, none has, and no process sleeps in `lock`, so that no wakeup is lost.
pub Reaches-Safe :
    (addr : ℕ) (ps : List ProcInner) (x : World)
    → ((j : ℕ) (p : ProcInner) → get_elem? ps j ≡ some p → ¬ Sleeps addr p)
    → Reaches addr (record { inner = new_lock; procs = ps; guards = [] }) x
    → Safe addr x
Reaches-Safe addr ps x awake here = new_lock-Safe addr ps awake
Reaches-Safe addr ps x awake (after {v} r s) = Step-Safe addr v x (Reaches-Safe addr ps v awake r) s
