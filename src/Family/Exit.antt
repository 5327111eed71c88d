-- ===== src/Family/Exit.antt =====
-- `exit` and `reparent`: no child is left without a parent that lives.
use octopos.Base.{
  ℕ, zero, suc, ◌≡◌, ◌≢◌, ◌⊎◌, true, none, refl, sym, ap, ◌∙◌, inl, inr, Option, some, List, [],
  ◌∷◌, arith, ◌==◌, if◌then◌else◌, Bool-cases, get_elem?, set, get_elem?-set, ℕ_discrete,
}
use octopos.Proc.{Channel, proc, running, zombie, ProcInner, wakeup}
use octopos.Proc.Wakeup.{wakeup_lem}
use octopos.Family.{is_parent, reparent, exit}
use octopos.Family.Tree.{
  Lives, Family, Alike, AsleepOn, Quiet, Quiet-Woken, wakeup-Quiet, Woken, Woken-self, Woken-trans,
  wakeup-Woken, wakeup_self, Lives-Woken, busy_before,
}

-- `me` has a child.
abbrev pub HasChild : ℕ → List (Option ℕ) → Type 0
HasChild me xs = (j : ℕ) × (get_elem? xs j ≡ some (some me))

module _ (me root : ℕ) where
  -- The new parent
  abbrev pub adopted : Option ℕ → Option ℕ
  adopted x = if is_parent me x then some root else x

  pub record Reparented (on : Channel → Type 0) (xs : List (Option ℕ)) (ps : List ProcInner)
      (r : List (Option ℕ) × List ProcInner) : Type 0 where
    pub woken : Woken on ps r.1
    pub self : (p : ProcInner) → get_elem? ps me ≡ some p → get_elem? r.1 me ≡ some p
    pub entries :
        (j : ℕ) (x : Option ℕ) → get_elem? xs j ≡ some x → get_elem? r.0 j ≡ some (adopted x)
    pub quiet : HasChild me xs → Quiet me (proc root) r.1

  is_parent_iff :
      (x : Option ℕ) → (is_parent me x ≡ true → x ≡ some me) × (x ≡ some me → is_parent me x ≡ true)
  is_parent_iff none = ((λ e. absurd (cc)), (λ e. absurd (cc)))
  is_parent_iff (some p) = ((λ e. ground (arith, e)), (λ e. ground (arith, e)))

  pub reparent_lem :
      (on : Channel → Type 0) (xs : List (Option ℕ)) (ps : List ProcInner)
      → (HasChild me xs → on (proc root))
      → Reparented on xs ps (reparent me root xs ps)
  unfolding reparent
  reparent_lem on [] ps h = record {
    woken = Woken-self on ps;
    self = λ p e. e;
    entries = λ j x e. absurd (cc);
    quiet = λ c. absurd (ground (arith, c.1));
  }
  reparent_lem on (x ∷ xs) ps h =
      let ps' : List ProcInner = if is_parent me x then wakeup (some me) (proc root) ps else ps in
      let r = reparent_lem on xs ps' (λ c. h (suc c.0, c.1)) in
      let w : Woken on ps ps' = elim (Bool-cases (is_parent me x)) [
        | inl yes_kid ↦ rw yes_kid (
            wakeup-Woken (some me) (proc root) ps on (h (0, ap some ((is_parent_iff x).0 yes_kid))))
        | inr no_kid ↦ rw no_kid (Woken-self on ps)
      ] in
      let s : (p : ProcInner) → get_elem? ps me ≡ some p → get_elem? ps' me ≡ some p = λ p e.
        elim (Bool-cases (is_parent me x)) [
          | inl yes_kid ↦ rw yes_kid (wakeup_self me (proc root) ps p e)
          | inr no_kid ↦ rw no_kid e
        ] in
      record {
        woken = Woken-trans on ps ps' (reparent me root xs ps').1 w r.woken;
        self = λ p e. r.self p (s p e);
        entries = at on x xs ps' r;
        quiet = λ c. hushed on x xs ps r c.0 c.1;
      }
    where
      at :
          (on : Channel → Type 0) (x : Option ℕ) (xs : List (Option ℕ)) (ps' : List ProcInner)
          → Reparented on xs ps' (reparent me root xs ps')
          → (j : ℕ) (y : Option ℕ) → get_elem? (x ∷ xs) j ≡ some y
          → get_elem? (adopted x ∷ (reparent me root xs ps').0) j ≡ some (adopted y)
      at on x xs ps' r zero y e = ground (arith, e)
      at on x xs ps' r (suc j) y e = r.entries j y e

      hushed :
          (on : Channel → Type 0) (x : Option ℕ) (xs : List (Option ℕ)) (ps : List ProcInner)
          → let ps' = if is_parent me x then wakeup (some me) (proc root) ps else ps in
            Reparented on xs ps' (reparent me root xs ps')
            → (j : ℕ) → get_elem? (x ∷ xs) j ≡ some (some me)
            → Quiet me (proc root) (reparent me root xs ps').1
      hushed on x xs ps r zero e =
          let kid : is_parent me x ≡ true = (is_parent_iff x).1 (ground (arith, e)) in
          let ps' : List ProcInner =
            if is_parent me x then wakeup (some me) (proc root) ps else ps in
          Quiet-Woken on me (proc root) ps' (reparent me root xs ps').1 r.woken
            (rw kid (wakeup-Quiet me (proc root) ps))
      hushed on x xs ps r (suc j) e = r.quiet (j, e)

-- The parent that a child of a living process has after `reparent` lives.
heir :
    (me root : ℕ) (ps : List ProcInner) (k : ℕ)
    → Lives ps root
    → Lives ps k
    → Lives ps (if k == me then root else k)
heir me root ps k lr lk = elim (Bool-cases (k == me)) [
  | inl mine ↦ rw mine lr
  | inr other ↦ rw other lk
]

-- The channels that `exit` wakes up.
abbrev pub Heard : ℕ → ℕ → List (Option ℕ) → List (Option ℕ) → Channel → Type 0
Heard me root parents parents' c =
    (HasChild me parents × (c ≡ proc root))
    ⊎ ((k : ℕ) × (get_elem? parents' me ≡ some (some k)) × (c ≡ proc k))

-- What `exit` has done.
pub record Exited (me root status : ℕ) (p : ProcInner) (parents : List (Option ℕ))
    (ps : List ProcInner) (x : Option (List (Option ℕ) × List ProcInner)) : Type 0 where
  pub parents' : List (Option ℕ)
  pub procs : List ProcInner
  pub returns : x ≡ some (parents', procs)
  pub family : Family root parents' procs
  pub dead : get_elem? procs me ≡ some (record p { xstate = status; state = zombie })
  pub children :
      (j : ℕ) (k : Option ℕ)
      → get_elem? parents j ≡ some k
      → get_elem? parents' j ≡ some (adopted me root k)
  -- The parent, which lives, is not asleep waiting for its children.
  pub heard :
      (k : ℕ) × (q : ProcInner) × (get_elem? parents' me ≡ some (some k))
      × (k ≢ me)
      × (get_elem? procs k ≡ some q)
      × ¬ AsleepOn (proc k) q
  -- If it had children, the root, which they are handed to, is not asleep waiting for its own.
  pub root_heard :
      HasChild me parents
      → (q : ProcInner) → get_elem? procs root ≡ some q
      → ¬ AsleepOn (proc root) q
  -- All other processes are as they were, or were asleep and are woken up: on the channel of the
  -- caller's parent, or, if the caller had children, on the root's.
  pub others :
      (j : ℕ) (q : ProcInner)
      → j ≢ me
      → get_elem? procs j ≡ some q
      → (p' : ProcInner) × (get_elem? ps j ≡ some p') × Alike (Heard me root parents parents') p' q

-- With every process in the family, and the caller running and not the root, `exit` does not panic. The
-- caller becomes a zombie with its status, its children become the root's, all other parents stay.
-- Its parent, and, if it had children, the root too, is not left asleep in `wait`. Every other process is
-- as it was, or it slept on the channel of the caller's parent, or, if the caller had children, of the
-- root: then it may be woken up, runnable, with a pass that is not smaller and all else the same. Every
-- process is in the family again.
pub exit_lem :
    (me root status : ℕ) (parents : List (Option ℕ)) (ps : List ProcInner) (p : ProcInner)
    → Family root parents ps
    → get_elem? ps me ≡ some p
    → p.state ≡ running
    → me ≢ root
    → Exited me root status p parents ps (exit me root status parents ps)
unfolding exit
exit_lem me root status parents ps p f e run nr =
    let xs = (reparent me root parents ps).0 in
    let on : Channel → Type 0 = Heard me root parents xs in
    let r = reparent_lem me root on parents ps (λ c. inl (c, refl)) in
    let ps₁ = (reparent me root parents ps).1 in
    let (k₀, ek₀, lives₀) =
      f.parent me p e (λ c. ground (arith, run, c)) (λ c. ground (arith, run, c)) nr in
    let k : ℕ = if k₀ == me then root else k₀ in
    let ek : get_elem? xs me ≡ some (some k) = ground (arith, r.entries me (some k₀) ek₀) in
    let kn : k ≢ me = ground (arith, nr) in
    let ps₂ = wakeup (some me) (proc k) ps₁ in
    let e₂ = wakeup_self me (proc k) ps₁ p (r.self p e) in
    let w₂ = wakeup-Woken (some me) (proc k) ps₁ on (inr (k, ek, refl)) in
    let w = Woken-trans on ps ps₁ ps₂ r.woken w₂ in
    let corpse : ProcInner = record p { xstate = status; state = zombie } in
    let now : (j : ℕ)
        → get_elem? (set ps₂ me corpse) j ≡ (if me == j then some corpse else get_elem? ps₂ j) =
      λ j. get_elem?-set ps₂ me j corpse e₂ in
    let procs = set ps₂ me corpse in
    let still : (n : ℕ) → n ≢ me → Lives ps n → Lives procs n = λ n ne l.
      let (q, eq, a) = Lives-Woken on ps ps₂ n w l in (q, ground (arith, now n, eq, ne), a) in
    let other : (j : ℕ) (q : ProcInner)
        → j ≢ me
        → get_elem? procs j ≡ some q
        → (p' : ProcInner) × (get_elem? ps j ≡ some p') × Alike on p' q =
      λ j q ne eq. w.back j q (ground (arith, now j, eq, ne)) in
    record {
      parents' = xs;
      procs = procs;
      returns = ground (arith, nr, ek, e₂);
      family = record {
        root_lives = still root (λ c. nr (sym c)) f.root_lives;
        parent = λ j q eq nu nd jr. elim (ℕ_discrete j me) [
          | yes mine ↦ (
            k,
            ap (λ i. get_elem? xs i) mine ∙ ek,
            still k kn (heir me root ps k₀ f.root_lives lives₀),
          )
          | no apart ↦
              let (p₀, ep₀, a) = other j q apart eq in
              let (nu₀, nd₀) = busy_before on p₀ q a nu nd in
              let (kj, ekj, lj) = f.parent j p₀ ep₀ nu₀ nd₀ jr in
              let n : ℕ = if kj == me then root else kj in
              (
                n,
                ground (arith, r.entries j (some kj) ekj),
                still n (ground (arith, nr)) (heir me root ps kj f.root_lives lj),
              )
        ];
        entry = λ j q eq. elim (ℕ_discrete j me) [
          | yes mine ↦ (some k, ap (λ i. get_elem? xs i) mine ∙ ek)
          | no apart ↦
              let (p₀, ep₀, _) = other j q apart eq in
              let (x, ex) = f.entry j p₀ ep₀ in (adopted me root x, r.entries j x ex)
        ];
      };
      dead = ground (arith, now me);
      children = r.entries;
      heard =
          let (q₁, eq₁, _) =
            Lives-Woken on ps ps₁ k r.woken (heir me root ps k₀ f.root_lives lives₀) in
          elim (wakeup_lem (some me) (proc k) ps₁ k q₁ eq₁) [
            | inl (_, q, eq, s, _, _, _) ↦
                (k, q, ek, kn, ground (arith, now k, eq, kn), λ c. ground (arith, s, c.0))
            | inr (nw, eq) ↦ (
              k,
              q₁,
              ek,
              kn,
              ground (arith, now k, eq, kn),
              λ c. nw (ground (arith, kn), c.0, c.1),
            )
          ];
      root_heard = λ kids q eq.
          Quiet-Woken on me (proc root) ps₁ ps₂ w₂ (r.quiet kids) root q (λ c. nr (sym c))
            (ground (arith, now root, eq, nr));
      others = other;
    }
