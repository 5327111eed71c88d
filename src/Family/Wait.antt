-- ===== src/Family/Wait.antt =====
-- `wait`: which child it reaps, and that the family stays whole.
use octopos.Base.{
  ℕ, zero, suc, ◌+◌, ◌≡◌, ◌≢◌, refl, sym, ap, subst, ◌⊎◌, inl, inr, Bool, true, false, ◌&&◌, ◌||◌,
  Option, none, some, List, [], ◌∷◌, arith, ◌==◌, if◌then◌else◌, Bool-cases, get_elem?, set,
  get_elem?-set, ℕ_discrete,
}
use octopos.Proc.{zombie, state_eq, ProcInner, free}
use octopos.Proc.Wakeup.{state_eq_iff}
use octopos.Proc.Pids.{free_lem}
use octopos.Family.{
  is_parent, Found, dead, kids, scan_kids, WaitEnds, reaped, no_child, sleeps, wait,
}
use octopos.Family.Tree.{Lives, Family}

-- Process `j` is `p`, a child of `me`.
abbrev pub Child : ℕ → List (Option ℕ) → List ProcInner → ℕ → ProcInner → Type 0
Child me xs ps j p = (get_elem? xs j ≡ some (some me)) × (get_elem? ps j ≡ some p)

-- What the scan has found, counted from `k` on; `have` is whether there was a child before.
abbrev pub Scanned : ℕ → ℕ → Bool → List (Option ℕ) → List ProcInner → Found → Type 0
Scanned me k have xs ps (dead id q) =
    (d : ℕ) × (id ≡ k + d) × Child me xs ps d q × (q.state ≡ zombie)
Scanned me k have xs ps (kids true) =
    ((have ≡ true) ⊎ ((d : ℕ) × (q : ProcInner) × Child me xs ps d q))
    × ((d : ℕ) (q : ProcInner) → Child me xs ps d q → q.state ≢ zombie)
Scanned me k have xs ps (kids false) =
    (have ≡ false) × ((d : ℕ) (q : ProcInner) → ¬ Child me xs ps d q)

is_parent_iff : (me : ℕ) (x : Option ℕ) → is_parent me x ≡ true → x ≡ some me
is_parent_iff me none e = absurd (ground (arith, e))
is_parent_iff me (some k) e = ap some (ground (arith, e))

module _ (me : ℕ) where
  later :
      (k : ℕ) (have : Bool) (x : Option ℕ) (xs : List (Option ℕ)) (p : ProcInner)
      (ps : List ProcInner) (r : Found)
      → ¬ ((x ≡ some me) × (p.state ≡ zombie))
      → Scanned me (k + 1) (have || is_parent me x) xs ps r
      → Scanned me k have (x ∷ xs) (p ∷ ps) r
  later k have x xs p ps (dead id q) nz (d, e, c, z) = (suc d, omega arith, c, z)
  later k have x xs p ps (kids true) nz (some_kid, live) = (seen some_kid, alive)
    where
      seen :
          ((have || is_parent me x) ≡ true) ⊎ ((d : ℕ) × (q : ProcInner) × Child me xs ps d q)
          → (have ≡ true) ⊎ ((d : ℕ) × (q : ProcInner) × Child me (x ∷ xs) (p ∷ ps) d q)
      seen (inr (d, q, c)) = inr (suc d, q, c)
      seen (inl t) = elim (Bool-cases (is_parent me x)) [
        | inl kid ↦ inr (0, p, (ap some (is_parent_iff me x kid), refl))
        | inr other ↦ inl (ground (arith, t, other))
      ]

      alive : (d : ℕ) (q : ProcInner) → Child me (x ∷ xs) (p ∷ ps) d q → q.state ≢ zombie
      alive zero q (a, b) z = nz (ground (arith, a), ground (arith, b, z))
      alive (suc d) q c z = live d q c z
  later k have x xs p ps (kids false) nz (no_have, no_kid) = (ground (arith, no_have), none_kid)
    where
      none_kid : (d : ℕ) (q : ProcInner) → ¬ Child me (x ∷ xs) (p ∷ ps) d q
      none_kid zero q (a, b) = ground (arith, no_have, a)
      none_kid (suc d) q c = no_kid d q c

  scan_kids_lem :
      (k : ℕ) (have : Bool) (xs : List (Option ℕ)) (ps : List ProcInner)
      → Scanned me k have xs ps (scan_kids me k have xs ps)
  unfolding scan_kids
  scan_kids_lem k true [] ps = (inl refl, λ d q c. absurd (ground (arith, c)))
  scan_kids_lem k false [] ps = (refl, λ d q c. ground (arith, c))
  scan_kids_lem k true (x ∷ xs) [] = (inl refl, λ d q c. absurd (ground (arith, c)))
  scan_kids_lem k false (x ∷ xs) [] = (refl, λ d q c. ground (arith, c))
  scan_kids_lem k have (x ∷ xs) (p ∷ ps) =
      elim (Bool-cases (is_parent me x && state_eq p.state zombie)) [
        | inl hit ↦
            let kid : is_parent me x ≡ true = ground (arith, hit) in
            let z : state_eq p.state zombie ≡ true = ground (arith, hit) in
            let good : Scanned me k have (x ∷ xs) (p ∷ ps) (dead k p) = (
              0,
              omega arith,
              (ap some (is_parent_iff me x kid), refl),
              (state_eq_iff p.state zombie).0 z,
            ) in
            let is : scan_kids me k have (x ∷ xs) (p ∷ ps) ≡ dead k p = ground (arith, hit) in
            subst (λ r. Scanned me k have (x ∷ xs) (p ∷ ps) r) (sym is) good
        | inr miss ↦
            let rest = scan_kids me (k + 1) (have || is_parent me x) xs ps in
            let nz : ¬ ((x ≡ some me) × (p.state ≡ zombie)) =
              λ (a, b). ground (arith, miss, a, (state_eq_iff p.state zombie).1 b) in
            let good =
              later k have x xs p ps rest nz
                (scan_kids_lem (k + 1) (have || is_parent me x) xs ps) in
            let is : scan_kids me k have (x ∷ xs) (p ∷ ps) ≡ rest = ground (arith, miss) in
            subst (λ r. Scanned me k have (x ∷ xs) (p ∷ ps) r) (sym is) good
      ]

-- The table and the parents once zombie `j` is reaped
reap-Family :
    (root j : ℕ) (parents : List (Option ℕ)) (ps : List ProcInner) (q : ProcInner) (x : Option ℕ)
    → Family root parents ps
    → get_elem? parents j ≡ some x
    → get_elem? ps j ≡ some q
    → q.state ≡ zombie
    → Family root (set parents j none) (set ps j (free q))
reap-Family root j parents ps q x f ex eq z =
    let now : (i : ℕ)
        → get_elem? (set ps j (free q)) i ≡ (if j == i then some (free q) else get_elem? ps i) =
      λ i. get_elem?-set ps j i (free q) eq in
    let still : (n : ℕ) → Lives ps n → Lives (set ps j (free q)) n =
      λ n (p, ep, a). (p, ground (arith, now n, ep, eq, z, a), a) in
    record {
      root_lives = still root f.root_lives;
      parent = λ i p ep nu nd ir. elim (ℕ_discrete j i) [
        | yes same ↦ absurd (ground (arith, now i, ep, same, free_lem q, nu))
        | no apart ↦
            let (k, ek, l) = f.parent i p (ground (arith, now i, ep, apart)) nu nd ir in
            (k, ground (arith, get_elem?-set parents j i none ex, ek, apart), still k l)
      ];
      entry = λ i p ep. elim (ℕ_discrete j i) [
        | yes same ↦ (none, ground (arith, get_elem?-set parents j i none ex, same))
        | no apart ↦
            let (y, ey) = f.entry i p (ground (arith, now i, ep, apart)) in
            (y, ground (arith, get_elem?-set parents j i none ex, ey, apart))
      ];
    }

-- What a round of `wait` may come to.
abbrev pub Waited :
    Bool
    → Bool
    → ℕ
    → ℕ
    → List (Option ℕ)
    → List ProcInner
    → Option (WaitEnds × List (Option ℕ) × List ProcInner)
    → Type 0
Waited copies killed me root parents ps x =
    ((j : ℕ) × (q : ProcInner) × Child me parents ps j q
      × (q.state ≡ zombie)
      × (((copies ≡ true)
            × (x ≡ some (reaped q.pid, set parents j none, set ps j (free q)))
            × Family root (set parents j none) (set ps j (free q)))
          ⊎ ((copies ≡ false) × (x ≡ none))))
    ⊎ (((j : ℕ) (q : ProcInner) → Child me parents ps j q → q.state ≢ zombie)
        × (((((j : ℕ) (q : ProcInner) → ¬ Child me parents ps j q) ⊎ (killed ≡ true))
              × (x ≡ some (no_child, parents, ps)))
            ⊎ (((j : ℕ) × (q : ProcInner) × Child me parents ps j q)
                × (killed ≡ false)
                × (x ≡ some (sleeps, parents, ps)))))

-- With every process in the family, a round of `wait` finds a zombie child of the caller if there is
-- one: its pid is returned, its entry is free, and the family is kept; if its status cannot be copied
-- out, the kernel panics. If there is none, the caller learns that it has no child if it has none or
-- was killed, and otherwise has a child and sleeps.
pub wait_lem :
    (copies killed : Bool) (me root : ℕ) (parents : List (Option ℕ)) (ps : List ProcInner)
    → Family root parents ps
    → Waited copies killed me root parents ps (wait copies me killed parents ps)
unfolding wait
wait_lem copies killed me root parents ps f =
    go (scan_kids me 0 false parents ps) refl (scan_kids_lem me 0 false parents ps)
  where
    go :
        (r : Found)
        → scan_kids me 0 false parents ps ≡ r
        → Scanned me 0 false parents ps r
        → Waited copies killed me root parents ps (wait copies me killed parents ps)
    go (dead id q) e (d, ed, c, z) =
        let eid : id ≡ d = omega arith in
        inl (
          d,
          q,
          c,
          z,
          elim (Bool-cases copies) [
            | inl t ↦ inl (
              t,
              ground (arith, e, t, eid),
              reap-Family root d parents ps q (some me) f c.0 c.1 z,
            )
            | inr n ↦ inr (n, ground (arith, e, n))
          ],
        )
    go (kids true) e (some_kid, live) = inr (
      live,
      elim (Bool-cases killed) [
        | inl t ↦ inl (inr t, ground (arith, e, t))
        | inr n ↦ elim some_kid [
          | inl c ↦ absurd (cc)
          | inr kid ↦ inr (kid, n, ground (arith, e, n))
        ]
      ],
    )
    go (kids false) e (_, none_kid) =
        inr (λ d q c. absurd (none_kid d q c), inl (inl none_kid, ground (arith, e)))
