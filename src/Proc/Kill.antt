-- ===== src/Proc/Kill.antt =====
-- `kill`: which process it finds, and what it does to it.
use octopos.Base.{
  ℕ, zero, suc, ◌<◌, ◌≡◌, refl, ◌⊎◌, inl, inr, ◌≢◌, true, false, ◌&&◌, not, List, [], ◌∷◌, some,
  arith, get_elem?, set, ◌==◌, Bool-cases, subst,
}
use octopos.Proc.{ProcInner, unused, sleeping, runnable, state_eq, kill_inner, kill}
use octopos.Proc.Wakeup.{state_eq_iff}

-- A process in use with that pid.
abbrev pub Holds : ℕ → ProcInner → Type 0
Holds pid p = (p.state ≢ unused) × (p.pid ≡ pid)

Holds-dec :
    (pid : ℕ) (p : ProcInner)
    → (Holds pid p × ((not (state_eq p.state unused) && (p.pid == pid)) ≡ true))
      ⊎ ((¬ Holds pid p) × ((not (state_eq p.state unused) && (p.pid == pid)) ≡ false))
Holds-dec pid p = elim (Bool-cases (state_eq p.state unused)) [
  | inl free ↦ inr (λ h. h.0 ((state_eq_iff p.state unused).0 free), ground arith)
  | inr busy ↦ elim (Bool-cases (p.pid == pid)) [
    | inl same ↦ inl ((λ e. ground (arith, e, busy), ground arith), ground arith)
    | inr other ↦ inr (λ h. ground (arith, h.1), ground arith)
  ]
]

-- What `kill` does to a process.
pub record Killed (p q : ProcInner) : Type 0 where
  pub marked : q.killed ≡ true
  pub wakes : p.state ≡ sleeping → q.state ≡ runnable
  pub stays : p.state ≢ sleeping → q.state ≡ p.state
  pub rest : (q.channel ≡ p.channel) × (q.pid ≡ p.pid) × (q.pass ≡ p.pass) × (q.stride ≡ p.stride)

kill_inner-Killed : (p : ProcInner) → Killed p (kill_inner p)
unfolding kill_inner
kill_inner-Killed p = elim (Bool-cases (state_eq p.state sleeping)) [
  | inl asleep ↦ rw asleep (record {
    marked = refl;
    wakes = λ _. refl;
    stays = λ ne. absurd (ne ((state_eq_iff p.state sleeping).0 asleep));
    rest = (refl, refl, refl, refl);
  })
  | inr awake ↦ rw awake (record {
    marked = refl;
    wakes = λ e. absurd (ground (arith, e, awake));
    stays = λ _. refl;
    rest = (refl, refl, refl, refl);
  })
]

head : {x p : ProcInner} → some x ≡ some p → x ≡ p
head e = cc

module _ (pid : ℕ) (x : ProcInner) (ps : List ProcInner) (nh : ¬ Holds pid x) where
  miss :
      ((j : ℕ) (p : ProcInner) → get_elem? ps j ≡ some p → ¬ Holds pid p)
      → (j : ℕ) (p : ProcInner) → get_elem? (x ∷ ps) j ≡ some p
      → ¬ Holds pid p
  miss h zero p e = subst (λ q. ¬ Holds pid q) (head e) nh
  miss h (suc j) p e = h j p e

  miss_before :
      (i : ℕ)
      → ((j : ℕ) (p : ProcInner) → get_elem? ps j ≡ some p → j < i → ¬ Holds pid p)
      → (j : ℕ) (p : ProcInner) → get_elem? (x ∷ ps) j ≡ some p
      → j < suc i
      → ¬ Holds pid p
  miss_before i h zero p e lt = subst (λ q. ¬ Holds pid q) (head e) nh
  miss_before i h (suc j) p e lt = h j p e (omega arith)

-- `kill` finds a process exactly when one in use has the pid. It marks the first such process killed
-- and makes it runnable if it sleeps; nothing else changes.
pub kill_lem :
    (pid : ℕ) (ps : List ProcInner)
    → (((j : ℕ) (p : ProcInner) → get_elem? ps j ≡ some p → ¬ Holds pid p)
        × (kill pid ps ≡ (false, ps)))
      ⊎ ((i : ℕ) × (p : ProcInner) × (get_elem? ps i ≡ some p)
          × Holds pid p
          × ((j : ℕ) (q : ProcInner) → get_elem? ps j ≡ some q → j < i → ¬ Holds pid q)
          × (kill pid ps ≡ (true, set ps i (kill_inner p)))
          × Killed p (kill_inner p))
unfolding kill
kill_lem pid [] = inl (λ j p e. absurd (cc), refl)
kill_lem pid (x ∷ ps) = elim (Holds-dec pid x) [
  | inl (h, test) ↦
      inr (0, x, refl, h, (λ j q e lt. absurd (omega arith)), ground arith, kill_inner-Killed x)
  | inr (nh, test) ↦ elim (kill_lem pid ps) [
    | inl (none_holds, e) ↦ inl (miss pid x ps nh none_holds, ground arith)
    | inr (i, p, ep, h, first, e, k) ↦
        inr (suc i, p, ep, h, miss_before pid x ps nh i first, ground arith, k)
  ]
]
