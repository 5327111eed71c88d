-- ===== src/Vm/Supply.antt =====
-- When `PageTable::walk_mut` and `map_pages` run out of memory: only if the page allocator refuses.
use octopos.Base.{
  subst, ◌%◌, Bool-cases, ok, refl, Result, inl, inr, ℕ, suc, ◌≤◌, ◌<◌, ◌≡◌, refl, ◌⊎◌, inl, inr,
  Option, none, some, List, [], ◌∷◌, arith, get_elem?, Option-cases, err,
}
use octopos.Vm.{
  VmError, has, pte_v, PageTable, Phys, alloc, maxva, pgsize, px2, px1, zalloc, child, walk_alloc,
  fails, map_from, map_pages,
}

-- The page allocator refuses one of the next `n` requests.
abbrev pub Refuses : ℕ → List (Option ℕ) → Type 0
Refuses n s = (k : ℕ) × (k < n) × ((get_elem? s k ≡ none) ⊎ (get_elem? s k ≡ some none))

pub Refuses-le : (m n : ℕ) (s : List (Option ℕ)) → m ≤ n → Refuses m s → Refuses n s
Refuses-le m n s le (k, low, r) = (k, omega arith, r)

-- `zalloc` takes the answer to one request, and fails if that is a refusal.
zalloc_next :
    (refs : ℕ → ℕ) (mem : ℕ → ℕ → ℕ) (s : List (Option ℕ))
    → let p : Phys = record { refs = refs; mem = mem; supply = s } in
      ((zalloc p).0 ≡ none → Refuses 1 s)
      × ((n : ℕ) → Refuses n (zalloc p).1.supply → Refuses (suc n) s)
unfolding zalloc
zalloc_next refs mem [] = ((λ _. (0, omega arith, inl refl)), (λ n _. (0, omega arith, inl refl)))
zalloc_next refs mem (none ∷ s) =
    ((λ _. (0, omega arith, inr refl)), (λ n _. (0, omega arith, inr refl)))
zalloc_next refs mem (some q ∷ s) =
    ((λ e. absurd (cc)), (λ n r. (suc r.0, omega (arith, r.1), r.2)))

module _ (p : Phys) where
  pub zalloc-fails : (zalloc p).0 ≡ none → Refuses 1 p.supply
  zalloc-fails = (zalloc_next p.refs p.mem p.supply).0

  pub zalloc-rest : (n : ℕ) → Refuses n (zalloc p).1.supply → Refuses (suc n) p.supply
  zalloc-rest = (zalloc_next p.refs p.mem p.supply).1

  child-fails :
      {A : Type 0} (o : Option A) (fresh : A) → (child o fresh p).0 ≡ none → Refuses 1 p.supply
  unfolding child
  child-fails (some x) fresh e = absurd (cc)
  child-fails none fresh e = elim (Option-cases (zalloc p).0) [
    | inl failed ↦ zalloc-fails failed
    | inr (pa, got) ↦ absurd (ground (arith, got, e))
  ]

  child-rest :
      {A : Type 0} (o : Option A) (fresh : A) (n : ℕ)
      → Refuses n (child o fresh p).1.supply
      → Refuses (suc n) p.supply
  unfolding child
  child-rest (some x) fresh n r = Refuses-le n (suc n) p.supply (omega arith) r
  child-rest none fresh n r = zalloc-rest n r

-- `walk_mut` fails with `Alloc` only if one of the two tables that it may add is refused.
walk_alloc-fails :
    (t : PageTable) (va : ℕ) (p : Phys)
    → va < maxva
    → (walk_alloc t va p).0 ≡ err alloc
    → Refuses 2 p.supply
unfolding walk_alloc
walk_alloc-fails t va p h e =
    let c₁ = child (t (px2 va)) (λ _. none) p in
    elim (Option-cases c₁.0) [
      | inl failed ↦
          Refuses-le 1 2 p.supply (omega arith) (child-fails p (t (px2 va)) (λ _. none) failed)
      | inr (m, e₁) ↦
          let c₀ = child (m (px1 va)) (λ _. 0) c₁.1 in
          elim (Option-cases c₀.0) [
            | inl failed ↦
                child-rest p (t (px2 va)) (λ _. none) 1
                  (child-fails c₁.1 (m (px1 va)) (λ _. 0) failed)
            | inr (l, e₀) ↦ absurd (ground (arith, e, e₁, e₀))
          ]
    ]

-- So does the mapping of one page.
pub map_page-fails :
    (va pa perm : ℕ) (t : PageTable) (p : Phys)
    → va < maxva
    → (map_pages va pa pgsize perm t p).0 ≡ fails alloc
    → Refuses 2 p.supply
unfolding map_pages map_from
map_page-fails va pa perm t p h e = walk_alloc-fails t va p h (ground (arith, e))

-- What is left of the answers after `walk_mut`, and after the mapping of one page
walk_alloc-rest :
    (t : PageTable) (va : ℕ) (p : Phys) (n : ℕ)
    → va < maxva
    → Refuses n (walk_alloc t va p).2.supply
    → Refuses (suc (suc n)) p.supply
unfolding walk_alloc
walk_alloc-rest t va p n h r =
    let c₁ = child (t (px2 va)) (λ _. none) p in
    elim (Option-cases c₁.0) [
      | inl failed ↦ Refuses-le (suc n) (suc (suc n)) p.supply (omega arith) (
          child-rest p (t (px2 va)) (λ _. none) n
            (subst (λ s. Refuses n s) (ground (arith, failed)) r))
      | inr (m, e₁) ↦
          let c₀ = child (m (px1 va)) (λ _. 0) c₁.1 in
          let left : (walk_alloc t va p).2.supply ≡ c₀.1.supply = elim (Option-cases c₀.0) [
            | inl failed ↦ ground (arith, e₁, failed)
            | inr (l, e₀) ↦ ground (arith, e₁, e₀)
          ] in
          child-rest p (t (px2 va)) (λ _. none) (suc n)
            (child-rest c₁.1 (m (px1 va)) (λ _. 0) n (subst (λ s. Refuses n s) left r))
    ]

pub map_page-rest :
    (va pa perm : ℕ) (t : PageTable) (p : Phys) (n : ℕ)
    → va < maxva
    → va % pgsize ≡ 0
    → Refuses n (map_pages va pa pgsize perm t p).2.supply
    → Refuses (suc (suc n)) p.supply
unfolding map_pages map_from
map_page-rest va pa perm t p n h al r =
    let x = walk_alloc t va p in
    let left : (map_pages va pa pgsize perm t p).2.supply ≡ x.2.supply = elim (result-cases x.0) [
      | inr (e, is) ↦ ground (arith, al, is)
      | inl (pte, is) ↦ elim (Bool-cases (has pte_v pte)) [
        | inl there ↦ ground (arith, al, is, there)
        | inr absent ↦ ground (arith, al, is, absent)
      ]
    ] in
    walk_alloc-rest t va p n h (subst (λ s. Refuses n s) left r)
  where
    result-cases : (r : Result ℕ VmError) → ((x : ℕ) × (r ≡ ok x)) ⊎ ((e : VmError) × (r ≡ err e))
    result-cases (ok x) = inl (x, refl)
    result-cases (err e) = inr (e, refl)
