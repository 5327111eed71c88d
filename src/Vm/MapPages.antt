-- ===== src/Vm/MapPages.antt =====
-- `map_pages` against the view of the table.
use octopos.Base.{
  ℕ, zero, suc, ◌+◌, ◌-◌, ◌*◌, ◌/◌, ◌%◌, ◌≤◌, ◌<◌, ◌≡◌, ◌≢◌, refl, sym, ap, subst, ◌∙◌, ◌⊎◌, inl,
  inr, false, arith, ◌==◌, if◌then◌else◌, ℕ_discrete,
}
use octopos.Vm.{
  PageTable, Phys, alloc, maxva, pgsize, has, pte_v, entry, walk_alloc, set_pte, Outcome, done,
  fails, map_from, map_pages,
}
use octopos.Vm.Pages.{Grew, Grew-self, Grew-trans}
use octopos.Vm.Walk.{view, walk_alloc_lem, set_pte-view}

-- The page of `va'` is one of `k` pages from `va` on.
abbrev pub Within : ℕ → ℕ → ℕ → Type 0
Within va k va' = (va / pgsize ≤ va' / pgsize) × (va' / pgsize < va / pgsize + k)

-- The entry that maps the page of `va'`
abbrev pub target : ℕ → ℕ → ℕ → ℕ → ℕ
target va pa perm va' = entry (pa + (va' / pgsize * pgsize - va)) perm

-- How the loop over `k` pages ends, and what the table shows then. After an error, `m` pages are mapped.
pub record Mapped (k va pa perm : ℕ) (t : PageTable) (p : Phys) (x : Outcome × PageTable × Phys)
    : Type 0 where
  pub grew : Grew p x.2
  pub pages : ℕ
  pub few : pages ≤ k
  pub ends : ((x.0 ≡ done) × (pages ≡ k)) ⊎ ((x.0 ≡ fails alloc) × (pages < k))
  pub inside : (va' : ℕ) → va' < maxva → Within va pages va' → view x.1 va' ≡ target va pa perm va'
  pub outside : (va' : ℕ) → va' < maxva → ¬ Within va pages va' → view x.1 va' ≡ view t va'

module _ (perm : ℕ) where
  none_mapped :
      (k va pa : ℕ) (t : PageTable) (p : Phys) (t' : PageTable) (p' : Phys)
      → Grew p p'
      → ((va' : ℕ) → va' < maxva → view t' va' ≡ view t va')
      → Mapped (suc k) va pa perm t p (fails alloc, t', p')
  none_mapped k va pa t p t' p' g same = record {
    grew = g;
    pages = 0;
    few = omega arith;
    ends = inr (refl, omega arith);
    inside = λ va' h w. absurd (omega (arith, w));
    outside = λ va' h w. same va' h;
  }

  -- One page mapped, and what the rest of the loop does.
  one_more :
      (k va pa : ℕ) (t t₁ : PageTable) (p p₁ : Phys) (x : Outcome × PageTable × Phys)
      → va % pgsize ≡ 0
      → Grew p p₁
      → ((va' : ℕ)
          → va' < maxva
          → view t₁ va' ≡ (if va' / pgsize == va / pgsize then entry pa perm else view t va'))
      → Mapped k (va + pgsize) (pa + pgsize) perm t₁ p₁ x
      → Mapped (suc k) va pa perm t p x
  one_more k va pa t t₁ p p₁ x al g shown m = record {
    grew = Grew-trans p p₁ x.2 g m.grew;
    pages = suc m.pages;
    few = omega (arith, m.few);
    ends = elim m.ends [
      | inl (e, all) ↦ inl (e, omega (arith, all))
      | inr (e, part) ↦ inr (e, omega (arith, part))
    ];
    inside = λ va' h w. elim (ℕ_discrete (va' / pgsize) (va / pgsize)) [
      | yes same ↦
          let off : pa ≡ pa + (va' / pgsize * pgsize - va) = omega arith in
          m.outside va' h (λ w'. omega (arith, w', same))
          ∙ (ground (arith, shown va' h, same) ∙ ap (λ a. entry a perm) off)
      | no other ↦
          let off : pa + pgsize + (va' / pgsize * pgsize - (va + pgsize))
              ≡ pa + (va' / pgsize * pgsize - va) =
            omega (arith, w, other) in
          m.inside va' h (omega (arith, w, other), omega (arith, w)) ∙ ap (λ a. entry a perm) off
    ];
    outside = λ va' h w.
        let other : va' / pgsize ≢ va / pgsize = λ e. w (omega (arith, e), omega (arith, e)) in
        m.outside va' h (λ w'. w (omega (arith, w'), omega (arith, w')))
        ∙ ground (arith, shown va' h, other);
  }

  pub map_from_lem :
      (k va pa : ℕ) (t : PageTable) (p : Phys)
      → va % pgsize ≡ 0
      → va + k * pgsize ≤ maxva
      → ((va' : ℕ) → va' < maxva → Within va k va' → has pte_v (view t va') ≡ false)
      → Mapped k va pa perm t p (map_from k va pa perm t p)
  unfolding map_from
  map_from_lem zero va pa t p al top free = record {
    grew = Grew-self p;
    pages = 0;
    few = omega arith;
    ends = inl (refl, refl);
    inside = λ va' h w. absurd (omega (arith, w));
    outside = λ va' h w. refl;
  }
  map_from_lem (suc k) va pa t p al top free =
      let x = walk_alloc t va p in
      let w = walk_alloc_lem t va p (omega arith) in
      let here = free va (omega arith) (omega arith, omega arith) in
      elim w.ends [
        | inr failed ↦
            subst (λ y. Mapped (suc k) va pa perm t p y) (sym (ground (arith, failed)))
              (none_mapped k va pa t p x.1 x.2 w.grew (λ va' h. w.same va'))
        | inl (got, walked) ↦
            let t₁ = set_pte x.1 va (entry pa perm) in
            let shown : (va' : ℕ)
                → va' < maxva
                → view t₁ va'
                  ≡ (if va' / pgsize == va / pgsize then entry pa perm else view t va') =
              λ va' h.
                set_pte-view x.1 va (view t va) (entry pa perm) va' (omega arith) h walked
                ∙ ap (λ v. if va' / pgsize == va / pgsize then entry pa perm else v) (w.same va') in
            subst (λ y. Mapped (suc k) va pa perm t p y) (sym (ground (arith, got, here)))
              (one_more k va pa t t₁ p x.2 (map_from k (va + pgsize) (pa + pgsize) perm t₁ x.2) al
                w.grew shown
                (map_from_lem k (va + pgsize) (pa + pgsize) t₁ x.2 (omega arith) (omega arith)
                  (λ va' h in'.
                    ground (arith, shown va' h, free va' h (omega arith, omega arith), in'))))
      ]

-- On a stretch of whole pages below MAXVA, none of them mapped, `map_pages` never panics. It maps every
-- page of the stretch to its page from `pa` on, with the permissions, and changes no other entry; or it
-- runs out of memory, and then it has so mapped the first few pages.
pub map_pages_lem :
    (va pa size perm : ℕ) (t : PageTable) (p : Phys)
    → va % pgsize ≡ 0
    → size % pgsize ≡ 0
    → 0 < size
    → va + size ≤ maxva
    → ((va' : ℕ) → va' < maxva → Within va (size / pgsize) va' → has pte_v (view t va') ≡ false)
    → Mapped (size / pgsize) va pa perm t p (map_pages va pa size perm t p)
unfolding map_pages
map_pages_lem va pa size perm t p al al' pos top free =
    subst (λ y. Mapped (size / pgsize) va pa perm t p y) (sym (ground (arith, al, al', pos)))
      (map_from_lem perm (size / pgsize) va pa t p al (omega arith) free)
