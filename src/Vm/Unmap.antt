-- ===== src/Vm/Unmap.antt =====
-- `unmap` against the view of the table.
use octopos.Base.{
  ℕ, zero, suc, ◌+◌, ◌*◌, ◌/◌, ◌%◌, ◌≤◌, ◌<◌, ◌≡◌, ◌≢◌, refl, sym, ap, subst, ◌∙◌, inl, inr, Bool,
  true, false, Option, some, arith, ◌==◌, if◌then◌else◌, Bool-cases, ℕ_discrete,
}
use octopos.Vm.{
  px0, px1, px2, PageTable, Phys, maxva, pgsize, has, pte_v, is_leaf, pte_to_pa, set_pte,
  dealloc_page, unmap_from, unmap,
}
use octopos.Vm.Walk.{view, walk_lem, set_pte-view}
use octopos.Vm.MapPages.{Within}

-- The view depends on the page alone.
pub view-page :
    (t : PageTable) (a b : ℕ)
    → a < maxva
    → b < maxva
    → a / pgsize ≡ b / pgsize
    → view t a ≡ view t b
view-page t a b ha hb same =
    let e2 : px2 a ≡ px2 b = omega arith in
    let e1 : px1 a ≡ px1 b = omega arith in
    let e0 : px0 a ≡ px0 b = omega arith in ground (arith, e2, e1, e0)

-- No page of the stretch shows `pa`.
abbrev pub Unused : ℕ → ℕ → ℕ → PageTable → Type 0
Unused va k pa t =
    (va' : ℕ)
    → va' < maxva
    → Within va k va'
    → has pte_v (view t va') ≡ true
    → pte_to_pa (view t va') ≢ pa

-- What `unmap` of `k` pages has done.
pub record Unmapped (k va : ℕ) (t : PageTable) (p : Phys) (x : Option (PageTable × Phys))
    : Type 0 where
  pub table : PageTable
  pub phys : Phys
  pub returns : x ≡ some (table, phys)
  pub inside : (va' : ℕ) → va' < maxva → Within va k va' → has pte_v (view table va') ≡ false
  pub outside : (va' : ℕ) → va' < maxva → ¬ Within va k va' → view table va' ≡ view t va'
  pub same_refs : (pa : ℕ) → Unused va k pa t → phys.refs pa ≡ p.refs pa
  pub same_mem : phys.mem ≡ p.mem
  pub same_supply : phys.supply ≡ p.supply

module _ (free : Bool) where
  dropped :
      (pte : ℕ) (p : Phys) (pa : ℕ)
      → pte_to_pa pte ≢ pa
      → (if free then dealloc_page (pte_to_pa pte) p else p).refs pa ≡ p.refs pa
  dropped pte p pa ne = elim (Bool-cases free) [
    | inl yes_free ↦ ground (arith, yes_free)
    | inr no_free ↦ ground (arith, no_free)
  ]

  -- The first page is not mapped.
  skipped :
      (k va : ℕ) (t : PageTable) (p : Phys) (x : Option (PageTable × Phys))
      → va < maxva
      → has pte_v (view t va) ≡ false
      → Unmapped k (va + pgsize) t p x
      → Unmapped (suc k) va t p x
  skipped k va t p x low absent u = record {
    table = u.table;
    phys = u.phys;
    returns = u.returns;
    inside = λ va' h w. elim (ℕ_discrete (va' / pgsize) (va / pgsize)) [
      | yes same ↦
          ap (λ v. has pte_v v)
            (u.outside va' h (λ w'. omega (arith, w', same)) ∙ view-page t va' va h low same)
          ∙ absent
      | no other ↦ u.inside va' h (omega (arith, w, other), omega (arith, w))
    ];
    outside = λ va' h w. u.outside va' h (λ w'. w (omega (arith, w'), omega (arith, w')));
    same_refs = λ pa un. u.same_refs pa (λ va' h w. un va' h (omega (arith, w), omega (arith, w)));
    same_mem = u.same_mem;
    same_supply = u.same_supply;
  }

  -- The first page was mapped, and now it is not.
  removed :
      (k va : ℕ) (t t₁ : PageTable) (p p₁ : Phys) (x : Option (PageTable × Phys))
      → va < maxva
      → has pte_v (view t va) ≡ true
      → ((va' : ℕ)
          → va' < maxva
          → view t₁ va' ≡ (if va' / pgsize == va / pgsize then 0 else view t va'))
      → p₁ ≡ (if free then dealloc_page (pte_to_pa (view t va)) p else p)
      → Unmapped k (va + pgsize) t₁ p₁ x
      → Unmapped (suc k) va t p x
  removed k va t t₁ p p₁ x low was shown ep u = record {
    table = u.table;
    phys = u.phys;
    returns = u.returns;
    inside = λ va' h w. elim (ℕ_discrete (va' / pgsize) (va / pgsize)) [
      | yes same ↦
          let gone : view u.table va' ≡ 0 =
            u.outside va' h (λ w'. omega (arith, w', same)) ∙ ground (arith, shown va' h, same) in
          ap (λ v. has pte_v v) gone
      | no other ↦ u.inside va' h (omega (arith, w, other), omega (arith, w))
    ];
    outside = λ va' h w.
        let other : va' / pgsize ≢ va / pgsize = λ e. w (omega (arith, e), omega (arith, e)) in
        u.outside va' h (λ w'. w (omega (arith, w'), omega (arith, w')))
        ∙ ground (arith, shown va' h, other);
    same_refs = λ pa un.
        u.same_refs pa (λ va' h w v.
          let e : view t₁ va' ≡ view t va' = ground (arith, shown va' h, w) in
          λ eq.
            un va' h (omega (arith, w), omega (arith, w)) (sym (ap (λ x'. has pte_v x') e) ∙ v)
              (sym (ap (λ x'. pte_to_pa x') e) ∙ eq))
        ∙ (ap (λ (q : Phys). q.refs pa) ep
            ∙ dropped (view t va) p pa (un va low (omega arith, omega arith) was));
    same_mem = u.same_mem ∙ ground (arith, ap (λ (q : Phys). q.mem) ep);
    same_supply = u.same_supply ∙ ground (arith, ap (λ (q : Phys). q.supply) ep);
  }

  pub unmap_from_lem :
      (k va : ℕ) (t : PageTable) (p : Phys)
      → va % pgsize ≡ 0
      → va + k * pgsize ≤ maxva
      → ((va' : ℕ)
          → va' < maxva
          → Within va k va'
          → has pte_v (view t va') ≡ true
          → is_leaf (view t va') ≡ true)
      → Unmapped k va t p (unmap_from free k va t p)
  unfolding unmap_from
  unmap_from_lem zero va t p al top leaf = record {
    table = t;
    phys = p;
    returns = refl;
    inside = λ va' h w. absurd (omega (arith, w));
    outside = λ va' h w. refl;
    same_refs = λ pa un. refl;
    same_mem = refl;
    same_supply = refl;
  }
  unmap_from_lem (suc k) va t p al top leaf =
      let is : (x : Option (PageTable × Phys))
          → Unmapped (suc k) va t p x
          → unmap_from free (suc k) va t p ≡ x
          → Unmapped (suc k) va t p (unmap_from free (suc k) va t p) =
        λ x u e. subst (λ y. Unmapped (suc k) va t p y) (sym e) u in
      let skip = unmap_from free k (va + pgsize) t p in
      let later =
        unmap_from_lem k (va + pgsize) t p (omega arith) (omega arith)
          (λ va' h w. leaf va' h (omega (arith, w), omega (arith, w))) in
      elim (walk_lem t va (omega arith)) [
        | inr (gone, zero_view) ↦
            is skip (skipped k va t p skip (omega arith) (ground (arith, zero_view)) later)
              (ground (arith, gone))
        | inl got ↦ elim (Bool-cases (has pte_v (view t va))) [
          | inr absent ↦
              is skip (skipped k va t p skip (omega arith) absent later)
                (ground (arith, got, absent))
          | inl there ↦
              let t₁ = set_pte t va 0 in
              let p₁ : Phys = if free then dealloc_page (pte_to_pa (view t va)) p else p in
              let shown : (va' : ℕ)
                  → va' < maxva
                  → view t₁ va' ≡ (if va' / pgsize == va / pgsize then 0 else view t va') =
                λ va' h. set_pte-view t va (view t va) 0 va' (omega arith) h got in
              let ends = leaf va (omega arith) (omega arith, omega arith) there in
              is (unmap_from free k (va + pgsize) t₁ p₁)
                (removed k va t t₁ p p₁ (unmap_from free k (va + pgsize) t₁ p₁) (omega arith) there
                  shown refl
                  (unmap_from_lem k (va + pgsize) t₁ p₁ (omega arith) (omega arith) (λ va' h w v.
                    let e : view t₁ va' ≡ view t va' = ground (arith, shown va' h, w) in
                    ap (λ x'. is_leaf x') e
                    ∙ leaf va' h (omega (arith, w), omega (arith, w))
                        (sym (ap (λ x'. has pte_v x') e) ∙ v))))
                (ground (arith, got, there, ends))
        ]
      ]

-- Below MAXVA, and where the valid entries of the stretch are leaves, `unmap` of `npages` from a page
-- on never panics. Afterwards no page of the stretch is mapped and no other entry has changed; no
-- page's contents and no reference count of a page that the stretch did not show has changed.
pub unmap_lem :
    (free : Bool) (va npages : ℕ) (t : PageTable) (p : Phys)
    → va % pgsize ≡ 0
    → va + npages * pgsize ≤ maxva
    → ((va' : ℕ)
        → va' < maxva
        → Within va npages va'
        → has pte_v (view t va') ≡ true
        → is_leaf (view t va') ≡ true)
    → Unmapped npages va t p (unmap free va npages t p)
unfolding unmap
unmap_lem free va npages t p al top leaf =
    subst (λ y. Unmapped npages va t p y) (sym (ground (arith, al)))
      (unmap_from_lem free npages va t p al top leaf)
