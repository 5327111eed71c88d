-- ===== src/Uvm/Faults.antt =====
-- `vmfault`: its four cases, and that a shared page is left to the others.
use octopos.Base.{
  ℕ, ◌+◌, ◌-◌, ◌*◌, ◌/◌, ◌%◌, ◌≤◌, ◌<◌, ◌≡◌, ◌≢◌, refl, sym, ap, subst, ◌∙◌, ◌⊎◌, inl, inr, true,
  false, List, ◌∷◌, arith, Bool-cases, ok, update, dec_lt,
}
use octopos.Vm.{
  PageTable, Phys, alloc, invalid_address, invalid_pte, maxva, pgsize, has, pte_v, pte_r, pte_w,
  pte_u, pte_cow, entry, pte_to_pa, pa_to_pte, pg_round_down, walk, walk_addr, set_pte, zalloc,
  fails, dealloc_page,
}
use octopos.Vm.Pages.{Offered, zalloc_lem}
use octopos.Vm.Supply.{Refuses, Refuses-le, zalloc-fails, zalloc-rest, map_page-fails}
use octopos.Vm.Walk.{view, walk_lem, set_pte-view}
use octopos.Vm.MapPages.{map_pages_lem}
use octopos.Vm.Unmap.{view-page}
use octopos.Uvm.{
  Fault, resolved, faults, own_flags, break_share, lazy_page, vmfault, copy_round, copy_to_from,
  copy_to,
}

-- The page of `va` is mapped and shared.
abbrev pub Shared : PageTable → ℕ → Type 0
Shared t va = (has pte_v (view t va) ≡ true) × (has pte_cow (view t va) ≡ true)

-- What the fault at a shared page has done, if there was memory.
pub record Unshared (va : ℕ) (t : PageTable) (p : Phys) (x : Fault × PageTable × Phys)
    : Type 0 where
  pub page : ℕ
  pub returns : x.0 ≡ resolved page
  pub fresh : Offered page p.supply
  -- The entry is the new page's, writable and not shared; no other entry has changed.
  pub address : pte_to_pa (view x.1 va) ≡ page
  pub own :
      (has pte_v (view x.1 va) ≡ true)
      × (has pte_w (view x.1 va) ≡ true)
      × (has pte_cow (view x.1 va) ≡ false)
      × (has pte_u (view x.1 va) ≡ has pte_u (view t va))
  pub others : (va' : ℕ) → va' < maxva → va' / pgsize ≢ va / pgsize → view x.1 va' ≡ view t va'
  -- The new page is a copy of the old one, which is as it was, with one reference less.
  pub copied : x.2.mem page ≡ p.mem (pte_to_pa (view t va))
  pub kept : x.2.mem (pte_to_pa (view t va)) ≡ p.mem (pte_to_pa (view t va))
  pub released : x.2.refs (pte_to_pa (view t va)) ≡ (p.refs (pte_to_pa (view t va)) + 255) % 256
  pub counted : x.2.refs page ≡ 1

own_entry :
    (pa pte : ℕ)
    → pa % pgsize ≡ 0
    → has pte_v pte ≡ true
    → (pte_to_pa (pa_to_pte pa + own_flags pte) ≡ pa)
      × (has pte_v (pa_to_pte pa + own_flags pte) ≡ true)
      × (has pte_w (pa_to_pte pa + own_flags pte) ≡ true)
      × (has pte_cow (pa_to_pte pa + own_flags pte) ≡ false)
      × (has pte_u (pa_to_pte pa + own_flags pte) ≡ has pte_u pte)
own_entry pa pte al v = ground arith

-- The pages that the allocator may hand out are whole pages, and not the one at `pa`.
abbrev pub Free : ℕ → Phys → Type 0
Free pa p = (q : ℕ) → Offered q p.supply → (q % pgsize ≡ 0) × (q ≢ pa)

-- The page of `va` is now mapped to a page of its own, or the page allocator has refused this page or one
-- of the two tables that it may need; nothing else has changed.
abbrev pub Lazy : ℕ → PageTable → Phys → Fault × PageTable × Phys → Type 0
Lazy va t p x =
    ((x.0 ≡ faults alloc)
      × Refuses 3 p.supply
      × ((va' : ℕ) → va' < maxva → view x.1 va' ≡ view t va'))
    ⊎ ((pa : ℕ) × (x.0 ≡ resolved pa)
        × Offered pa p.supply
        × (view x.1 va ≡ entry pa (pte_w + pte_u + pte_r))
        × ((va' : ℕ) → va' < maxva → va' / pgsize ≢ va / pgsize → view x.1 va' ≡ view t va'))

module _ (va : ℕ) (t : PageTable) (p : Phys) where
  pub break_share_lem :
      va < maxva
      → has pte_v (view t va) ≡ true
      → walk t va ≡ ok (view t va)
      → Free (pte_to_pa (view t va)) p
      → (Refuses 1 p.supply × (break_share va (view t va) t p ≡ (faults alloc, t, (zalloc p).1)))
        ⊎ Unshared va t p (break_share va (view t va) t p)
  unfolding break_share
  break_share_lem low v w free = elim (zalloc_lem p).got [
    | inl failed ↦ inl (zalloc-fails p failed, ground (arith, failed))
    | inr (pa, got, off, counted, zeroed) ↦
        let old = pte_to_pa (view t va) in
        let p₁ = (zalloc p).1 in
        let g = (zalloc_lem p).grew in
        let own = own_entry pa (view t va) (free pa off).0 v in
        let apart : pa ≢ old = (free pa off).1 in
        let not_offered : ¬ Offered old p.supply = λ o. (free old o).1 refl in
        let t₁ = set_pte t va (pa_to_pte pa + own_flags (view t va)) in
        let now : view t₁ va ≡ pa_to_pte pa + own_flags (view t va) = ground (
          arith,
          set_pte-view t va (view t va) (pa_to_pte pa + own_flags (view t va)) va low low w,
        ) in
        let x : Fault × PageTable × Phys =
          (resolved pa, t₁, dealloc_page old (record p₁ { mem = update p₁.mem pa (p₁.mem old) })) in
        let good : Unshared va t p x = record {
          page = pa;
          returns = refl;
          fresh = off;
          address = ap (λ e. pte_to_pa e) now ∙ own.0;
          own = (
            ap (λ e. has pte_v e) now ∙ own.1,
            ap (λ e. has pte_w e) now ∙ own.2,
            ap (λ e. has pte_cow e) now ∙ own.3,
            ap (λ e. has pte_u e) now ∙ own.4,
          );
          others = λ va' h ne. ground (
            arith,
            set_pte-view t va (view t va) (pa_to_pte pa + own_flags (view t va)) va' low h w,
            ne,
          );
          copied = ground (arith, g.same_mem old not_offered);
          kept = ground (arith, g.same_mem old not_offered, apart);
          released = ground (arith, g.same_refs old not_offered);
          counted = ground (arith, counted, apart);
        } in
        inr (subst (λ y. Unshared va t p y) (sym (ground (arith, got))) good)
  ]

  -- A page that was not mapped gets a zeroed page.
  pub lazy_page_lem :
      va % pgsize ≡ 0
      → va + pgsize ≤ maxva
      → has pte_v (view t va) ≡ false
      → Lazy va t p (lazy_page va t p)
  unfolding lazy_page
  lazy_page_lem al top absent = elim (zalloc_lem p).got [
    | inl failed ↦ inl (
      ground (arith, failed),
      Refuses-le 1 3 p.supply (omega arith) (zalloc-fails p failed),
      λ va' h. ground (arith, failed),
    )
    | inr (pa, got, off, counted, zeroed) ↦
        let m =
          map_pages_lem va pa pgsize (pte_w + pte_u + pte_r) t (zalloc p).1 al (omega arith)
            (omega arith) top
            (λ va' h w.
              ap (λ e. has pte_v e) (view-page t va' va h (omega arith) (omega (arith, w)))
              ∙ absent) in
        elim m.ends [
          | inr (e, few) ↦ inl (
            ground (arith, got, e),
            zalloc-rest p 2
                (map_page-fails va pa (pte_w + pte_u + pte_r) t (zalloc p).1 (omega arith) e),
            λ va' h. ground (arith, got, e, m.outside va' h, few),
          )
          | inl (e, all) ↦
              let back : pa + (va / pgsize * pgsize - va) ≡ pa = omega arith in
              let shows =
                m.inside va (omega arith) (omega arith, omega (arith, all))
                ∙ ap (λ a. entry a (pte_w + pte_u + pte_r)) back in
              inr (
                pa,
                ground (arith, got, e),
                off,
                ground (arith, got, e, shows),
                λ va' h ne. ground (arith, got, e, m.outside va' h, all, ne),
              )
        ]
  ]

-- Page faults below MAXVA, when the allocator hands out whole pages and not the one that is mapped
-- here. A fault at or beyond the size of the process, or at a mapped page that is not shared, is
-- `InvalidAddress` and changes nothing. A fault at a shared page gives the process a writable copy of
-- its own, with the old page as it was and one reference less; one at a page that is not mapped maps a
-- new page there. Either leaves every other entry alone. It fails with `Alloc` instead only if the page
-- allocator refuses: the copy of the shared page, or the new page or one of the two tables on the way to
-- its entry.
pub vmfault_lem :
    (size va : ℕ) (t : PageTable) (p : Phys)
    → va < maxva
    → Free (pte_to_pa (view t (pg_round_down va))) p
    → let va₀ = pg_round_down va in
      let x = vmfault size va t p in
      ((size ≤ va) × (x ≡ (faults invalid_address, t, p)))
      ⊎ ((va < size)
          × (has pte_v (view t va₀) ≡ true)
          × (has pte_cow (view t va₀) ≡ false)
          × (x ≡ (faults invalid_address, t, p)))
      ⊎ ((va < size)
          × Shared t va₀
          × ((Refuses 1 p.supply × (x ≡ (faults alloc, t, (zalloc p).1))) ⊎ Unshared va₀ t p x))
      ⊎ ((va < size) × (has pte_v (view t va₀) ≡ false) × Lazy va₀ t p x)
unfolding vmfault
vmfault_lem size va t p low free =
    let va₀ = pg_round_down va in
    elim (dec_lt va size) [
      | no beyond ↦ inl (omega arith, ground arith)
      | yes inside ↦ elim (walk_lem t va₀ (omega arith)) [
        | inr (gone, zero_view) ↦
            let absent : has pte_v (view t va₀) ≡ false = ground (arith, zero_view) in
            let same : vmfault size va t p ≡ lazy_page va₀ t p = ground (arith, gone) in
            inr (
              inr (
                inr (
                  inside,
                  absent,
                  subst (λ y. Lazy va₀ t p y) (sym same)
                      (lazy_page_lem va₀ t p (omega arith) (omega arith) absent),
                )))
        | inl got ↦ elim (Bool-cases (has pte_v (view t va₀))) [
          | inr absent ↦
              let same : vmfault size va t p ≡ lazy_page va₀ t p = ground (arith, got, absent) in
              inr (
                inr (
                  inr (
                    inside,
                    absent,
                    subst (λ y. Lazy va₀ t p y) (sym same)
                        (lazy_page_lem va₀ t p (omega arith) (omega arith) absent),
                  )))
          | inl there ↦ elim (Bool-cases (has pte_cow (view t va₀))) [
            | inr private ↦ inr (inl (inside, there, private, ground (arith, got, there, private)))
            | inl cow ↦
                let same : vmfault size va t p ≡ break_share va₀ (view t va₀) t p =
                  ground (arith, got, there, cow) in
                inr (
                  inr (
                    inl (
                      inside,
                      (there, cow),
                      subst
                          (λ y.
                            (Refuses 1 p.supply × (y ≡ (faults alloc, t, (zalloc p).1)))
                            ⊎ Unshared va₀ t p y)
                          (sym same) (break_share_lem va₀ t p (omega arith) there got free),
                    )))
          ]
        ]
      ]
    ]

-- At a shared page of the process, which a fault would make its own, `copy_to` fails with `InvalidPte`
-- instead and changes nothing: its walk finds the page, so that it never calls `vmfault`, and then it
-- takes the missing permission for a read-only page.
pub copy_to-Shared :
    (size dst c : ℕ) (src : List ℕ) (t : PageTable) (p : Phys)
    → dst < maxva
    → Shared t (pg_round_down dst)
    → has pte_u (view t (pg_round_down dst)) ≡ true
    → has pte_w (view t (pg_round_down dst)) ≡ false
    → copy_to size (c ∷ src) dst t p ≡ (fails invalid_pte, t, p)
unfolding copy_to copy_to_from copy_round walk_addr
copy_to-Shared size dst c src t p low (there, cow) user ro =
    elim (walk_lem t (pg_round_down dst) (omega arith)) [
      | inr (gone, zero_view) ↦ absurd (ground (arith, zero_view, there))
      | inl got ↦ ground (arith, got, there, user, ro)
    ]
