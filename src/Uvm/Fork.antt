-- ===== src/Uvm/Fork.antt =====
-- `Uvm::copy`, the address space of a forked process: what parent and child see afterwards.
use octopos.Base.{
  ℕ, zero, suc, ◌+◌, ◌-◌, ◌*◌, ◌/◌, ◌≤◌, ◌<◌, ◌≡◌, ◌≢◌, refl, sym, ap, subst, ◌∙◌, inl, inr, Bool,
  true, false, arith, ◌==◌, if◌then◌else◌, Bool-cases, ok, ℕ_discrete, dec_lt,
}
use octopos.Vm.{
  PageTable, Phys, alloc, maxva, pgsize, has, pte_v, pte_r, is_leaf, entry, pte_to_pa, pte_flags,
  walk, set_pte, map_pages, unmap, Outcome, fails, increment_ref,
}
use octopos.Vm.Supply.{Refuses-le, map_page-fails, map_page-rest}
use octopos.Vm.Walk.{view, walk_lem, set_pte-view}
use octopos.Vm.MapPages.{Mapped, map_pages_lem}
use octopos.Vm.Unmap.{view-page, Unmapped, unmap_lem}
use octopos.Uvm.Share.{shared_lem, readable-is_leaf, Before, Forked, skipped, one_more}
use octopos.Uvm.{Pair, shared, copy_from_page, copy}

module _ (k i : ℕ) (s : Pair) (b : Before (suc k) i s) (there : has pte_v (view s.parent i) ≡ true)
    (got : walk s.parent i ≡ ok (view s.parent i)) where
  pte' : ℕ
  pte' = shared (view s.parent i)

  mapping : Outcome × PageTable × Phys
  mapping = map_pages i (pte_to_pa pte') pgsize (pte_flags pte') s.child s.phys

  mapped : Mapped 1 i (pte_to_pa pte') (pte_flags pte') s.child s.phys mapping
  unfolding mapping pte'
  mapped =
      map_pages_lem i (pte_to_pa pte') pgsize (pte_flags pte') s.child s.phys b.aligned
        (omega arith) (omega arith) (omega (arith, b.low))
        (λ va h w. b.empty va h (omega (arith, w), omega (arith, w)))

  parent_shown :
      (va : ℕ)
      → va < maxva
      → view (set_pte s.parent i pte') va
        ≡ (if va / pgsize == i / pgsize then shared (view s.parent i) else view s.parent va)
  unfolding pte'
  parent_shown va h = set_pte-view s.parent i (view s.parent i) pte' va (omega (arith, b.low)) h got

  child_shown :
      mapped.pages ≡ 1
      → (va : ℕ) → va < maxva
      → view mapping.1 va
        ≡ (if va / pgsize == i / pgsize then shared (view s.parent i) else view s.child va)
  unfolding pte' mapped
  child_shown one va h = elim (ℕ_discrete (va / pgsize) (i / pgsize)) [
    | yes same ↦
        let back : pte_to_pa pte' + (va / pgsize * pgsize - i) ≡ pte_to_pa pte' =
          omega (arith, b.aligned) in
        let shows : view mapping.1 va ≡ shared (view s.parent i) =
          mapped.inside va h (omega arith, omega (arith, one))
          ∙ (ap (λ a. entry a (pte_flags pte')) back ∙ (shared_lem (view s.parent i) there).4) in
        ground (arith, shows, same)
    | no other ↦ ground (arith, mapped.outside va h (λ w. other (omega (arith, w, one))), other)
  ]

  child_same : mapped.pages < 1 → (va : ℕ) → va < maxva → view mapping.1 va ≡ view s.child va
  unfolding mapped
  child_same few va h = mapped.outside va h (λ w. omega (arith, w, few))

  -- The child's tables are cleared below `i`.
  cleared :
      mapped.pages < 1
      → Unmapped (i / pgsize) 0 mapping.1 mapping.2 (unmap true 0 (i / pgsize) mapping.1 mapping.2)
  cleared few =
      unmap_lem true 0 (i / pgsize) mapping.1 mapping.2 (omega arith) (omega (arith, b.low))
        (λ va h w v.
          let same = child_same few va h in
          ap (λ y. is_leaf y) same
          ∙ b.filled va h (omega (arith, w)) (sym (ap (λ y. has pte_v y) same) ∙ v))

  failed_copy :
      (few : mapped.pages < 1)
      → mapping.0 ≡ fails alloc
      → Forked (suc k) i s (
        fails alloc,
        record {
          parent = set_pte s.parent i pte';
          child = (cleared few).table;
          phys = (cleared few).phys;
        },
      )
  unfolding mapped mapping
  failed_copy few failed =
      let u = cleared few in
      record {
        ends = inr (
          refl,
          Refuses-le 2 (2 * suc k) s.phys.supply (omega arith) (
              map_page-fails i (pte_to_pa pte') (pte_flags pte') s.child s.phys
                (omega (arith, b.low)) failed),
          record {
            child_empty = λ va h lt. elim (dec_lt (va / pgsize) (i / pgsize)) [
              | yes below ↦ u.inside va h (omega arith, omega arith)
              | no above ↦
                  ap (λ y. has pte_v y)
                    (u.outside va h (λ w. above (omega (arith, w))) ∙ child_same few va h)
                  ∙ b.empty va h (omega arith, omega arith)
            ];
            parent_kept = λ va h. elim (ℕ_discrete (va / pgsize) (i / pgsize)) [
              | yes same ↦
                  let page = view-page s.parent va i h (omega (arith, b.low)) same in
                  inr (
                    ap (λ y. has pte_v y) page ∙ there,
                    ground (arith, parent_shown va h, same) ∙ ap (λ y. shared y) (sym page),
                  )
              | no other ↦ inl (ground (arith, parent_shown va h, other))
            ];
          },
        );
        same_mem = λ pa n. ap (λ (m : ℕ → ℕ → ℕ). m pa) u.same_mem ∙ mapped.grew.same_mem pa n;
      }

  next : Pair
  next = record {
    parent = set_pte s.parent i pte';
    child = mapping.1;
    phys = increment_ref (pte_to_pa pte') mapping.2;
  }

  next-Before : mapped.pages ≡ 1 → Before k (i + pgsize) next
  unfolding next
  next-Before one = record {
    aligned = omega (arith, b.aligned);
    low = omega (arith, b.low);
    empty = λ va h w.
        let other : va / pgsize ≢ i / pgsize = λ e. omega (arith, e, w) in
        ap {B = Bool} (λ y. has pte_v y) (ground (arith, child_shown one va h, other))
        ∙ b.empty va h (omega (arith, w), omega (arith, w));
    filled = λ va h lt v. elim (ℕ_discrete (va / pgsize) (i / pgsize)) [
      | yes same ↦
          let shows : view mapping.1 va ≡ shared (view s.parent i) =
            ground (arith, child_shown one va h, same) in
          let reads = b.readable i (omega (arith, b.low)) (omega arith, omega arith) there in
          ap (λ y. is_leaf y) shows
          ∙ readable-is_leaf (shared (view s.parent i))
              ((shared_lem (view s.parent i) there).2 ∙ reads)
      | no other ↦
          let keep : view mapping.1 va ≡ view s.child va =
            ground (arith, child_shown one va h, other) in
          ap (λ y. is_leaf y) keep
          ∙ b.filled va h (omega (arith, lt, other, b.aligned))
              (sym (ap (λ y. has pte_v y) keep) ∙ v)
    ];
    readable = λ va h w v.
        let other : va / pgsize ≢ i / pgsize = λ e. omega (arith, e, w) in
        let keep : view (set_pte s.parent i pte') va ≡ view s.parent va =
          ground (arith, parent_shown va h, other) in
        ap (λ y. has pte_r y) keep
        ∙ b.readable va h (omega (arith, w), omega (arith, w))
            (sym (ap (λ y. has pte_v y) keep) ∙ v);
  }

  next_step :
      mapped.pages ≡ 1 → (x : Outcome × Pair) → Forked k (i + pgsize) next x → Forked (suc k) i s x
  unfolding next mapped mapping
  next_step one x f =
      one_more k i s next x b there parent_shown (child_shown one) mapped.grew.same_mem
        mapped.grew.offers
        (λ n r.
          map_page-rest i (pte_to_pa pte') (pte_flags pte') s.child s.phys n (omega (arith, b.low))
            b.aligned r)
        f

skip-Before :
    (k i : ℕ) (s : Pair)
    → Before (suc k) i s
    → has pte_v (view s.parent i) ≡ false
    → Before k (i + pgsize) s
skip-Before k i s b absent = record {
  aligned = omega (arith, b.aligned);
  low = omega (arith, b.low);
  empty = λ va h w. b.empty va h (omega (arith, w), omega (arith, w));
  filled = λ va h lt v. elim (ℕ_discrete (va / pgsize) (i / pgsize)) [
    | yes same ↦ absurd (ground (arith, b.empty va h (omega (arith, same), omega (arith, same)), v))
    | no other ↦ b.filled va h (omega (arith, lt, other, b.aligned)) v
  ];
  readable = λ va h w v. b.readable va h (omega (arith, w), omega (arith, w)) v;
}

pub copy_from_page_lem : (k i : ℕ) (s : Pair) → Before k i s → Forked k i s (copy_from_page k i s)
unfolding copy_from_page mapping pte' next
copy_from_page_lem zero i s b = record {
  ends = inl (
    refl,
    record {
      both = λ va h w v. absurd (omega (arith, w));
      neither = λ va h w v. absurd (omega (arith, w));
      rest = λ va h w. (refl, refl);
    },
  );
  same_mem = λ pa n. refl;
}
copy_from_page_lem (suc k) i s b =
    let is : (x : Outcome × Pair)
        → Forked (suc k) i s x
        → copy_from_page (suc k) i s ≡ x
        → Forked (suc k) i s (copy_from_page (suc k) i s) =
      λ x f e. subst (λ y. Forked (suc k) i s y) (sym e) f in
    let skip = copy_from_page k (i + pgsize) s in
    let later = copy_from_page_lem k (i + pgsize) s in
    elim (walk_lem s.parent i (omega (arith, b.low))) [
      | inr (gone, zero_view) ↦
          let absent : has pte_v (view s.parent i) ≡ false = ground (arith, zero_view) in
          is skip (skipped k i s skip b absent (later (skip-Before k i s b absent)))
            (ground (arith, gone))
      | inl got ↦ elim (Bool-cases (has pte_v (view s.parent i))) [
        | inr absent ↦
            is skip (skipped k i s skip b absent (later (skip-Before k i s b absent)))
              (ground (arith, got, absent))
        | inl there ↦ elim (mapped k i s b there got).ends [
          | inl (e, one) ↦
              let s₁ = next k i s b there got in
              is (copy_from_page k (i + pgsize) s₁)
                (next_step k i s b there got one (copy_from_page k (i + pgsize) s₁)
                  (copy_from_page_lem k (i + pgsize) s₁ (next-Before k i s b there got one)))
                (ground (arith, got, there, e))
          | inr (e, few) ↦
              let u = cleared k i s b there got few in
              is
                (
                  fails alloc,
                  record {
                    parent = set_pte s.parent i (shared (view s.parent i));
                    child = u.table;
                    phys = u.phys;
                  },
                )
                (failed_copy k i s b there got few e) (ground (arith, got, there, e, u.returns))
        ]
      ]
    ]

-- With a parent whose mapped pages are readable, and a child with no page in the range, `copy` of
-- `size` bytes never panics. It ends with every page that the parent has in the range shared: both
-- tables show the same entry for it, which is not writable, and is marked copy-on-write if it was;
-- the other pages of the range stay out of the child, and nothing else changes in the tables. Or it
-- runs out of memory, which it does only if the page allocator refuses one of the two tables that each
-- page may need; then the child has no page in the range, and each entry of the parent is as it was, or
-- shared. Either way no page's contents change, but of those that the allocator hands out.
pub copy_lem :
    (size : ℕ) (s : Pair)
    → size + pgsize - 1 ≤ maxva
    → ((va : ℕ)
        → va < maxva
        → va / pgsize < (size + pgsize - 1) / pgsize
        → has pte_v (view s.child va) ≡ false)
    → ((va : ℕ)
        → va < maxva
        → va / pgsize < (size + pgsize - 1) / pgsize
        → has pte_v (view s.parent va) ≡ true
        → has pte_r (view s.parent va) ≡ true)
    → Forked ((size + pgsize - 1) / pgsize) 0 s (copy size s)
unfolding copy
copy_lem size s low empty readable = copy_from_page_lem ((size + pgsize - 1) / pgsize) 0 s (record {
  aligned = refl;
  low = omega arith;
  empty = λ va h w. empty va h (omega (arith, w));
  filled = λ va h lt v. absurd (omega arith);
  readable = λ va h w v. readable va h (omega (arith, w)) v;
})
