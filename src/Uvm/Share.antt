-- ===== src/Uvm/Share.antt =====
-- One page of `Uvm::copy`: the shared entry, and what a page adds to the copy of the rest.
use octopos.Base.{
  ℕ, suc, ◌+◌, ◌*◌, ◌/◌, ◌%◌, ◌≤◌, ◌<◌, ◌≡◌, ◌≢◌, sym, ap, subst, ◌∙◌, ◌⊎◌, inl, inr, true, false,
  arith, ◌==◌, if◌then◌else◌, ℕ_discrete,
}
use octopos.Vm.{
  alloc, maxva, pgsize, has, pte_v, pte_r, pte_w, pte_x, pte_u, pte_cow, is_leaf, entry, pte_to_pa,
  pte_flags, Outcome, done, fails,
}
use octopos.Vm.Pages.{Offered}
use octopos.Vm.Supply.{Refuses, Refuses-le}
use octopos.Vm.Walk.{view}
use octopos.Vm.MapPages.{Within}
use octopos.Vm.Unmap.{view-page}
use octopos.Uvm.{Pair, shared}

-- Sharing keeps an entry valid and readable and takes away the right to write.
pub shared_lem :
    (v : ℕ)
    → has pte_v v ≡ true
    → (has pte_v (shared v) ≡ true)
      × (has pte_w (shared v) ≡ false)
      × (has pte_r (shared v) ≡ has pte_r v)
      × (pte_to_pa (shared v) ≡ pte_to_pa v)
      × (entry (pte_to_pa (shared v)) (pte_flags (shared v)) ≡ shared v)
      × (has pte_w v ≡ true → has pte_cow (shared v) ≡ true)
shared_lem v h = ground arith

-- The entry `w` that a page with the entry `v` is shared by: the same page with the same rights, but not
-- writable, and marked copy-on-write if it was.
pub record IsShared (v w : ℕ) : Type 0 where
  pub page : pte_to_pa w ≡ pte_to_pa v
  pub valid : has pte_v w ≡ true
  pub not_writable : has pte_w w ≡ false
  pub marked : has pte_w v ≡ true → has pte_cow w ≡ true
  pub unmarked : has pte_w v ≡ false → w ≡ v
  pub rights :
      (has pte_r w ≡ has pte_r v) × (has pte_x w ≡ has pte_x v) × (has pte_u w ≡ has pte_u v)

shared-IsShared : (v : ℕ) → has pte_v v ≡ true → IsShared v (shared v)
shared-IsShared v h =
    let (valid, read_only, _, page, _, cow) = shared_lem v h in
    record {
      page = page;
      valid = valid;
      not_writable = read_only;
      marked = cow;
      unmarked = λ no. ground (arith, no);
      rights = ground arith;
    }

pub shared_twice : (v : ℕ) → shared (shared v) ≡ shared v
shared_twice v = ground arith

pub readable-is_leaf : (v : ℕ) → has pte_r v ≡ true → is_leaf v ≡ true
readable-is_leaf v h = ground arith

-- What the copy of the child's tables may find from page `i` on, with `k` pages to go.
pub record Before (k i : ℕ) (s : Pair) : Type 0 where
  pub aligned : i % pgsize ≡ 0
  pub low : i + k * pgsize ≤ maxva
  pub empty : (va : ℕ) → va < maxva → Within i k va → has pte_v (view s.child va) ≡ false
  pub filled :
      (va : ℕ)
      → va < maxva
      → va / pgsize < i / pgsize
      → has pte_v (view s.child va) ≡ true
      → is_leaf (view s.child va) ≡ true
  pub readable :
      (va : ℕ)
      → va < maxva
      → Within i k va
      → has pte_v (view s.parent va) ≡ true
      → has pte_r (view s.parent va) ≡ true

-- The entries of a page after the copy of `k` pages from `i` on.
pub record Copied (k i : ℕ) (s s' : Pair) : Type 0 where
  pub both :
      (va : ℕ)
      → va < maxva
      → Within i k va
      → has pte_v (view s.parent va) ≡ true
      → (view s'.parent va ≡ shared (view s.parent va))
        × (view s'.child va ≡ shared (view s.parent va))
        × IsShared (view s.parent va) (view s'.parent va)
  pub neither :
      (va : ℕ)
      → va < maxva
      → Within i k va
      → has pte_v (view s.parent va) ≡ false
      → (view s'.parent va ≡ view s.parent va) × (has pte_v (view s'.child va) ≡ false)
  pub rest :
      (va : ℕ)
      → va < maxva
      → ¬ Within i k va
      → (view s'.parent va ≡ view s.parent va) × (view s'.child va ≡ view s.child va)

-- After a failure the child has no page, and the parent's pages are as they were, or shared.
pub record Undone (k i : ℕ) (s s' : Pair) : Type 0 where
  pub child_empty :
      (va : ℕ) → va < maxva → va / pgsize < i / pgsize + k → has pte_v (view s'.child va) ≡ false
  pub parent_kept :
      (va : ℕ)
      → va < maxva
      → (view s'.parent va ≡ view s.parent va)
        ⊎ ((has pte_v (view s.parent va) ≡ true) × (view s'.parent va ≡ shared (view s.parent va)))

pub record Forked (k i : ℕ) (s : Pair) (x : Outcome × Pair) : Type 0 where
  -- It fails only if the page allocator refuses one of the two tables that each page may need.
  pub ends :
      ((x.0 ≡ done) × Copied k i s x.1)
      ⊎ ((x.0 ≡ fails alloc) × Refuses (2 * k) s.phys.supply × Undone k i s x.1)
  pub same_mem : (pa : ℕ) → ¬ Offered pa s.phys.supply → x.1.phys.mem pa ≡ s.phys.mem pa

-- A page that the parent does not have is skipped.
pub skipped :
    (k i : ℕ) (s : Pair) (x : Outcome × Pair)
    → Before (suc k) i s
    → has pte_v (view s.parent i) ≡ false
    → Forked k (i + pgsize) s x
    → Forked (suc k) i s x
skipped k i s x b absent f = record {
  ends = elim f.ends [
    | inl (e, c) ↦ inl (
      e,
      record {
        both = λ va h w v. elim (ℕ_discrete (va / pgsize) (i / pgsize)) [
          | yes same ↦
              let clash = view-page s.parent va i h (omega (arith, b.low)) same in
              absurd (ground (arith, ap (λ y. has pte_v y) clash, absent, v))
          | no other ↦ c.both va h (omega (arith, w, other, b.aligned), omega (arith, w)) v
        ];
        neither = λ va h w v. elim (ℕ_discrete (va / pgsize) (i / pgsize)) [
          | yes same ↦
              let out = c.rest va h (λ w'. omega (arith, w', same)) in
              (out.0, ap (λ y. has pte_v y) out.1 ∙ b.empty va h w)
          | no other ↦ c.neither va h (omega (arith, w, other), omega (arith, w)) v
        ];
        rest = λ va h w. c.rest va h (λ w'. w (omega (arith, w'), omega (arith, w')));
      },
    )
    | inr (e, few, u) ↦ inr (
      e,
      Refuses-le (2 * k) (2 * suc k) s.phys.supply (omega arith) few,
      record {
        child_empty = λ va h lt. u.child_empty va h (omega arith);
        parent_kept = u.parent_kept;
      },
    )
  ];
  same_mem = f.same_mem;
}

-- One page shared, and what the rest of the loop does.
pub one_more :
    (k i : ℕ) (s s₁ : Pair) (x : Outcome × Pair)
    → Before (suc k) i s
    → has pte_v (view s.parent i) ≡ true
    → ((va : ℕ)
        → va < maxva
        → view s₁.parent va
          ≡ (if va / pgsize == i / pgsize then shared (view s.parent i) else view s.parent va))
    → ((va : ℕ)
        → va < maxva
        → view s₁.child va
          ≡ (if va / pgsize == i / pgsize then shared (view s.parent i) else view s.child va))
    → ((pa : ℕ) → ¬ Offered pa s.phys.supply → s₁.phys.mem pa ≡ s.phys.mem pa)
    → ((pa : ℕ) → Offered pa s₁.phys.supply → Offered pa s.phys.supply)
    → ((n : ℕ) → Refuses n s₁.phys.supply → Refuses (suc (suc n)) s.phys.supply)
    → Forked k (i + pgsize) s₁ x
    → Forked (suc k) i s x
one_more k i s s₁ x b there shown shown' mem offers left f = record {
  ends = elim f.ends [
    | inl (e, c) ↦ inl (
      e,
      record {
        both = λ va h w v. elim (ℕ_discrete (va / pgsize) (i / pgsize)) [
          | yes same ↦
              let page = view-page s.parent va i h (omega (arith, b.low)) same in
              let out = c.rest va h (λ w'. omega (arith, w', same)) in
              (
                out.0 ∙ (ground (arith, shown va h, same) ∙ ap (λ y. shared y) (sym page)),
                out.1 ∙ (ground (arith, shown' va h, same) ∙ ap (λ y. shared y) (sym page)),
                subst (λ y. IsShared (view s.parent va) y)
                    (sym
                      (out.0 ∙ (ground (arith, shown va h, same) ∙ ap (λ y. shared y) (sym page))))
                    (shared-IsShared (view s.parent va) v),
              )
          | no other ↦
              let keep : view s₁.parent va ≡ view s.parent va = ground (arith, shown va h, other) in
              let r =
                c.both va h (omega (arith, w, other), omega (arith, w))
                  (ap (λ y. has pte_v y) keep ∙ v) in
              (
                r.0 ∙ ap (λ y. shared y) keep,
                r.1 ∙ ap (λ y. shared y) keep,
                subst (λ y. IsShared y (view x.1.parent va)) keep r.2,
              )
        ];
        neither = λ va h w v. elim (ℕ_discrete (va / pgsize) (i / pgsize)) [
          | yes same ↦
              let page = view-page s.parent va i h (omega (arith, b.low)) same in
              absurd (ground (arith, ap (λ y. has pte_v y) page, there, v))
          | no other ↦
              let keep : view s₁.parent va ≡ view s.parent va = ground (arith, shown va h, other) in
              let r =
                c.neither va h (omega (arith, w, other), omega (arith, w))
                  (ap (λ y. has pte_v y) keep ∙ v) in
              (r.0 ∙ keep, r.1)
        ];
        rest = λ va h w.
            let other : va / pgsize ≢ i / pgsize = λ e'. w (omega (arith, e'), omega (arith, e')) in
            let r = c.rest va h (λ w'. w (omega (arith, w'), omega (arith, w'))) in
            (r.0 ∙ ground (arith, shown va h, other), r.1 ∙ ground (arith, shown' va h, other));
      },
    )
    | inr (e, few, u) ↦ inr (
      e,
      Refuses-le (suc (suc (2 * k))) (2 * suc k) s.phys.supply (omega arith) (left (2 * k) few),
      record {
        child_empty = λ va h lt. u.child_empty va h (omega arith);
        parent_kept = λ va h. elim (ℕ_discrete (va / pgsize) (i / pgsize)) [
          | yes same ↦
              let page = view-page s.parent va i h (omega (arith, b.low)) same in
              let now : view s₁.parent va ≡ shared (view s.parent va) =
                ground (arith, shown va h, same) ∙ ap (λ y. shared y) (sym page) in
              let valid = ap (λ y. has pte_v y) page ∙ there in
              elim (u.parent_kept va h) [
                | inl e' ↦ inr (valid, e' ∙ now)
                | inr (v, e') ↦
                    inr (valid, e' ∙ (ap (λ y. shared y) now ∙ shared_twice (view s.parent va)))
              ]
          | no other ↦
              let keep : view s₁.parent va ≡ view s.parent va = ground (arith, shown va h, other) in
              elim (u.parent_kept va h) [
                | inl e' ↦ inl (e' ∙ keep)
                | inr (v, e') ↦
                    inr (sym (ap (λ y. has pte_v y) keep) ∙ v, e' ∙ ap (λ y. shared y) keep)
              ]
        ];
      },
    )
  ];
  same_mem = λ pa n. f.same_mem pa (λ o. n (offers pa o)) ∙ mem pa n;
}
