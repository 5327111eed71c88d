-- ===== src/Uvm/Isolation.antt =====
-- `Uvm::copy` and then `vmfault` in the child: the two processes do not see each other's writes.
use octopos.Base.{
  ℕ, ◌+◌, ◌-◌, ◌/◌, ◌≤◌, ◌<◌, ◌≡◌, ◌≢◌, sym, ap, subst, ◌∙◌, ◌⊎◌, inl, inr, true, false, arith,
}
use octopos.Vm.{
  PageTable, Phys, alloc, maxva, pgsize, pg_round_down, has, pte_v, pte_r, pte_w, pte_cow,
  pte_to_pa, done, zalloc,
}
use octopos.Vm.Pages.{Offered}
use octopos.Vm.Walk.{view}
use octopos.Uvm.{Pair, copy, Fault, resolved, faults, vmfault}
use octopos.Uvm.Share.{shared_lem}
use octopos.Uvm.Fork.{copy_lem}
use octopos.Uvm.Faults.{Free, vmfault_lem}

-- What a fault `x` of the child at page `va` leaves to the two, after the copy `s'` of `s`.
pub record Isolated (va : ℕ) (s s' : Pair) (x : Fault × PageTable × Phys) : Type 0 where
  pub page : ℕ
  pub returns : x.0 ≡ resolved page
  -- The child's page is its own and writable, and shows what the parent had.
  pub address : pte_to_pa (view x.1 va) ≡ page
  pub writable : has pte_w (view x.1 va) ≡ true
  pub contents : x.2.mem page ≡ s.phys.mem (pte_to_pa (view s.parent va))
  -- The parent shows its old page, as it was.
  pub parent_address : pte_to_pa (view s'.parent va) ≡ pte_to_pa (view s.parent va)
  pub parent_contents :
      x.2.mem (pte_to_pa (view s.parent va)) ≡ s.phys.mem (pte_to_pa (view s.parent va))
  pub apart : page ≢ pte_to_pa (view s.parent va)
  pub parent_read_only : has pte_w (view s'.parent va) ≡ false

-- After a copy that has succeeded, where the allocator does not hand out the parent's page, a fault of
-- the child at a page that was writable either finds no memory, and changes no entry, or gives the child a writable
-- page other than the parent's, with the contents that the parent's had before the copy, while the
-- parent still shows its page, with these contents, and cannot write to it before a fault of its own.
pub copy-isolates :
    (size va : ℕ) (s : Pair)
    → size + pgsize - 1 ≤ maxva
    → ((va' : ℕ)
        → va' < maxva
        → va' / pgsize < (size + pgsize - 1) / pgsize
        → has pte_v (view s.child va') ≡ false)
    → ((va' : ℕ)
        → va' < maxva
        → va' / pgsize < (size + pgsize - 1) / pgsize
        → has pte_v (view s.parent va') ≡ true
        → has pte_r (view s.parent va') ≡ true)
    → va < size
    → has pte_v (view s.parent (pg_round_down va)) ≡ true
    → has pte_w (view s.parent (pg_round_down va)) ≡ true
    → (copy size s).0 ≡ done
    → ¬ Offered (pte_to_pa (view s.parent (pg_round_down va))) s.phys.supply
    → Free (pte_to_pa (view s.parent (pg_round_down va))) (copy size s).1.phys
    → let s' = (copy size s).1 in
      let x = vmfault size va s'.child s'.phys in
      (x ≡ (faults alloc, s'.child, (zalloc s'.phys).1)) ⊎ Isolated (pg_round_down va) s s' x
copy-isolates size va s low empty readable inside v w succeeds off free =
    let va₀ = pg_round_down va in
    let pte = view s.parent va₀ in
    let f = copy_lem size s low empty readable in
    elim f.ends [
      | inr (e, _, _) ↦ absurd (ground (arith, e, succeeds))
      | inl (_, c) ↦
          let s' = (copy size s).1 in
          let (ep, ec, _) = c.both va₀ (omega arith) (omega arith, omega arith) v in
          let (sv, sw, _, spa, _, cow) = shared_lem pte v in
          let child_pa : pte_to_pa (view s'.child va₀) ≡ pte_to_pa pte =
            ap (λ n. pte_to_pa n) ec ∙ spa in
          let free' : Free (pte_to_pa (view s'.child va₀)) s'.phys =
            subst (λ n. Free n s'.phys) (sym child_pa) free in
          let is_cow : has pte_cow (view s'.child va₀) ≡ true =
            ap (λ n. has pte_cow n) ec ∙ cow w in
          let is_v : has pte_v (view s'.child va₀) ≡ true = ap (λ n. has pte_v n) ec ∙ sv in
          let same = f.same_mem (pte_to_pa pte) off in
          elim (vmfault_lem size va s'.child s'.phys (omega arith) free') [
            | inl (beyond, _) ↦ absurd (omega arith)
            | inr (inl (_, _, nc, _)) ↦ absurd (ground (arith, nc, is_cow))
            | inr (inr (inr (_, nv, _))) ↦ absurd (ground (arith, nv, is_v))
            | inr (inr (inl (_, _, inl (_, failed)))) ↦ inl failed
            | inr (inr (inl (_, _, inr u))) ↦ inr record {
              page = u.page;
              returns = u.returns;
              address = u.address;
              writable = u.own.1;
              contents = u.copied ∙ ap s'.phys.mem child_pa ∙ same;
              parent_address = ap (λ n. pte_to_pa n) ep ∙ spa;
              parent_contents =
                  ap (vmfault size va s'.child s'.phys).2.mem (sym child_pa)
                  ∙ u.kept
                  ∙ ap s'.phys.mem child_pa
                  ∙ same;
              apart = (free u.page u.fresh).1;
              parent_read_only = ap (λ n. has pte_w n) ep ∙ sw;
            }
          ]
    ]
