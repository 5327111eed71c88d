-- ===== src/Uvm/Tests.antt =====
-- Runs of the user page tables on small inputs, and the theorems applied there.
use octopos.Base.{
  subst, ℕ, ◌+◌, ◌*◌, ◌%◌, ◌<◌, ◌≤◌, ◌≡◌, ◌≢◌, refl, ◌⊎◌, true, false, none, some, [], ◌∷◌, arith,
}
use octopos.Vm.{
  PageTable, Phys, alloc, invalid_address, invalid_pte, has, pte_v, pte_cow, pg_round_down, zalloc,
  child, walk, walk_alloc, set_pte, map_from, map_pages, Outcome, done, fails,
}
use octopos.Vm.Supply.{Refuses}
use octopos.Vm.Walk.{view}
use octopos.Vm.MapPages.{Mapped, map_pages_lem}
use octopos.Uvm.{Pair, faults, copy_from_page, copy, vmfault, copy_to}
use octopos.Uvm.Faults.{Free, Shared, Unshared, Lazy, vmfault_lem, copy_to-Shared}
use octopos.Uvm.Share.{Forked}
use octopos.Uvm.Fork.{copy_lem}
use octopos.Uvm.Isolation.{Isolated, copy-isolates}
use octopos.Vm.Pages.{Offered}

abbrev blank : PageTable
blank = λ _. none

-- Every page shows the page at 0x5000, with the flags V, R, W and U.
abbrev filled : PageTable
filled = λ _. some (λ _. some (λ _. 5 * 1024 + 23))

-- Every page shows the page at 0x5000, shared, with the flags V, R, U and COW.
abbrev sharing : PageTable
sharing = λ _. some (λ _. some (λ _. 5 * 1024 + 275))

abbrev memory : Phys
memory = record {
  refs = λ _. 1;
  mem = λ pa i. pa + i;
  supply = some 36864 ∷ some 40960 ∷ some 45056 ∷ [];
}

abbrev forked : Outcome × Pair
forked = copy 5000 (record { parent = filled; child = blank; phys = memory })

-- Parent and child share the page, and its count has grown by the two pages that show it.
forks :
    (view forked.1.parent 4096 ≡ 5 * 1024 + 275)
    × (view forked.1.child 4096 ≡ 5 * 1024 + 275)
    × (forked.1.phys.refs 20480 ≡ 3)
unfolding copy copy_from_page map_pages map_from walk_alloc child zalloc walk set_pte
forks = (refl, refl, refl)

map_pages_lem_example : Mapped 2 4096 8192 6 blank memory (map_pages 4096 8192 8192 6 blank memory)
map_pages_lem_example =
    map_pages_lem 4096 8192 8192 6 blank memory refl refl (omega arith) (omega arith)
      (λ va' h w. refl)

offers : (q : ℕ) → (q ≡ 36864) ⊎ ((q ≡ 40960) ⊎ ((q ≡ 45056) ⊎ ⊥)) → (q % 4096 ≡ 0) × (q ≢ 20480)
offers q o = ground (arith, o)

vmfault_lem_example :
    let va₀ = pg_round_down 5000 in
    let x = vmfault 8192 5000 sharing memory in
    ((8192 ≤ 5000) × (x ≡ (faults invalid_address, sharing, memory)))
    ⊎ ((5000 < 8192)
        × (has pte_v (view sharing va₀) ≡ true)
        × (has pte_cow (view sharing va₀) ≡ false)
        × (x ≡ (faults invalid_address, sharing, memory)))
    ⊎ ((5000 < 8192)
        × Shared sharing va₀
        × ((Refuses 1 memory.supply × (x ≡ (faults alloc, sharing, (zalloc memory).1)))
            ⊎ Unshared va₀ sharing memory x))
    ⊎ ((5000 < 8192) × (has pte_v (view sharing va₀) ≡ false) × Lazy va₀ sharing memory x)
vmfault_lem_example = vmfault_lem 8192 5000 sharing memory (omega arith) offers

copy_to-Shared_example :
    copy_to 8192 (7 ∷ 8 ∷ []) 5000 sharing memory ≡ (fails invalid_pte, sharing, memory)
copy_to-Shared_example =
    copy_to-Shared 8192 5000 7 (8 ∷ []) sharing memory (omega arith) (refl, refl) refl refl

copy_lem_example : Forked 2 0 (record { parent = filled; child = blank; phys = memory }) forked
copy_lem_example =
    copy_lem 5000 (record { parent = filled; child = blank; phys = memory }) (omega arith)
      (λ va h lt. refl) (λ va h lt v. refl)

abbrev family : Pair
family = record { parent = filled; child = blank; phys = memory }

copied_well : (copy 5000 family).0 ≡ done
unfolding copy copy_from_page map_pages map_from walk_alloc child zalloc walk set_pte
copied_well = refl

-- One page is left: the others have become the child's tables.
left_over : (copy 5000 family).1.phys.supply ≡ some 45056 ∷ []
unfolding copy copy_from_page map_pages map_from walk_alloc child zalloc walk set_pte
left_over = refl

offers_left : Free 20480 (copy 5000 family).1.phys
offers_left q o =
    let at_end : Offered q (some 45056 ∷ []) = subst (λ supply. Offered q supply) left_over o in
    ground (arith, at_end)

copy-isolates_example :
    let s' = (copy 5000 family).1 in
    let x = vmfault 5000 100 s'.child s'.phys in
    (x ≡ (faults alloc, s'.child, (zalloc s'.phys).1)) ⊎ Isolated (pg_round_down 100) family s' x
copy-isolates_example =
    copy-isolates 5000 100 family (omega arith) (λ va' h w. refl) (λ va' h w v. refl) (omega arith)
      refl refl copied_well (λ o. (offers 20480 o).1 refl) offers_left
