-- ===== src/Vm/Entry.antt =====
-- Page table entries: an address and flags put together come apart again.
use octopos.Base.{ℕ, ◌/◌, ◌%◌, ◌<◌, ◌≡◌, true, arith}
use octopos.Vm.{maxva, pte_v, has, with_bit, entry, pte_to_pa, pte_flags, px0, px1, px2}

-- Two addresses below MAXVA with the same three indices are on one page.
pub same_page :
    (a b : ℕ)
    → a < maxva
    → b < maxva
    → px2 a ≡ px2 b
    → px1 a ≡ px1 b
    → px0 a ≡ px0 b
    → a / 4096 ≡ b / 4096
same_page a b ha hb e2 e1 e0 = omega arith

pub entry_lem :
    (pa perm : ℕ)
    → pa % 4096 ≡ 0
    → perm < 1024
    → (pte_to_pa (entry pa perm) ≡ pa)
      × (pte_flags (entry pa perm) ≡ with_bit pte_v perm)
      × (has pte_v (entry pa perm) ≡ true)
entry_lem pa perm al small = ground arith
