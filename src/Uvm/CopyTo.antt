-- ===== src/Uvm/CopyTo.antt =====
-- `copy_to`: its rounds are bounded by the bytes to copy.
use octopos.Base.{
  ℕ, zero, suc, ◌+◌, ◌≤◌, ◌<◌, ◌≡◌, refl, fun_ext, ap, List, [], ◌∷◌, arith, length, drop,
}
use octopos.Vm.{PageTable, Phys, pgsize, pg_round_down}
use octopos.Uvm.{round_bytes, copy_round, copy_to_from, copy_to}

drop-shorter :
    (n c k : ℕ) (src : List ℕ) → 0 < n → length (c ∷ src) ≤ suc k → length (drop n (c ∷ src)) ≤ k
drop-shorter zero c k src pos le = absurd (omega arith)
drop-shorter (suc zero) c k src pos le = omega arith
drop-shorter (suc (suc n)) c k [] pos le = omega arith
drop-shorter (suc (suc n)) c zero (d ∷ src) pos le = absurd (omega arith)
drop-shorter (suc (suc n)) c (suc k) (d ∷ src) pos le =
    let shorter = drop-shorter (suc n) d k src (omega arith) (omega arith) in omega arith

-- With at least as many rounds allowed as there are bytes, the number does not matter.
rounds_enough :
    (j k size : ℕ) (src : List ℕ) (dst : ℕ) (t : PageTable) (p : Phys)
    → length src ≤ j
    → length src ≤ k
    → copy_to_from j size src dst t p ≡ copy_to_from k size src dst t p
unfolding copy_to_from
rounds_enough j k size [] dst t p a b = refl
rounds_enough zero k size (c ∷ src) dst t p a b = absurd (omega arith)
rounds_enough (suc j) zero size (c ∷ src) dst t p a b = absurd (omega arith)
rounds_enough (suc j) (suc k) size (c ∷ src) dst t p a b =
    let n = round_bytes dst (c ∷ src) in
    let pos : 0 < n = omega arith in
    let left = drop n (c ∷ src) in
    ap (copy_round size (c ∷ src) dst t p) (
      fun_ext (λ t'. fun_ext (λ p'.
        rounds_enough j k size left (pg_round_down dst + pgsize) t' p'
          (drop-shorter n c j src pos a) (drop-shorter n c k src pos b))))

-- `copy_to` ends: as many rounds as there are bytes are enough, and it is the same with more.
pub copy_to_ends :
    (k size : ℕ) (src : List ℕ) (dst : ℕ) (t : PageTable) (p : Phys)
    → length src ≤ k
    → copy_to_from k size src dst t p ≡ copy_to size src dst t p
unfolding copy_to
copy_to_ends k size src dst t p le = rounds_enough k (length src) size src dst t p le (omega arith)
