-- ===== src/Proc/Tickets.antt =====
-- Tickets and strides: `set_tickets`, and what holds of every process in the table.
use octopos.Base.{
  ℕ, ◌*◌, ◌/◌, ◌%◌, ◌≤◌, ◌<◌, ◌≡◌, refl, ◌⊎◌, inl, inr, ◌≢◌, Bool, true, false, arith, ok, err,
  ◌==◌, ◌&&◌, zero, suc, ==_iff, ℕ_discrete, dec_lt, subst, sym, and_left, and_right,
}
use octopos.Proc.{ProcInner, invalid_argument, large_number, set_tickets, alloc_inner, free}

-- The share is exact: tickets and stride multiply to LARGE_NUMBER, in the range that the system call
-- allows.
pub record IsShare (p : ProcInner) : Type 0 where
  pub lower : 10 ≤ p.tickets
  pub upper : p.tickets ≤ 150
  pub exact : p.tickets * p.stride ≡ large_number

-- Every allowed number of tickets divides LARGE_NUMBER: by trial.
divides_up_to : ℕ → Bool
divides_up_to zero = true
divides_up_to (suc k) =
    ((suc k * 10) * (large_number / (suc k * 10)) == large_number) && divides_up_to k

divides_up_to_sound :
    (n k : ℕ)
    → divides_up_to n ≡ true
    → 1 ≤ k
    → k ≤ n
    → (k * 10) * (large_number / (k * 10)) ≡ large_number
unfolding divides_up_to
divides_up_to_sound zero k h lo hi = absurd (omega arith)
divides_up_to_sound (suc n) k h lo hi = elim (ℕ_discrete k (suc n)) [
  | yes e ↦ rw e ((==_iff _ _).0 (and_left _ _ h))
  | no ne ↦ divides_up_to_sound n k (and_right _ _ h) lo (omega arith)
]

allowed_divide : divides_up_to 15 ≡ true
unfolding divides_up_to
allowed_divide = refl

exact_share :
    (tickets : ℕ)
    → 10 ≤ tickets
    → tickets ≤ 150
    → tickets % 10 ≡ 0
    → tickets * (large_number / tickets) ≡ large_number
exact_share tickets lo hi ten =
    let e : tickets ≡ tickets / 10 * 10 = omega arith in
    let h = divides_up_to_sound 15 (tickets / 10) allowed_divide (omega arith) (omega arith) in
    subst (λ t. t * (large_number / t) ≡ large_number) (sym e) h

-- `set_tickets` accepts exactly the multiples of 10 from 10 to 150; then tickets and stride multiply
-- to LARGE_NUMBER with no remainder, and the state and the pass stay. It refuses any other number
-- with `InvalidArgument`.
pub set_tickets_lem :
    (p : ProcInner) (tickets : ℕ)
    → ((10 ≤ tickets)
        × (tickets ≤ 150)
        × (tickets % 10 ≡ 0)
        × (q : ProcInner) × (set_tickets p tickets ≡ ok q)
        × IsShare q
        × (q.tickets ≡ tickets)
        × (q.pass ≡ p.pass)
        × (q.state ≡ p.state))
      ⊎ (((tickets < 10) ⊎ (150 < tickets) ⊎ (tickets % 10 ≢ 0))
          × (set_tickets p tickets ≡ err invalid_argument))
unfolding set_tickets
set_tickets_lem p tickets = elim (dec_lt tickets 10) [
  | yes few ↦ inr (inl few, ground arith)
  | no lo ↦ elim (dec_lt 150 tickets) [
    | yes many ↦ inr (inr (inl many), ground arith)
    | no hi ↦ elim (ℕ_discrete (tickets % 10) 0) [
      | no odd ↦ inr (inr (inr odd), ground arith)
      | yes ten ↦ inl (
        omega arith,
        omega arith,
        ten,
        record p { tickets = tickets; stride = large_number / tickets },
        ground arith,
        record {
          lower = omega arith;
          upper = omega arith;
          exact = exact_share tickets (omega arith) (omega arith) ten;
        },
        refl,
        refl,
        refl,
      )
    ]
  ]
]

at_most : (a b c : ℕ) → a ≤ b → a * c ≤ b * c
at_most a b c h = grind arith

-- The strides of exact shares lie between LARGE_NUMBER / 150 and LARGE_NUMBER / 10.
pub stride_bounds : (p : ProcInner) → IsShare p → (24024 ≤ p.stride) × (p.stride ≤ 360360)
stride_bounds p s = (
  omega (arith, at_most p.tickets 150 p.stride s.upper, s.exact),
  omega (arith, at_most 10 p.tickets p.stride s.lower, s.exact),
)

-- A fresh process, an allocated one and a freed one have exact shares.
pub alloc_inner-IsShare :
    (p : ProcInner) (pid : ℕ) (pages : Bool) → IsShare (alloc_inner p pid pages)
unfolding alloc_inner free
alloc_inner-IsShare p pid true = record { lower = omega arith; upper = omega arith; exact = refl }
alloc_inner-IsShare p pid false = record { lower = omega arith; upper = omega arith; exact = refl }
