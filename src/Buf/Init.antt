-- ===== src/Buf/Init.antt =====
-- `init`: the ring of all buffers, in the order of their places.
use octopos.Base.{
  ℕ, zero, suc, ◌+◌, ◌-◌, ◌≤◌, ◌<◌, ◌≡◌, refl, sym, ◌∙◌, inl, inr, List, [], ◌∷◌, arith, ◌==◌,
  if◌then◌else◌, ℕ_discrete, length,
}
use octopos.Buf.{BufMeta, BCacheInner, nbuf, set_prev, set_next, link_from, init}
use octopos.Buf.Ring.{In, Distinct, Chain}
use octopos.Buf.Release.{Cache}
use octopos.Buf.Get.{Once}

-- The `k` places from `i` on
abbrev pub places : ℕ → ℕ → List ℕ
places zero i = []
places (suc k) i = i ∷ places k (i + 1)

In-places : (k i j : ℕ) → In j (places k i) → (i ≤ j) × (j < i + k)
In-places zero i j h = elim h [ ]
In-places (suc k) i j (inl e) = (omega arith, omega arith)
In-places (suc k) i j (inr h) = let (le, lt) = In-places k (i + 1) j h in (omega arith, omega arith)

Distinct-places : (k i : ℕ) → Distinct (places k i)
Distinct-places zero i = tt
Distinct-places (suc k) i = (λ h. omega (arith, In-places k (i + 1) i h), Distinct-places k (i + 1))

length-places : (k i : ℕ) → length (places k i) ≡ k
length-places zero i = refl
length-places (suc k) i = omega (arith, length-places k (i + 1))

abbrev next_place : ℕ → ℕ
next_place j = if j == nbuf - 1 then 0 else j + 1

abbrev prev_place : ℕ → ℕ
prev_place j = if j == 0 then nbuf - 1 else j - 1

record Linked (m m' : ℕ → BufMeta) (k i : ℕ) : Type 0 where
  inside : (j : ℕ) → i ≤ j → j < i + k → ((m' j).next ≡ next_place j) × ((m' j).prev ≡ prev_place j)
  outside : (j : ℕ) → j < i → m' j ≡ m j
  devs : (j : ℕ) → (m' j).dev ≡ (m j).dev

link_from_lem : (k i : ℕ) (m : ℕ → BufMeta) → Linked m (link_from k i m) k i
unfolding link_from
link_from_lem zero i m = record {
  inside = λ j le lt. absurd (omega arith);
  outside = λ j lt. refl;
  devs = λ j. refl;
}
link_from_lem (suc k) i m =
    let m₁ = set_prev i (prev_place i) m in
    let m₂ = set_next i (next_place i) m₁ in
    let r = link_from_lem k (i + 1) m₂ in
    record {
      inside = λ j le lt. elim (ℕ_discrete j i) [
        | yes same ↦ (ground (arith, r.outside j, same), ground (arith, r.outside j, same))
        | no other ↦ r.inside j (omega arith) (omega arith)
      ];
      outside = λ j lt. r.outside j (omega arith) ∙ ground (arith, lt);
      devs = λ j.
          r.devs j
          ∙ (elim (ℕ_discrete i j) [ yes e ↦ ground (arith, e) | no ne ↦ ground (arith, ne) ]);
    }

places-Chain :
    (m : ℕ → BufMeta) (k i : ℕ)
    → i + k ≡ nbuf - 1
    → ((j : ℕ) → j < nbuf → ((m j).next ≡ next_place j) × ((m j).prev ≡ prev_place j))
    → Chain m i (places k (i + 1)) 0
places-Chain m zero i e h =
    let last : i ≡ 29 = omega arith in
    ((h i (omega arith)).0 ∙ ground (arith, last), (h 0 (omega arith)).1 ∙ sym last)
places-Chain m (suc k) i e h = (
  (h i (omega arith)).0 ∙ ground (arith, e),
  (h (i + 1) (omega arith)).1 ∙ ground arith,
  places-Chain m k (i + 1) (omega arith) h,
)

-- `init`, when no buffer has been given to a device, makes a ring of the buffers 1 to NBUF - 1 in this
-- order, with the buffer 0 as its head, and leaves every block in at most one buffer.
pub init_lem :
    (s : BCacheInner)
    → ((j : ℕ) → (s.meta j).dev ≡ 0)
    → Cache (init s) (places (nbuf - 1) 1) × Once (init s).meta
unfolding init
init_lem s blank =
    let r = link_from_lem nbuf 0 s.meta in
    (
      record {
        chain =
            places-Chain (init s).meta 29 0 refl (λ j lt. r.inside j (omega arith) (omega arith));
        distinct = Distinct-places 29 1;
        apart = λ h. omega (arith, In-places 29 1 0 h);
        low = λ j h. omega (arith, In-places 29 1 j h);
        head_low = omega arith;
        size = omega (arith, length-places 29 1);
      },
      record { once = λ i j li lj nz _ _. absurd (nz (r.devs i ∙ blank i)) },
    )
