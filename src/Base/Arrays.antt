-- ===== src/Base/Arrays.antt =====
-- Arrays and stores as functions on indices: a write at one index, read back.
use Prim.Native.Nat.{ℕ, zero, suc, ◌<◌}
use mathlib.Core.Path.{◌≡◌, refl}
use mathlib.Core.Logic.{◌≢◌}
use native.Mathlib.Omega.{arith}
use mathlib.Core.List.{List, [], ◌∷◌, map}
use mathlib.Core.Option.{some}
use octopos.Base.Lists.{get_elem?, set, length}
use octopos.Base.Tests.{◌==◌, if◌then◌else◌}

module _ {ℓ} {A : Type ℓ} where
  abbrev pub update : (ℕ → A) → ℕ → A → ℕ → A
  update f i a j = if i == j then a else f j

  pub update_self : (f : ℕ → A) (i : ℕ) (a : A) → update f i a i ≡ a
  update_self f i a = ground arith

  pub update-ne : (f : ℕ → A) (i j : ℕ) (a : A) → i ≢ j → update f i a j ≡ f j
  update-ne f i j a h = ground arith

module _ {ℓ} {A : Type ℓ} where
  -- A write at an index that is in range, read anywhere.
  pub get_elem?-set :
      (xs : List A) (i j : ℕ) (v : A) {a : A}
      → get_elem? xs i ≡ some a
      → get_elem? (set xs i v) j ≡ (if i == j then some v else get_elem? xs j)
  get_elem?-set [] i j v e = cc
  get_elem?-set (x ∷ xs) zero zero v e = refl
  get_elem?-set (x ∷ xs) zero (suc j) v e = ground arith
  get_elem?-set (x ∷ xs) (suc i) zero v e = ground arith
  get_elem?-set (x ∷ xs) (suc i) (suc j) v e = ground (arith, get_elem?-set xs i j v e)

  pub lt_of_get_elem? : (xs : List A) (i : ℕ) {a : A} → get_elem? xs i ≡ some a → i < length xs
  lt_of_get_elem? [] i e = absurd (cc)
  lt_of_get_elem? (x ∷ xs) zero e = omega arith
  lt_of_get_elem? (x ∷ xs) (suc i) e = omega (arith, lt_of_get_elem? xs i e)

  pub get_elem?-map {κ} :
      {B : Type κ} (f : A → B) (xs : List A) (i : ℕ) {a : A}
      → get_elem? xs i ≡ some a
      → get_elem? (map f xs) i ≡ some (f a)
  get_elem?-map f [] i e = absurd (cc)
  get_elem?-map f (x ∷ xs) zero e = ground arith
  get_elem?-map f (x ∷ xs) (suc i) e = get_elem?-map f xs i e
