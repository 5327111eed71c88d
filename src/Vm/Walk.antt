-- ===== src/Vm/Walk.antt =====
-- Walks and stores against the view of a page table as a function from addresses to entries.
use octopos.Base.{
  ℕ, ◌/◌, ◌<◌, ◌≡◌, ◌≢◌, refl, sym, ap, subst, ◌∙◌, ◌⊎◌, inl, inr, none, some, arith, update, ◌==◌,
  if◌then◌else◌, Option-cases, Result, ok, err, ℕ_discrete,
}
use octopos.Vm.{
  PageTable, Middle, Leaves, Phys, VmError, alloc, invalid_page, maxva, px0, px1, px2, child, walk,
  walk_alloc, set_pte,
}
use octopos.Vm.Entry.{same_page}
use octopos.Vm.Pages.{Grew, Grew-trans, child_lem}

-- The entry of the page of `va`; 0, which is not valid, where there is no table.
abbrev pub view : PageTable → ℕ → ℕ
view t va = elim (t (px2 va)) [
  | none ↦ 0
  | some m ↦ elim (m (px1 va)) [ none ↦ 0 | some l ↦ l (px0 va) ]
]

pub walk_lem :
    (t : PageTable) (va : ℕ)
    → va < maxva
    → (walk t va ≡ ok (view t va)) ⊎ ((walk t va ≡ err invalid_page) × (view t va ≡ 0))
unfolding walk
walk_lem t va h = elim (Option-cases (t (px2 va))) [
  | inl none₂ ↦ inr (ground (arith, none₂), ground (arith, none₂))
  | inr (m, e₂) ↦ elim (Option-cases (m (px1 va))) [
    | inl none₁ ↦ inr (ground (arith, e₂, none₁), ground (arith, e₂, none₁))
    | inr (l, e₁) ↦ inl (ground (arith, e₂, e₁))
  ]
]

pub set_pte-view :
    (t : PageTable) (va x value va' : ℕ)
    → va < maxva
    → va' < maxva
    → walk t va ≡ ok x
    → view (set_pte t va value) va' ≡ (if va' / 4096 == va / 4096 then value else view t va')
unfolding set_pte walk
set_pte-view t va x value va' h h' w = elim (Option-cases (t (px2 va))) [
  | inl none₂ ↦ absurd (ground (arith, none₂, w))
  | inr (m, e₂) ↦ elim (Option-cases (m (px1 va))) [
    | inl none₁ ↦ absurd (ground (arith, e₂, none₁, w))
    | inr (l, e₁) ↦ elim (ℕ_discrete (va' / 4096) (va / 4096)) [
      | yes same ↦
          let e2 : px2 va' ≡ px2 va = omega arith in
          let e1 : px1 va' ≡ px1 va = omega arith in
          let e0 : px0 va' ≡ px0 va = omega arith in ground (arith, e₂, e₁, e2, e1, e0, same)
      | no other ↦ elim (ℕ_discrete (px2 va) (px2 va')) [
        | no apart ↦ ground (arith, e₂, e₁, other, apart)
        | yes s2 ↦ elim (ℕ_discrete (px1 va) (px1 va')) [
          | no apart ↦ ground (arith, e₂, e₁, other, apart, s2)
          | yes s1 ↦
              let apart : px0 va ≢ px0 va' =
                λ s0. other (same_page va' va h' h (sym s2) (sym s1) (sym s0)) in
              ground (arith, e₂, e₁, other, apart, s2, s1)
        ]
      ]
    ]
  ]
]

found :
    (t : PageTable) (va : ℕ) (m : Middle) (l : Leaves)
    → va < maxva
    → walk (update t (px2 va) (some (update m (px1 va) (some l)))) va ≡ ok (l (px0 va))
unfolding walk
found t va m l h = ground arith

-- What `walk_alloc` has done: no entry has changed, and the one of `va` has a place.
pub record Walked (t : PageTable) (va : ℕ) (p : Phys) (x : Result ℕ VmError × PageTable × Phys)
    : Type 0 where
  pub grew : Grew p x.2
  pub same : (va' : ℕ) → view x.1 va' ≡ view t va'
  pub ends : ((x.0 ≡ ok (view t va)) × (walk x.1 va ≡ ok (view t va))) ⊎ (x.0 ≡ err alloc)

-- The same table with the entry of `va` at hand.
module _ (t : PageTable) (va : ℕ) where
  with_middle :
      (m : Middle)
      → (t (px2 va) ≡ some m) ⊎ ((t (px2 va) ≡ none) × (m ≡ (λ _. none)))
      → (va' : ℕ) → view (update t (px2 va) (some m)) va' ≡ view t va'
  with_middle m (inl e) va' = ground (arith, e)
  with_middle m (inr (e, z)) va' = elim (ℕ_discrete (px2 va) (px2 va')) [
    | yes same ↦ rw z (ground (arith, e, same))
    | no other ↦ ground (arith, other)
  ]

  with_leaves :
      (m : Middle) (l : Leaves)
      → (t (px2 va) ≡ some m) ⊎ ((t (px2 va) ≡ none) × (m ≡ (λ _. none)))
      → (m (px1 va) ≡ some l) ⊎ ((m (px1 va) ≡ none) × (l ≡ (λ _. 0)))
      → (va' : ℕ) → view (update t (px2 va) (some (update m (px1 va) (some l)))) va' ≡ view t va'
  with_leaves m l h k va' = elim (ℕ_discrete (px2 va) (px2 va')) [
    | no other ↦ ground (arith, other)
    | yes s2 ↦ elim (ℕ_discrete (px1 va) (px1 va')) [
      | no other ↦ ground (arith, s2, other, with_middle m h va')
      | yes s1 ↦ elim k [
        | inl e ↦ ground (arith, s2, s1, e, with_middle m h va')
        | inr (e, z) ↦ rw z (ground (arith, s2, s1, e, with_middle m h va'))
      ]
    ]
  ]

  -- The entry of `va` itself
  entry_at :
      (m : Middle) (l : Leaves)
      → (t (px2 va) ≡ some m) ⊎ ((t (px2 va) ≡ none) × (m ≡ (λ _. none)))
      → (m (px1 va) ≡ some l) ⊎ ((m (px1 va) ≡ none) × (l ≡ (λ _. 0)))
      → l (px0 va) ≡ view t va
  entry_at m l (inl e) (inl e') = ground (arith, e, e')
  entry_at m l (inl e) (inr (e', z)) = rw z (ground (arith, e, e'))
  entry_at m l (inr (e, z)) (inl e') =
      absurd (ground (arith, ap (λ (f : Middle). f (px1 va)) z, e'))
  entry_at m l (inr (e, z)) (inr (e', z')) = rw z' (ground (arith, e))

pub walk_alloc_lem :
    (t : PageTable) (va : ℕ) (p : Phys) → va < maxva → Walked t va p (walk_alloc t va p)
unfolding walk_alloc
walk_alloc_lem t va p h =
    let is : (x : Result ℕ VmError × PageTable × Phys)
        → Walked t va p x
        → walk_alloc t va p ≡ x
        → Walked t va p (walk_alloc t va p) =
      λ x w e. subst (λ y. Walked t va p y) (sym e) w in
    let c₁ = child (t (px2 va)) (λ _. none) p in
    let (g₁, how₁) = child_lem (t (px2 va)) (λ _. none) p in
    elim how₁ [
      | inl failed ↦
          is (err alloc, t, c₁.1) (record { grew = g₁; same = λ va'. refl; ends = inr refl })
            (ground (arith, failed))
      | inr (m, e₁, from₁) ↦
          let c₀ = child (m (px1 va)) (λ _. 0) c₁.1 in
          let (g₀, how₀) = child_lem (m (px1 va)) (λ _. 0) c₁.1 in
          elim how₀ [
            | inl failed ↦
                is (err alloc, update t (px2 va) (some m), c₀.1)
                  (record {
                    grew = Grew-trans p c₁.1 c₀.1 g₁ g₀;
                    same = with_middle t va m from₁;
                    ends = inr refl;
                  })
                  (ground (arith, e₁, failed))
            | inr (l, e₀, from₀) ↦
                let t' = update t (px2 va) (some (update m (px1 va) (some l))) in
                let at = entry_at t va m l from₁ from₀ in
                is (ok (l (px0 va)), t', c₀.1)
                  (record {
                    grew = Grew-trans p c₁.1 c₀.1 g₁ g₀;
                    same = with_leaves t va m l from₁ from₀;
                    ends = inl (ap ok at, found t va m l h ∙ ap ok at);
                  })
                  (ground (arith, e₁, e₀))
          ]
    ]
