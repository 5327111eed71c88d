-- ===== src/Vm/Pages.antt =====
-- What an allocation changes in physical memory: only pages that the allocator had to offer.
use octopos.Base.{
  ℕ, ◌≡◌, refl, sym, ◌∙◌, ◌⊎◌, inl, inr, Option, none, some, List, [], ◌∷◌, arith, update_self,
  update-ne,
}
use octopos.Vm.{Phys, zalloc, child}

-- The allocator may still hand out the page.
abbrev pub Offered : ℕ → List (Option ℕ) → Type 0
Offered pa [] = ⊥
Offered pa (none ∷ s) = Offered pa s
Offered pa (some q ∷ s) = (pa ≡ q) ⊎ Offered pa s

pub record Grew (p p' : Phys) : Type 0 where
  pub same_refs : (pa : ℕ) → ¬ Offered pa p.supply → p'.refs pa ≡ p.refs pa
  pub same_mem : (pa : ℕ) → ¬ Offered pa p.supply → p'.mem pa ≡ p.mem pa
  pub offers : (pa : ℕ) → Offered pa p'.supply → Offered pa p.supply

pub Grew-self : (p : Phys) → Grew p p
Grew-self p = record { same_refs = λ pa h. refl; same_mem = λ pa h. refl; offers = λ pa h. h }

pub Grew-trans : (a b c : Phys) → Grew a b → Grew b c → Grew a c
Grew-trans a b c g h = record {
  same_refs = λ pa n. h.same_refs pa (λ o. n (g.offers pa o)) ∙ g.same_refs pa n;
  same_mem = λ pa n. h.same_mem pa (λ o. n (g.offers pa o)) ∙ g.same_mem pa n;
  offers = λ pa o. g.offers pa (h.offers pa o);
}

-- A page that the allocator has handed out is zeroed and has one reference.
pub record Zalloced (p : Phys) (x : Option ℕ × Phys) : Type 0 where
  pub grew : Grew p x.1
  pub got :
      (x.0 ≡ none)
      ⊎ ((pa : ℕ) × (x.0 ≡ some pa)
          × Offered pa p.supply
          × (x.1.refs pa ≡ 1)
          × (x.1.mem pa ≡ (λ _. 0)))

zalloc_cases :
    (refs : ℕ → ℕ) (mem : ℕ → ℕ → ℕ) (s : List (Option ℕ))
    → Zalloced
        (record { refs = refs; mem = mem; supply = s })
        (zalloc (record { refs = refs; mem = mem; supply = s }))
unfolding zalloc
zalloc_cases refs mem [] = record { grew = Grew-self _; got = inl refl }
zalloc_cases refs mem (none ∷ s) = record {
  grew = record { same_refs = λ pa h. refl; same_mem = λ pa h. refl; offers = λ pa h. h };
  got = inl refl;
}
zalloc_cases refs mem (some q ∷ s) = record {
  grew = record {
    same_refs = λ pa h. update-ne refs q pa 1 (λ e. h (inl (sym e)));
    same_mem = λ pa h. update-ne mem q pa (λ _. 0) (λ e. h (inl (sym e)));
    offers = λ pa h. inr h;
  };
  got = inr (q, refl, inl refl, update_self refs q 1, update_self mem q (λ _. 0));
}

pub zalloc_lem : (p : Phys) → Zalloced p (zalloc p)
zalloc_lem p = zalloc_cases p.refs p.mem p.supply

pub child_lem :
    {A : Type 0} (o : Option A) (fresh : A) (p : Phys)
    → Grew p (child o fresh p).1
      × (((child o fresh p).0 ≡ none)
          ⊎ ((x : A) × ((child o fresh p).0 ≡ some x)
              × ((o ≡ some x) ⊎ ((o ≡ none) × (x ≡ fresh)))))
unfolding child
child_lem (some x) fresh p = (Grew-self p, inr (x, refl, inl refl))
child_lem none fresh p = elim (zalloc_lem p).got [
  | inl failed ↦ ((zalloc_lem p).grew, inl (ground (arith, failed)))
  | inr (pa, e, _, _, _) ↦ ((zalloc_lem p).grew, inr (fresh, ground (arith, e), inr (refl, refl)))
]
