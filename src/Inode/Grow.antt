-- ===== src/Inode/Grow.antt =====
-- One new block for an inode: what it changes of its places and of the disk.
use octopos.Base.{
  ℕ, ◌+◌, ◌/◌, ◌%◌, ◌<◌, ◌≡◌, ◌≢◌, sym, ap, subst, ◌∙◌, ◌⊎◌, inl, inr, true, arith, ◌==◌,
  if◌then◌else◌, ℕ_discrete,
}
use octopos.Blocks.{SuperBlock, Bits, bpb}
use octopos.Blocks.Scan.{used}
use octopos.Blocks.FreeMap.{Allocated}
use octopos.Inode.{Block, ndirect}
use octopos.Inode.Slots.{nslots, OffMap, Sound, Owned, Grew}

-- One new block `x` at place `k`; of the other blocks at most that of the addresses has changed since.
module _ (sb : SuperBlock) (s : ℕ → ℕ) (d : Bits) (so : Sound sb d) (ow : Owned sb s d) (x : ℕ)
    (d' : Bits) (a : Allocated sb d x d') (k : ℕ) (lk : k < nslots) (free : s k ≡ 0) (s' : ℕ → ℕ)
    (now : (n : ℕ) → n < nslots → s' n ≡ (if n == k then x else s n)) (d'' : Bits)
    (same : (b : ℕ) → (s ndirect ≡ 0) ⊎ (b ≢ s ndirect) → d'' b ≡ d' b) where
  x_real : x ≢ 0
  x_real c = ground (arith, ap (used sb d) c, so.boot, a.was_free)

  x-OffMap : OffMap sb x
  x-OffMap y ly c = ground (arith, (so.reserved.reserved y ly).1, c, a.was_free)

  x_new : (n : ℕ) → n < nslots → s n ≢ 0 → s n ≢ x
  x_new n ln nz c = ground (arith, ow.in_use n ln nz, c, a.was_free)

  same_off : (b : ℕ) → (s ndirect ≢ 0 → b ≢ s ndirect) → d'' b ≡ d' b
  same_off b ne = elim (ℕ_discrete (s ndirect) 0) [
    | yes z ↦ same b (inl z)
    | no nz ↦ same b (inr (ne nz))
  ]

  used_now : (y : ℕ) → y < sb.size → used sb d'' y ≡ (if x == y then true else used sb d y)
  used_now y ly =
      let off : d'' (sb.bmapstart + y / bpb) ≡ d' (sb.bmapstart + y / bpb) =
        same_off (sb.bmapstart + y / bpb) (λ nz. ow.off_map ndirect (omega arith) nz y ly) in
      ap (λ (c : Block). c (y % bpb)) off ∙ a.map y ly

  other : (b : ℕ) → (s ndirect ≢ 0 → b ≢ s ndirect) → b ≢ x → OffMap sb b → d'' b ≡ d b
  other b ne nx off = same_off b ne ∙ a.other b nx off

  grow_one-Sound : Sound sb d''
  grow_one-Sound = record {
    reserved = record {
      reserved = λ b lb.
          let (inside, mark) = so.reserved.reserved b lb in
          (inside, ground (arith, used_now (sb.bmapstart + b / bpb) inside, mark));
    };
    boot = ground (arith, used_now 0 (omega (arith, a.in_disk)), so.boot);
    small = so.small;
  }

  -- A place with a block has the new one, or the one that it had.
  at : (n : ℕ) → n < nslots → ((n ≡ k) × (s' n ≡ x)) ⊎ ((n ≢ k) × (s' n ≡ s n))
  at n ln = elim (ℕ_discrete n k) [
    | yes e ↦ inl (e, ground (arith, now n ln, e))
    | no ne ↦ inr (ne, ground (arith, now n ln, ne))
  ]

  grow_one-Owned : Owned sb s' d''
  grow_one-Owned = record {
    in_disk = λ n ln nz. elim (at n ln) [
      | inl (_, e) ↦ subst (λ i. i < sb.size) (sym e) a.in_disk
      | inr (_, e) ↦ subst (λ i. i < sb.size) (sym e) (ow.in_disk n ln (λ c. nz (e ∙ c)))
    ];
    in_use = λ n ln nz. elim (at n ln) [
      | inl (_, e) ↦ ap (used sb d'') e ∙ ground (arith, used_now x a.in_disk)
      | inr (_, e) ↦
          let nz' : s n ≢ 0 = λ c. nz (e ∙ c) in
          ap (used sb d'') e
          ∙ ground (arith, used_now (s n) (ow.in_disk n ln nz'), ow.in_use n ln nz')
    ];
    off_map = λ n ln nz. elim (at n ln) [
      | inl (_, e) ↦ subst (λ i. OffMap sb i) (sym e) x-OffMap
      | inr (_, e) ↦ subst (λ i. OffMap sb i) (sym e) (ow.off_map n ln (λ c. nz (e ∙ c)))
    ];
    distinct = λ m n lm ln nz e. elim (at m lm) [
      | inl (em, fm) ↦ elim (at n ln) [
        | inl (en, _) ↦ em ∙ sym en
        | inr (_, fn) ↦
            let sx : s n ≡ x = sym fn ∙ sym e ∙ fm in
            absurd (x_new n ln (λ c. x_real (sym sx ∙ c)) sx)
      ]
      | inr (_, fm) ↦ elim (at n ln) [
        | inl (_, fn) ↦ absurd (x_new m lm (λ c. nz (fm ∙ c)) (sym fm ∙ e ∙ fn))
        | inr (_, fn) ↦ ow.distinct m n lm ln (λ c. nz (fm ∙ c)) (sym fm ∙ e ∙ fn)
      ]
    ];
  }

  pub grow_one : Grew sb s d s' d''
  grow_one = record {
    evolves = record {
      sound = grow_one-Sound;
      owned = grow_one-Owned;
      keeps =
          λ n ln nz. elim (at n ln) [ inl (e, _) ↦ absurd (nz (ap s e ∙ free)) | inr (_, e) ↦ e ];
      new = λ n ln z nz. elim (at n ln) [
        | inl (_, e) ↦ ap (used sb d) e ∙ a.was_free
        | inr (_, e) ↦ absurd (nz (e ∙ z))
      ];
      marks = λ b lb u. ground (arith, used_now b lb, u);
      frame = λ b lb u off no_slot.
          other b (λ _ c. no_slot ndirect (omega arith) (sym c))
            (λ c. ground (arith, ap (used sb d) c, u, a.was_free)) off;
    };
    contents = λ n ln ne nz.
        other (s n) (λ _ c. ne (ow.distinct n ndirect ln (omega arith) nz c)) (x_new n ln nz)
          (ow.off_map n ln nz);
    fresh = λ n ln ne z nz i. elim (at n ln) [
      | inl (_, e) ↦
          ap (λ b. d'' b i) e
          ∙ ap (λ (c : Block). c i) (same_off x (λ nz₁ c. x_new ndirect (omega arith) nz₁ (sym c)))
          ∙ a.zeroed i
      | inr (_, e) ↦ absurd (nz (e ∙ z))
    ];
  }
