-- ===== src/Fs/Reads.antt =====
-- `Directory::lookup` and the loop of `Directory::link` with the answers of `Inode::read` and `Inode::get`.
use octopos.Base.{
  ℕ, suc, ◌+◌, ◌<◌, ◌≡◌, ◌≢◌, refl, subst, ◌⊎◌, inl, inr, Bool-cases, false, none, some, List, [],
  ◌∷◌, arith, length, ◌==◌, ok, err, Result, ℕ_discrete, ◌*◌, Option,
}
use octopos.Fs.{
  Directory, FsError, out_of_inode, entry_size, is_name_equal, lookup_from, Calls, lookup_reads,
  find_slot,
}

-- One of the first `n` reads is not of a whole entry, or fails with `e`.
abbrev pub Short : (ℕ → Result ℕ FsError) → ℕ → Type 0
Short reads n = (j : ℕ) × (j < n) × (m : ℕ) × (reads j ≡ ok m) × (m ≢ entry_size)

abbrev pub Fails : (ℕ → Result ℕ FsError) → FsError → ℕ → Type 0
Fails reads e n = (j : ℕ) × (j < n) × (reads j ≡ err e)

pub Short-at : (reads : ℕ → Result ℕ FsError) (m n : ℕ) → m ≡ n → Short reads m → Short reads n
Short-at reads m n e s = subst (λ x. Short reads x) e s

pub Fails-at :
    (reads : ℕ → Result ℕ FsError) (x : FsError) (m n : ℕ)
    → m ≡ n
    → Fails reads x m
    → Fails reads x n
Fails-at reads x m n e s = subst (λ y. Fails reads x y) e s

pub answer-cases :
    (r : Result ℕ FsError)
    → (r ≡ ok entry_size)
      ⊎ ((m : ℕ) × (r ≡ ok m) × (m ≢ entry_size))
      ⊎ ((e : FsError) × (r ≡ err e))
answer-cases (err e) = inr (inr (e, refl))
answer-cases (ok m) = elim (ℕ_discrete m entry_size) [
  | yes whole ↦ inl (ground (arith, whole))
  | no other ↦ inr (inl (m, refl, other))
]

-- A lookup that finds `l`, if its first `n` reads and its `get` succeed, answers `r`: it panics at a short
-- read, fails if a read or the `get` fails, and else answers what it finds.
abbrev pub Looked : Calls → ℕ → Option (ℕ × ℕ) → Option (Result (Option (ℕ × ℕ)) FsError) → Type 0
Looked c n l r =
    ((r ≡ none) × Short c.looks n)
    ⊎ ((e : FsError) × (r ≡ some (err e))
        × (Fails c.looks e n ⊎ ((o x : ℕ) × (l ≡ some (o, x)) × (c.gets x ≡ false))))
    ⊎ (r ≡ some (ok l))

moved :
    (c : Calls) {n n' : ℕ} {l l' : Option (ℕ × ℕ)} {r r' : Option (Result (Option (ℕ × ℕ)) FsError)}
    → n ≡ n'
    → l ≡ l'
    → r ≡ r'
    → Looked c n l r
    → Looked c n' l' r'
moved c {n} {n'} {l} {l'} {r} {r'} en el er h =
    subst (λ x. Looked c x l' r') en
      (subst (λ x. Looked c n x r') el (subst (λ x. Looked c n l x) er h))

pub lookup_reads_lem :
    (c : Calls) (name : List ℕ) (i : ℕ) (ds : List Directory)
    → Looked c (i + length ds) (lookup_from name i ds) (lookup_reads c name i ds)
unfolding lookup_reads lookup_from
lookup_reads_lem c name i [] = inr (inr refl)
lookup_reads_lem c name i (d ∷ ds) = elim (answer-cases (c.looks i)) [
  | inr (inl (m, e, ne)) ↦ inl (ground (arith, e, ne), (i, omega arith, m, e, ne))
  | inr (inr (x, e)) ↦ inr (inl (x, ground (arith, e), inl (i, omega arith, e)))
  | inl e ↦
      let rest = lookup_reads_lem c name (i + 1) ds in
      elim (Bool-cases (d.inum == 0)) [
        | inl free ↦ moved c (omega arith) (ground (arith, free)) (ground (arith, e, free)) rest
        | inr used ↦ elim (Bool-cases (is_name_equal d name)) [
          | inl same ↦ elim (Bool-cases (c.gets d.inum)) [
            | inl got ↦ inr (inr (ground (arith, e, used, same, got)))
            | inr full ↦ inr (
                inl (
                  out_of_inode,
                  ground (arith, e, used, same, full),
                  inr (i * entry_size, d.inum, ground (arith, used, same), full),
                ))
          ]
          | inr differs ↦
              moved c (omega arith) (ground (arith, used, differs))
                (ground (arith, e, used, differs)) rest
        ]
      ]
]

pub find_slot_lem :
    (c : Calls) (i : ℕ) (ds : List Directory)
    → ((find_slot c i ds ≡ none) × Short c.scans (i + length ds))
      ⊎ ((e : FsError) × (find_slot c i ds ≡ some (err e)) × Fails c.scans e (i + length ds))
      ⊎ ((o : ℕ) × (find_slot c i ds ≡ some (ok o)))
unfolding find_slot
find_slot_lem c i [] = inr (inr (i * entry_size, refl))
find_slot_lem c i (d ∷ ds) = elim (answer-cases (c.scans i)) [
  | inr (inl (m, e, ne)) ↦ inl (ground (arith, e, ne), (i, omega arith, m, e, ne))
  | inr (inr (x, e)) ↦ inr (inl (x, ground (arith, e), (i, omega arith, e)))
  | inl e ↦ elim (Bool-cases (d.inum == 0)) [
    | inl free ↦ inr (inr (i * entry_size, ground (arith, e, free)))
    | inr used ↦
        let shift : i + 1 + length ds ≡ i + suc (length ds) = omega arith in
        elim (find_slot_lem c (i + 1) ds) [
          | inl (r, s) ↦ inl (ground (arith, e, used, r), Short-at c.scans _ _ shift s)
          | inr (inl (x, r, s)) ↦
              inr (inl (x, ground (arith, e, used, r), Fails-at c.scans x _ _ shift s))
          | inr (inr (o, r)) ↦ inr (inr (o, ground (arith, e, used, r)))
        ]
  ]
]
