-- ===== src/Fs/Inodes.antt =====
-- The table of inodes in memory: `Inode::get` and `Inode::dup` on its reference counts.
use octopos.Base.{
  ℕ, zero, suc, ◌+◌, ◌<◌, ◌≡◌, ◌≢◌, refl, ap, sym, subst, ◌∙◌, ◌⊎◌, inl, inr, Bool, true, false,
  ◌&&◌, Option, none, some, List, [], ◌∷◌, arith, get_elem?, ltb, ◌==◌, if◌then◌else◌, Bool-cases,
  ==_iff, Result, ok, err, ℕ_discrete,
}
use native.Mathlib.Nat.{zero-add}
use octopos.Fs.{InodeMeta, FsError, out_of_inode, Scan, found, empty, scan, add_ref, change, get}

-- An entry in use for that inode
abbrev pub Live : ℕ → ℕ → InodeMeta → Type 0
Live dev inum m = (0 < m.refs) × (m.dev ≡ dev) × (m.inum ≡ inum)

abbrev pub NoneLive : ℕ → ℕ → List InodeMeta → Type 0
NoneLive dev inum ms = (j : ℕ) (m : InodeMeta) → get_elem? ms j ≡ some m → ¬ Live dev inum m

-- No two entries are in use for one inode.
abbrev pub Single : List InodeMeta → Type 0
Single ms =
    (i j : ℕ) (a b : InodeMeta)
    → get_elem? ms i ≡ some a
    → get_elem? ms j ≡ some b
    → 0 < a.refs
    → 0 < b.refs
    → a.dev ≡ b.dev
    → a.inum ≡ b.inum
    → i ≡ j

get_elem?-change :
    (f : InodeMeta → InodeMeta) (i j : ℕ) (ms : List InodeMeta) {m : InodeMeta}
    → get_elem? ms i ≡ some m
    → get_elem? (change f i ms) j ≡ (if i == j then some (f m) else get_elem? ms j)
unfolding change
get_elem?-change f i j [] e = absurd (cc)
get_elem?-change f zero zero (x ∷ ms) e = ground arith
get_elem?-change f zero (suc j) (x ∷ ms) e = ground arith
get_elem?-change f (suc i) zero (x ∷ ms) e = ground arith
get_elem?-change f (suc i) (suc j) (x ∷ ms) e = ground (arith, get_elem?-change f i j ms e)

module _ (dev inum : ℕ) where
  Live-dec :
      (m : InodeMeta)
      → (Live dev inum m × ((ltb 0 m.refs && (m.dev == dev) && (m.inum == inum)) ≡ true))
        ⊎ ((¬ Live dev inum m) × ((ltb 0 m.refs && (m.dev == dev) && (m.inum == inum)) ≡ false))
  Live-dec m = elim (Bool-cases (ltb 0 m.refs && (m.dev == dev) && (m.inum == inum))) [
    | inl t ↦ inl (ground (arith, t), t)
    | inr f ↦ inr (λ h. ground (arith, f, h), f)
  ]

  -- What the loop has found when it is over.
  abbrev Scanned : ℕ → Option ℕ → List InodeMeta → Scan → Type 0
  Scanned k seen ms (found id) =
      (d : ℕ) × (m : InodeMeta) × (id ≡ k + d) × (get_elem? ms d ≡ some m) × Live dev inum m
  Scanned k (some s) ms (empty r) = NoneLive dev inum ms × (r ≡ some s)
  Scanned k none ms (empty none) =
      NoneLive dev inum ms × ((j : ℕ) (m : InodeMeta) → get_elem? ms j ≡ some m → 0 < m.refs)
  Scanned k none ms (empty (some id)) =
      NoneLive dev inum ms
      × (d : ℕ) × (m : InodeMeta) × (id ≡ k + d)
      × (get_elem? ms d ≡ some m)
      × (m.refs ≡ 0)

  none_more :
      (x : InodeMeta) (ms : List InodeMeta)
      → ¬ Live dev inum x
      → NoneLive dev inum ms
      → NoneLive dev inum (x ∷ ms)
  none_more x ms nx h zero m e l =
      let same : x ≡ m = cc in nx (subst (λ y. Live dev inum y) (sym same) l)
  none_more x ms nx h (suc j) m e l = h j m e l

  busy_more :
      (x : InodeMeta) (ms : List InodeMeta)
      → 0 < x.refs
      → ((j : ℕ) (m : InodeMeta) → get_elem? ms j ≡ some m → 0 < m.refs)
      → (j : ℕ) (m : InodeMeta) → get_elem? (x ∷ ms) j ≡ some m
      → 0 < m.refs
  busy_more x ms hx h zero m e =
      let same : x ≡ m = cc in subst (λ (y : InodeMeta). 0 < y.refs) same hx
  busy_more x ms hx h (suc j) m e = h j m e

  -- The result for the rest, seen from one entry earlier; `x` is not free unless one was seen.
  later :
      (k : ℕ) (seen : Option ℕ) (x : InodeMeta) (ms : List InodeMeta) (r : Scan)
      → ¬ Live dev inum x
      → (seen ≡ none → 0 < x.refs)
      → Scanned (k + 1) seen ms r
      → Scanned k seen (x ∷ ms) r
  later k seen x ms (found id) nx hx (d, m, e, at, l) = (suc d, m, omega arith, at, l)
  later k (some s) x ms (empty r) nx hx (h, e) = (none_more x ms nx h, e)
  later k none x ms (empty none) nx hx (h, busy) =
      (none_more x ms nx h, busy_more x ms (hx refl) busy)
  later k none x ms (empty (some id)) nx hx (h, d, m, e, at, z) =
      (none_more x ms nx h, suc d, m, omega arith, at, z)

  first_free :
      (k : ℕ) (x : InodeMeta) (ms : List InodeMeta) (r : Scan)
      → ¬ Live dev inum x
      → x.refs ≡ 0
      → Scanned (k + 1) (some k) ms r
      → Scanned k none (x ∷ ms) r
  first_free k x ms (found id) nx z (d, m, e, at, l) = (suc d, m, omega arith, at, l)
  first_free k x ms (empty none) nx z (h, e) = absurd (cc)
  first_free k x ms (empty (some id)) nx z (h, e) =
      (none_more x ms nx h, 0, x, ground (arith, e), refl, z)

  scan_lem :
      (k : ℕ) (seen : Option ℕ) (ms : List InodeMeta) → Scanned k seen ms (scan dev inum k seen ms)
  unfolding scan
  scan_lem k none [] = (λ j m e. absurd (cc), λ j m e. absurd (cc))
  scan_lem k (some s) [] = (λ j m e. absurd (cc), refl)
  scan_lem k (some s) (x ∷ ms) = elim (Live-dec x) [
    | inl (l, t) ↦ rw t (0, x, omega arith, refl, l)
    | inr (nx, f) ↦ rw f (
        later k (some s) x ms (scan dev inum (k + 1) (some s) ms) nx (λ e. absurd (cc))
          (scan_lem (k + 1) (some s) ms))
  ]
  scan_lem k none (x ∷ ms) = elim (Live-dec x) [
    | inl (l, t) ↦ rw t (0, x, omega arith, refl, l)
    | inr (nx, f) ↦ elim (Bool-cases (x.refs == 0)) [
      | inl free ↦
          rw (f, free)
            (first_free k x ms (scan dev inum (k + 1) (some k) ms) nx ((==_iff x.refs 0).0 free)
              (scan_lem (k + 1) (some k) ms))
      | inr used ↦
          rw (f, used)
            (later k none x ms (scan dev inum (k + 1) none ms) nx (λ e. ground (arith, used))
              (scan_lem (k + 1) none ms))
    ]
  ]

change-Single :
    (f : InodeMeta → InodeMeta) (id : ℕ) (ms : List InodeMeta) (m : InodeMeta)
    → get_elem? ms id ≡ some m
    → Single ms
    → ((j : ℕ) (b : InodeMeta)
        → j ≢ id
        → get_elem? ms j ≡ some b
        → 0 < b.refs
        → b.dev ≡ (f m).dev
        → b.inum ≡ (f m).inum
        → ⊥)
    → Single (change f id ms)
change-Single f id ms m at s h i j a b ea eb la lb ed ei =
    let now = get_elem?-change f id i ms at in
    let now' = get_elem?-change f id j ms at in
    elim (ℕ_discrete i id) [
      | yes same ↦ elim (ℕ_discrete j id) [
        | yes same' ↦ same ∙ sym same'
        | no apart ↦
            let is : f m ≡ a = ground (arith, now, ea, same) in
            absurd (
              h j b apart (ground (arith, now', eb)) lb
                (sym ed ∙ ap (λ (x : InodeMeta). x.dev) (sym is))
                (sym ei ∙ ap (λ (x : InodeMeta). x.inum) (sym is)))
      ]
      | no apart ↦ elim (ℕ_discrete j id) [
        | yes same' ↦
            let is : f m ≡ b = ground (arith, now', eb, same') in
            absurd (
              h i a apart (ground (arith, now, ea)) la (ed ∙ ap (λ (x : InodeMeta). x.dev) (sym is))
                (ei ∙ ap (λ (x : InodeMeta). x.inum) (sym is)))
        | no apart' ↦ s i j a b (ground (arith, now, ea)) (ground (arith, now', eb)) la lb ed ei
      ]
    ]

-- What `get` has done to the table `ms`.
pub record Got (dev inum : ℕ) (ms : List InodeMeta) (x : Result (ℕ × Bool) FsError × List InodeMeta)
    : Type 0 where
  pub single : Single x.1
  pub how :
      ((id : ℕ) × (m : InodeMeta) × (get_elem? ms id ≡ some m)
        × Live dev inum m
        × (x.0 ≡ ok (id, true))
        × (x.1 ≡ change add_ref id ms))
      ⊎ ((id : ℕ) × (m : InodeMeta) × (get_elem? ms id ≡ some m)
          × (m.refs ≡ 0)
          × NoneLive dev inum ms
          × (x.0 ≡ ok (id, false))
          × (get_elem? x.1 id ≡ some (record { dev = dev; inum = inum; refs = 1 }))
          × ((j : ℕ) → j ≢ id → get_elem? x.1 j ≡ get_elem? ms j))
      ⊎ (NoneLive dev inum ms
          × ((j : ℕ) (m : InodeMeta) → get_elem? ms j ≡ some m → 0 < m.refs)
          × (x.0 ≡ err out_of_inode)
          × (x.1 ≡ ms))

-- From a table with at most one entry in use for each inode, `get` keeps it so. If an entry is in use
-- for the inode it returns that one, with one reference more; else it takes an entry with no
-- references, changes no other, and reports its cached data as not good; and it fails with
-- `OutOfInode`, the table unchanged, only if all entries are in use, none for the inode.
pub get_lem : (dev inum : ℕ) (ms : List InodeMeta) → Single ms → Got dev inum ms (get dev inum ms)
unfolding get
get_lem dev inum ms s = go (scan dev inum 0 none ms) refl (scan_lem dev inum 0 none ms)
  where
    fresh : InodeMeta → InodeMeta
    fresh m = record { dev = dev; inum = inum; refs = 1 }

    go :
        (r : Scan)
        → scan dev inum 0 none ms ≡ r
        → Scanned dev inum 0 none ms r
        → Got dev inum ms (get dev inum ms)
    go (found id) e (d, m, shift, at, l) =
        let here : get_elem? ms id ≡ some m = ap (λ k. get_elem? ms k) (shift ∙ zero-add d) ∙ at in
        rw (get, e)
          (record {
            single =
                change-Single add_ref id ms m here s
                  (λ j b ne eb lb ed ei. ne (s j id b m eb here lb l.0 ed ei));
            how = inl (id, m, here, l, refl, refl);
          })
    go (empty none) e (none_live, busy) =
        rw (get, e) (record { single = s; how = inr (inr (none_live, busy, refl, refl)) })
    go (empty (some id)) e (none_live, d, m, shift, at, z) =
        let here : get_elem? ms id ≡ some m = ap (λ k. get_elem? ms k) (shift ∙ zero-add d) ∙ at in
        rw (get, e)
          (record {
            single =
                change-Single fresh id ms m here s
                  (λ j b ne eb lb ed ei. none_live j b eb (lb, ed, ei));
            how = inr (
                inl (
                  id,
                  m,
                  here,
                  z,
                  none_live,
                  refl,
                  ground (arith, get_elem?-change fresh id id ms here),
                  λ j ne. ground (arith, get_elem?-change fresh id j ms here),
                ));
          })
