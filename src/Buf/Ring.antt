-- ===== src/Buf/Ring.antt =====
-- The ring as a list of places, from the buffer used last to the one not used for longest.
use octopos.Base.{
  ℕ, ◌≡◌, ◌≢◌, refl, sym, ap, subst, ◌∙◌, ◌⊎◌, inl, inr, List, [], ◌∷◌, arith, ◌==◌, if◌then◌else◌,
  Bool-cases, ℕ_discrete,
}
use octopos.Buf.{BufMeta, unlink, put_first}

abbrev pub In : ℕ → List ℕ → Type 0
In j [] = ⊥
In j (x ∷ xs) = (j ≡ x) ⊎ In j xs

abbrev pub Distinct : List ℕ → Type 0
Distinct [] = Unit
Distinct (x ∷ xs) = (¬ In x xs) × Distinct xs

-- From `a` to `b` the links lead over the places of the list, both ways.
abbrev pub Chain : (ℕ → BufMeta) → ℕ → List ℕ → ℕ → Type 0
Chain m a [] b = ((m a).next ≡ b) × ((m b).prev ≡ a)
Chain m a (x ∷ xs) b = ((m a).next ≡ x) × ((m x).prev ≡ a) × Chain m x xs b

pub Chain-same :
    (m m' : ℕ → BufMeta) (a b : ℕ) (l : List ℕ)
    → ((j : ℕ) → (j ≡ a) ⊎ In j l → (m' j).next ≡ (m j).next)
    → ((j : ℕ) → (j ≡ b) ⊎ In j l → (m' j).prev ≡ (m j).prev)
    → Chain m a l b
    → Chain m' a l b
Chain-same m m' a b [] hn hp (n, p) = (hn a (inl refl) ∙ n, hp b (inl refl) ∙ p)
Chain-same m m' a b (x ∷ xs) hn hp (n, p, c) = (
  hn a (inl refl) ∙ n,
  hp x (inr (inl refl)) ∙ p,
  Chain-same m m' x b xs (λ j h. hn j (inr h)) (λ j h. hp j (ground (arith, h))) c,
)

-- The list without a place
abbrev pub without : ℕ → List ℕ → List ℕ
without id [] = []
without id (x ∷ xs) = if x == id then xs else x ∷ without id xs

pub In-without : (id j : ℕ) (l : List ℕ) → In j (without id l) → In j l
In-without id j [] h = elim h [ ]
In-without id j (x ∷ xs) h = elim (Bool-cases (x == id)) [
  | inl same ↦
      let is : without id (x ∷ xs) ≡ xs = ground (arith, same) in inr (subst (λ l. In j l) is h)
  | inr other ↦
      let is : without id (x ∷ xs) ≡ x ∷ without id xs = ground (arith, other) in
      elim (subst (λ l. In j l) is h) [ inl e ↦ inl e | inr g ↦ inr (In-without id j xs g) ]
]

pub prev-In :
    (m : ℕ → BufMeta) (a b id : ℕ) (l : List ℕ)
    → Chain m a l b
    → In id l
    → ((m id).prev ≡ a) ⊎ In (m id).prev l
prev-In m a b id [] c h = elim h [ ]
prev-In m a b id (x ∷ xs) (n, p, c) (inl e) = inl (ap (λ i. (m i).prev) e ∙ p)
prev-In m a b id (x ∷ xs) (n, p, c) (inr h) = inr (prev-In m x b id xs c h)

pub next-In :
    (m : ℕ → BufMeta) (a b : ℕ) (l : List ℕ) → Chain m a l b → ((m a).next ≡ b) ⊎ In (m a).next l
next-In m a b [] (n, p) = inl n
next-In m a b (x ∷ xs) (n, p, c) = inr (inl n)

pub next_of :
    (m : ℕ → BufMeta) (a b id : ℕ) (l : List ℕ)
    → Chain m a l b
    → In id l
    → ((m id).next ≡ b) ⊎ In (m id).next l
next_of m a b id [] c h = elim h [ ]
next_of m a b id (x ∷ xs) (n, p, c) (inl e) = elim (next-In m x b xs c) [
  | inl f ↦ inl (ap (λ i. (m i).next) e ∙ f)
  | inr h ↦ inr (inr (subst (λ i. In (m i).next xs) (sym e) h))
]
next_of m a b id (x ∷ xs) (n, p, c) (inr h) = elim (next_of m x b id xs c h) [
  | inl f ↦ inl f
  | inr g ↦ inr (inr g)
]

-- The first place of a chain leaves it.
unlink_first :
    (m : ℕ → BufMeta) (a b id : ℕ) (xs : List ℕ)
    → (m a).next ≡ id
    → (m id).prev ≡ a
    → Chain m id xs b
    → Distinct xs
    → ¬ In a xs
    → ¬ In b xs
    → Chain (unlink id m) a xs b
unfolding unlink
unlink_first m a b id [] n p (n', p') d na nb = (ground (arith, p, n'), ground (arith, p, n'))
unlink_first m a b id (y ∷ ys) n p (n', p', c) (ny, d) na nb = (
  ground (arith, p, n'),
  ground (arith, p, n'),
  Chain-same m (unlink id m) y b ys
      (λ j h.
        let apart : (m id).prev ≢ j = λ e. na (elim h [
          | inl f ↦ inl (sym p ∙ e ∙ f)
          | inr g ↦ inr (subst (λ i. In i ys) (sym (sym p ∙ e)) g)
        ]) in
        ground (arith, apart))
      (λ j h.
        let apart : (m id).next ≢ j = λ e. elim h [
          | inl f ↦ nb (inl (sym f ∙ sym e ∙ n'))
          | inr g ↦ ny (subst (λ i. In i ys) (sym (sym n' ∙ e)) g)
        ] in
        ground (arith, apart))
      c,
)

-- A place leaves the ring.
pub unlink-Chain :
    (m : ℕ → BufMeta) (a b id : ℕ) (l : List ℕ)
    → Chain m a l b
    → In id l
    → Distinct l
    → ¬ In a l
    → ¬ In b l
    → Chain (unlink id m) a (without id l) b
unfolding unlink
unlink-Chain m a b id [] c h d na nb = elim h [ ]
unlink-Chain m a b id (x ∷ xs) (n, p, c) h (nx, d) na nb = elim (ℕ_discrete x id) [
  | yes same ↦
      let is : without id (x ∷ xs) ≡ xs = ground (arith, same) in
      let c' : Chain m id xs b = subst (λ i. Chain m i xs b) same c in
      let good : Chain (unlink id m) a xs b =
        unlink_first m a b id xs (n ∙ same) (ap (λ i. (m i).prev) (sym same) ∙ p) c' d
          (λ i. na (inr i)) (λ i. nb (inr i)) in
      subst (λ l. Chain (unlink id m) a l b) (sym is) good
  | no other ↦
      let g : In id xs = ground (arith, h, other) in
      let is : without id (x ∷ xs) ≡ x ∷ without id xs = ground (arith, other) in
      let rest = unlink-Chain m x b id xs c g d nx (λ i. nb (inr i)) in
      let before : (m id).prev ≢ a = λ e. elim (prev-In m x b id xs c g) [
        | inl f ↦ na (inl (sym e ∙ f))
        | inr f ↦ na (inr (subst (λ j. In j xs) e f))
      ] in
      let behind : (m id).next ≢ x = λ e. elim (next_of m x b id xs c g) [
        | inl f ↦ nb (inl (sym f ∙ e))
        | inr f ↦ nx (subst (λ j. In j xs) e f)
      ] in
      let good : Chain (unlink id m) a (x ∷ without id xs) b =
        (ground (arith, n, before), ground (arith, p, behind), rest) in
      subst (λ l. Chain (unlink id m) a l b) (sym is) good
]

-- A place that is not in the ring is put after its head.
pub put_first-Chain :
    (m : ℕ → BufMeta) (head id : ℕ) (l : List ℕ)
    → Chain m head l head
    → Distinct l
    → ¬ In head l
    → ¬ In id l
    → id ≢ head
    → Chain (put_first id head m) head (id ∷ l) head
unfolding put_first
put_first-Chain m head id [] (n, p) d nh ni ne =
    (ground arith, ground (arith, n, ne), (ground (arith, n, ne), ground (arith, n, ne)))
put_first-Chain m head id (y ∷ ys) (n, p, c) (ny, d) nh ni ne =
    let apart : y ≢ id = λ e. ni (inl (sym e)) in
    (
      ground arith,
      ground (arith, n, ne, apart),
      (
        ground (arith, n, ne, apart),
        ground (arith, n, ne, apart),
        Chain-same m (put_first id head m) y head ys
            (λ j h.
              let off : id ≢ j = λ e.
                ni
                  (elim h [ inl f ↦ inl (e ∙ f) | inr g ↦ inr (subst (λ i. In i ys) (sym e) g) ]) in
              let off' : head ≢ j = λ e.
                nh
                  (elim h [ inl f ↦ inl (e ∙ f) | inr g ↦ inr (subst (λ i. In i ys) (sym e) g) ]) in
              ground (arith, off, off', n, apart))
            (λ j h.
              let off : id ≢ j = λ e. elim h [
                | inl f ↦ ne (e ∙ f)
                | inr g ↦ ni (inr (subst (λ i. In i ys) (sym e) g))
              ] in
              let off' : y ≢ j = λ e. elim h [
                | inl f ↦ nh (inl (sym f ∙ sym e))
                | inr g ↦ ny (subst (λ i. In i ys) (sym e) g)
              ] in
              ground (arith, off, off', n, apart))
            c,
      ),
    )
