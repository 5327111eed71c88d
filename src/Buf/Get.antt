-- ===== src/Buf/Get.antt =====
-- `get`: the cached buffer of a block, or the one without users that was not used for longest.
use octopos.Base.{
  ℕ, zero, suc, ◌+◌, ◌%◌, ◌≤◌, ◌<◌, ◌≡◌, ◌≢◌, refl, sym, ap, subst, ◌∙◌, ◌⊎◌, inl, inr, false, ◌&&◌,
  Option, none, some, List, [], ◌∷◌, arith, ◌==◌, if◌then◌else◌, Bool-cases, Option-cases,
  ℕ_discrete, update_self, update-ne, length,
}
use octopos.Buf.{
  BufMeta, BCacheInner, nbuf, u32_mod, find_cached, recycle, get, add_user, takes_over, at_meta,
}
use octopos.Buf.Ring.{In, Chain}
use octopos.Buf.Release.{Cache, Cache-relabel}

-- The last of the list that has no users
abbrev pub lru : (ℕ → BufMeta) → List ℕ → Option ℕ
lru m [] = none
lru m (x ∷ xs) = elim (lru m xs) [
  | some y ↦ some y
  | none ↦ if (m x).ref_count == 0 then some x else none
]

abbrev or_else : Option ℕ → Option ℕ → Option ℕ
or_else (some y) other = some y
or_else none other = other

-- The search from the end of a chain backwards goes through all of it.
recycle_lem :
    (m : ℕ → BufMeta) (head a b k : ℕ) (l : List ℕ)
    → Chain m a l b
    → ¬ In head l
    → recycle m head (length l + k) (m b).prev ≡ or_else (lru m l) (recycle m head k a)
unfolding recycle
recycle_lem m head a b k [] (n, p) nh =
    let is : length {A = ℕ} [] + k ≡ k = omega arith in
    ap (λ i. recycle m head i (m b).prev) is ∙ ap (recycle m head k) p
recycle_lem m head a b k (x ∷ xs) (n, p, c) nh =
    let rest = recycle_lem m head x b (suc k) xs c (λ i. nh (inr i)) in
    let is : length (x ∷ xs) + k ≡ length xs + suc k = omega arith in
    let ne : x ≢ head = λ e. nh (inl (sym e)) in
    ap (λ i. recycle m head i (m b).prev) is ∙ rest ∙ (elim (Option-cases (lru m xs)) [
      | inr (y, e) ↦ ground (arith, e)
      | inl e ↦ ground (arith, e, ne, p)
    ])

recycle-stops : (m : ℕ → BufMeta) (head : ℕ) → recycle m head 1 head ≡ none
unfolding recycle
recycle-stops m head = ground arith

lru_lem :
    (m : ℕ → BufMeta) (l : List ℕ)
    → ((y : ℕ) × (lru m l ≡ some y) × In y l × ((m y).ref_count ≡ 0))
      ⊎ ((lru m l ≡ none) × ((j : ℕ) → In j l → (m j).ref_count ≢ 0))
lru_lem m [] = inr (refl, λ j h. elim h [ ])
lru_lem m (x ∷ xs) = elim (lru_lem m xs) [
  | inl (y, e, h, z) ↦ inl (y, ground (arith, e), inr h, z)
  | inr (e, busy) ↦ elim (ℕ_discrete (m x).ref_count 0) [
    | yes z ↦ inl (x, ground (arith, e, z), inl refl, z)
    | no nz ↦ inr (
      ground (arith, e, nz),
      λ j h. elim h [
        | inl f ↦ (λ c. nz (ap (λ i. (m i).ref_count) (sym f) ∙ c))
        | inr g ↦ busy j g
      ],
    )
  ]
]

abbrev pub Holds : ℕ → ℕ → BufMeta → Type 0
Holds dev block b = (b.dev ≡ dev) × (b.block_no ≡ block)

find_cached_lem :
    (dev block : ℕ) (m : ℕ → BufMeta) (k i : ℕ)
    → ((j : ℕ) × (find_cached dev block m k i ≡ some j) × (j < i + k) × Holds dev block (m j))
      ⊎ ((find_cached dev block m k i ≡ none)
          × ((j : ℕ) → i ≤ j → j < i + k → ¬ Holds dev block (m j)))
unfolding find_cached
find_cached_lem dev block m zero i = inr (refl, λ j le lt _. omega arith)
find_cached_lem dev block m (suc k) i =
    elim (Bool-cases ((m i).dev == dev && ((m i).block_no == block))) [
      | inl hit ↦
          inl (i, ground (arith, hit), omega arith, (ground (arith, hit), ground (arith, hit)))
      | inr miss ↦ elim (find_cached_lem dev block m k (i + 1)) [
        | inl (j, e, lt, h) ↦ inl (j, ground (arith, miss, e), omega arith, h)
        | inr (e, absent) ↦ inr (
          ground (arith, miss, e),
          λ j le lt h. elim (ℕ_discrete j i) [
            | yes same ↦
                let here : Holds dev block (m i) = subst (λ n. Holds dev block (m n)) same h in
                ground (arith, miss, here.0, here.1)
            | no other ↦ absent j (omega arith) (omega arith) h
          ],
        )
      ]
    ]

-- No block of a device is in two buffers; 0 is not a device.
pub record Once (m : ℕ → BufMeta) : Type 0 where
  pub once :
      (i j : ℕ)
      → i < nbuf
      → j < nbuf
      → (m i).dev ≢ 0
      → (m i).dev ≡ (m j).dev
      → (m i).block_no ≡ (m j).block_no
      → i ≡ j

-- Buffer `i` has a new user and holds the block; no other buffer has changed.
pub record Got (dev block : ℕ) (l : List ℕ) (s : BCacheInner) (i : ℕ) (s' : BCacheInner)
    : Type 0 where
  pub order : Cache s' l
  pub unique : Once s'.meta
  pub in_range : i < nbuf
  pub holds : Holds dev block (s'.meta i)
  pub users : (s'.meta i).ref_count ≡ ((s.meta i).ref_count + 1) % u32_mod
  pub others : (j : ℕ) → j ≢ i → s'.meta j ≡ s.meta j

pub data Gets (dev block : ℕ) (l : List ℕ) (s : BCacheInner)
    : Option (ℕ × BCacheInner) → Type 0 where
  cached :
      (i : ℕ) (s' : BCacheInner)
      → Holds dev block (s.meta i)
      → (s'.meta i).valid ≡ (s.meta i).valid
      → Got dev block l s i s'
      → Gets dev block l s (some (i, s'))
  recycled :
      (i : ℕ) (s' : BCacheInner)
      → ((j : ℕ) → j < nbuf → ¬ Holds dev block (s.meta j))
      → lru s.meta l ≡ some i
      → (s.meta i).ref_count ≡ 0
      → (s'.meta i).valid ≡ false
      → Got dev block l s i s'
      → Gets dev block l s (some (i, s'))
  no_buffers :
      ((j : ℕ) → j < nbuf → ¬ Holds dev block (s.meta j))
      → ((j : ℕ) → In j l → (s.meta j).ref_count ≢ 0)
      → Gets dev block l s none

module _ (dev block : ℕ) (l : List ℕ) (s : BCacheInner) (c : Cache s l) (u : Once s.meta)
    (real : dev ≢ 0) where
  -- One buffer is given the block, under the same links.
  given :
      (i : ℕ) (f : BufMeta → BufMeta)
      → i < nbuf
      → Holds dev block (f (s.meta i))
      → (f (s.meta i)).ref_count ≡ ((s.meta i).ref_count + 1) % u32_mod
      → (f (s.meta i)).next ≡ (s.meta i).next
      → (f (s.meta i)).prev ≡ (s.meta i).prev
      → ((j : ℕ) → j < nbuf → j ≢ i → ¬ Holds dev block (s.meta j))
      → Got dev block l s i (at_meta i f s)
  given i f lt h r n p alone =
      let at_i : (at_meta i f s).meta i ≡ f (s.meta i) = update_self s.meta i (f (s.meta i)) in
      let off : (j : ℕ) → j ≢ i → (at_meta i f s).meta j ≡ s.meta j =
        λ j ne. update-ne s.meta i j (f (s.meta i)) (λ e. ne (sym e)) in
      record {
        order = Cache-relabel s l i (f (s.meta i)) c n p;
        unique = record {
          once = λ x y lx ly nz ed eb. elim (ℕ_discrete x i) [
            | yes xi ↦ elim (ℕ_discrete y i) [
              | yes yi ↦ xi ∙ sym yi
              | no ny ↦ absurd (
                  alone y ly ny (
                    ground (arith, at_i, off y ny, xi, ed, h.0),
                    ground (arith, at_i, off y ny, xi, eb, h.1),
                  ))
            ]
            | no nx ↦ elim (ℕ_discrete y i) [
              | yes yi ↦ absurd (
                  alone x lx nx (
                    ground (arith, at_i, off x nx, yi, ed, h.0),
                    ground (arith, at_i, off x nx, yi, eb, h.1),
                  ))
              | no ny ↦
                  u.once x y lx ly (ground (arith, off x nx, nz))
                    (ground (arith, off x nx, off y ny, ed))
                    (ground (arith, off x nx, off y ny, eb))
            ]
          ];
        };
        in_range = lt;
        holds = subst (λ b. Holds dev block b) (sym at_i) h;
        users = ap (λ (b : BufMeta). b.ref_count) at_i ∙ r;
        others = off;
      }

  -- With the ring in order, and no block of a device in two buffers, `get` of a block of a real device
  -- keeps both. A buffer that holds the block gets one more user; if there is none, the buffer of the ring that
  -- has no users and was not used for longest takes the block, no longer valid, with its first user;
  -- and `get` panics only if all buffers of the ring have users. No other buffer changes.
  pub get-Gets : Gets dev block l s (get dev block s)
  unfolding get
  get-Gets = elim (find_cached_lem dev block s.meta nbuf 0) [
    | inl (i, e, lt, h) ↦
        let s' = at_meta i add_user s in
        let is : get dev block s ≡ some (i, s') = ground (arith, e) in
        let good : Gets dev block l s (some (i, s')) =
          cached i s' h (ap (λ (b : BufMeta). b.valid) (update_self s.meta i (add_user (s.meta i))))
            (given i add_user (omega arith) h refl refl refl (λ j lj ne g. ne (
              u.once j i lj (omega arith) (ground (arith, g.0, real)) (g.0 ∙ sym h.0)
                (g.1 ∙ sym h.1)))) in
        subst (λ x. Gets dev block l s x) (sym is) good
    | inr (e, absent) ↦
        let nowhere : (j : ℕ) → j < nbuf → ¬ Holds dev block (s.meta j) =
          λ j lj. absent j (omega arith) (omega arith) in
        let full : length l + 1 ≡ nbuf = c.size in
        let search : recycle s.meta s.head nbuf (s.meta s.head).prev
            ≡ or_else (lru s.meta l) (recycle s.meta s.head 1 s.head) =
          ap (λ k. recycle s.meta s.head k (s.meta s.head).prev) (sym full)
          ∙ recycle_lem s.meta s.head s.head s.head 1 l c.chain c.apart in
        elim (lru_lem s.meta l) [
          | inl (y, ey, hy, zy) ↦
              let f : BufMeta → BufMeta = λ b. add_user (takes_over dev block b) in
              let s' = at_meta y f s in
              let is : get dev block s ≡ some (y, s') = ground (arith, e, search, ey) in
              let good : Gets dev block l s (some (y, s')) =
                recycled y s' nowhere ey zy
                  (ap (λ (b : BufMeta). b.valid) (update_self s.meta y (f (s.meta y))))
                  (given y f (c.low y hy) (refl, refl) refl refl refl (λ j lj _. nowhere j lj)) in
              subst (λ x. Gets dev block l s x) (sym is) good
          | inr (en, busy) ↦
              let stops : recycle s.meta s.head 1 s.head ≡ none = recycle-stops s.meta s.head in
              let is : get dev block s ≡ none = ground (arith, e, search, en, stops) in
              subst (λ x. Gets dev block l s x) (sym is) (no_buffers nowhere busy)
        ]
  ]
