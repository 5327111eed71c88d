-- ===== src/Buf/Release.antt =====
-- `release`: a buffer without users becomes the first of the ring.
use octopos.Base.{
  ℕ, ◌+◌, ◌<◌, ◌≡◌, ◌≢◌, refl, sym, ap, subst, ◌∙◌, inl, inr, List, [], ◌∷◌, arith, ◌==◌,
  if◌then◌else◌, Bool-cases, ℕ_discrete, update, update_self, update-ne, length,
}
use octopos.Buf.{
  BufMeta, BCacheInner, nbuf, u32_mod, set_prev, set_next, unlink, put_first, drop_user, at_meta,
  release,
}
use octopos.Buf.Ring.{
  In, Distinct, Chain, Chain-same, without, In-without, unlink-Chain, put_first-Chain,
}

-- The ring of a cache: all buffers but the head's, each once.
pub record Cache (s : BCacheInner) (l : List ℕ) : Type 0 where
  pub chain : Chain s.meta s.head l s.head
  pub distinct : Distinct l
  pub apart : ¬ In s.head l
  pub low : (j : ℕ) → In j l → j < nbuf
  pub head_low : s.head < nbuf
  pub size : length l + 1 ≡ nbuf

-- Nothing but links differs.
pub record Links (m m' : ℕ → BufMeta) : Type 0 where
  pub same :
      (j : ℕ)
      → ((m' j).valid ≡ (m j).valid)
        × ((m' j).dev ≡ (m j).dev)
        × ((m' j).block_no ≡ (m j).block_no)
        × ((m' j).ref_count ≡ (m j).ref_count)

set_prev-Links : (i v : ℕ) (m : ℕ → BufMeta) → Links m (set_prev i v m)
set_prev-Links i v m = record {
  same = λ j. elim (ℕ_discrete i j) [
    | yes e ↦ (ground (arith, e), ground (arith, e), ground (arith, e), ground (arith, e))
    | no ne ↦ (ground (arith, ne), ground (arith, ne), ground (arith, ne), ground (arith, ne))
  ];
}

set_next-Links : (i v : ℕ) (m : ℕ → BufMeta) → Links m (set_next i v m)
set_next-Links i v m = record {
  same = λ j. elim (ℕ_discrete i j) [
    | yes e ↦ (ground (arith, e), ground (arith, e), ground (arith, e), ground (arith, e))
    | no ne ↦ (ground (arith, ne), ground (arith, ne), ground (arith, ne), ground (arith, ne))
  ];
}

Links-trans : (m m' m'' : ℕ → BufMeta) → Links m m' → Links m' m'' → Links m m''
Links-trans m m' m'' a b = record {
  same = λ j.
      let (v, d, n, r) = a.same j in
      let (v', d', n', r') = b.same j in (v' ∙ v, d' ∙ d, n' ∙ n, r' ∙ r);
}

moved-Links : (id head : ℕ) (m : ℕ → BufMeta) → Links m (put_first id head (unlink id m))
unfolding put_first unlink
moved-Links id head m =
    let m₁ = set_prev (m id).next (m id).prev m in
    let m₂ = set_next (m id).prev (m₁ id).next m₁ in
    let first = (m₂ head).next in
    let m₃ = set_next id first m₂ in
    let m₄ = set_prev id head m₃ in
    let m₅ = set_prev first id m₄ in
    let m₆ = set_next head id m₅ in
    let a =
      Links-trans m m₁ m₂ (set_prev-Links (m id).next (m id).prev m)
        (set_next-Links (m id).prev (m₁ id).next m₁) in
    let b = Links-trans m m₂ m₃ a (set_next-Links id first m₂) in
    let c = Links-trans m m₃ m₄ b (set_prev-Links id head m₃) in
    let d = Links-trans m m₄ m₅ c (set_prev-Links first id m₄) in
    Links-trans m m₅ m₆ d (set_next-Links head id m₅)

Distinct-without :
    (id : ℕ) (l : List ℕ) → Distinct l → Distinct (without id l) × ¬ In id (without id l)
Distinct-without id [] d = (d, λ h. h)
Distinct-without id (x ∷ xs) (nx, d) = elim (Bool-cases (x == id)) [
  | inl same ↦
      let is : without id (x ∷ xs) ≡ xs = ground (arith, same) in
      let e : x ≡ id = ground (arith, same) in
      subst (λ l. Distinct l × ¬ In id l) (sym is) (d, subst (λ i. ¬ In i xs) e nx)
  | inr other ↦
      let is : without id (x ∷ xs) ≡ x ∷ without id xs = ground (arith, other) in
      let rest = Distinct-without id xs d in
      let good : Distinct (x ∷ without id xs) × ¬ In id (x ∷ without id xs) = (
        ((λ h. nx (In-without id x xs h)), rest.0),
        λ h. elim h [ inl e ↦ ground (arith, other, e) | inr g ↦ rest.1 g ],
      ) in
      subst (λ l. Distinct l × ¬ In id l) (sym is) good
]

length-without : (id : ℕ) (l : List ℕ) → In id l → length (without id l) + 1 ≡ length l
length-without id [] h = elim h [ ]
length-without id (x ∷ xs) h = elim (ℕ_discrete x id) [
  | yes same ↦ ground (arith, same)
  | no other ↦
      let g : In id xs = ground (arith, h, other) in
      let is : without id (x ∷ xs) ≡ x ∷ without id xs = ground (arith, other) in
      let rest = length-without id xs g in ap (λ l. length l + 1) is ∙ (omega arith)
]

pub record Released (id : ℕ) (l : List ℕ) (s s' : BCacheInner) : Type 0 where
  pub order : Cache s' (if (s.meta id).ref_count == 1 then id ∷ without id l else l)
  pub users : (s'.meta id).ref_count + 1 ≡ (s.meta id).ref_count
  pub others : (j : ℕ) → j ≢ id → (s'.meta j).ref_count ≡ (s.meta j).ref_count
  pub blocks :
      (j : ℕ)
      → ((s'.meta j).valid ≡ (s.meta j).valid)
        × ((s'.meta j).dev ≡ (s.meta j).dev)
        × ((s'.meta j).block_no ≡ (s.meta j).block_no)

-- A change of users, blocks or flags keeps the ring.
pub Cache-relabel :
    (s : BCacheInner) (l : List ℕ) (i : ℕ) (b : BufMeta)
    → Cache s l
    → b.next ≡ (s.meta i).next
    → b.prev ≡ (s.meta i).prev
    → Cache (record s { meta = update s.meta i b }) l
Cache-relabel s l i b c n p = record {
  chain =
      Chain-same s.meta (update s.meta i b) s.head s.head l
        (λ j _. elim (ℕ_discrete i j) [ yes e ↦ ground (arith, e, n) | no ne ↦ ground (arith, ne) ])
        (λ j _. elim (ℕ_discrete i j) [ yes e ↦ ground (arith, e, p) | no ne ↦ ground (arith, ne) ])
        c.chain;
  distinct = c.distinct;
  apart = c.apart;
  low = c.low;
  head_low = c.head_low;
  size = c.size;
}

moved-Cache :
    (s : BCacheInner) (l : List ℕ) (id : ℕ)
    → Cache s l
    → In id l
    → Cache (record s { meta = put_first id s.head (unlink id s.meta) }) (id ∷ without id l)
moved-Cache s l id c h =
    let (d, gone) = Distinct-without id l c.distinct in
    let nh : ¬ In s.head (without id l) = λ g. c.apart (In-without id s.head l g) in
    let ne : id ≢ s.head = λ e. c.apart (subst (λ i. In i l) e h) in
    record {
      chain =
          put_first-Chain (unlink id s.meta) s.head id (without id l)
            (unlink-Chain s.meta s.head s.head id l c.chain h c.distinct c.apart c.apart) d nh gone
            ne;
      distinct = (gone, d);
      apart = λ g. elim g [ inl e ↦ ne (sym e) | inr k ↦ nh k ];
      low = λ j g. elim g [
        | inl e ↦ subst (λ i. i < nbuf) (sym e) (c.low id h)
        | inr k ↦ c.low j (In-without id j l k)
      ];
      head_low = c.head_low;
      size = omega (arith, length-without id l h, c.size);
    }

-- With the ring in order and a buffer of it that has users, `release` takes one user away. The last
-- one's release makes the buffer the first of the ring, and the ring keeps its order otherwise; no
-- other buffer's users, and no buffer's block, change.
pub release_lem :
    (id : ℕ) (l : List ℕ) (s : BCacheInner)
    → Cache s l
    → In id l
    → 0 < (s.meta id).ref_count
    → (s.meta id).ref_count < u32_mod
    → Released id l s (release id s)
unfolding release
release_lem id l s c h pos low =
    let s₁ = at_meta id drop_user s in
    let at_id : s₁.meta id ≡ drop_user (s.meta id) =
      update_self s.meta id (drop_user (s.meta id)) in
    let users₁ : (s₁.meta id).ref_count + 1 ≡ (s.meta id).ref_count =
      ap (λ (b : BufMeta). b.ref_count + 1) at_id ∙ omega arith in
    let others₁ : (j : ℕ) → j ≢ id → s₁.meta j ≡ s.meta j =
      λ j ne. update-ne s.meta id j (drop_user (s.meta id)) (λ e. ne (sym e)) in
    let blocks₁ : (j : ℕ)
        → ((s₁.meta j).valid ≡ (s.meta j).valid)
          × ((s₁.meta j).dev ≡ (s.meta j).dev)
          × ((s₁.meta j).block_no ≡ (s.meta j).block_no) =
      λ j. elim (ℕ_discrete id j) [
        | yes e ↦ (ground (arith, e), ground (arith, e), ground (arith, e))
        | no ne ↦ (ground (arith, ne), ground (arith, ne), ground (arith, ne))
      ] in
    let c₁ = Cache-relabel s l id (drop_user (s.meta id)) c refl refl in
    elim (ℕ_discrete (s.meta id).ref_count 1) [
      | yes last ↦
          let s₂ : BCacheInner = record s₁ { meta = put_first id s.head (unlink id s₁.meta) } in
          let m = moved-Links id s.head s₁.meta in
          let zero_users : (s₁.meta id).ref_count ≡ 0 = omega arith in
          let is : release id s ≡ s₂ = ground (arith, zero_users) in
          let order : (if (s.meta id).ref_count == 1 then id ∷ without id l else l)
              ≡ id ∷ without id l =
            ground (arith, last) in
          let good : Released id l s s₂ = record {
            order = subst (λ k. Cache s₂ k) (sym order) (moved-Cache s₁ l id c₁ h);
            users = omega (arith, (m.same id).3);
            others = λ j ne. (m.same j).3 ∙ ap (λ (b : BufMeta). b.ref_count) (others₁ j ne);
            blocks = λ j.
                let (v, d, n, _) = m.same j in
                let (v', d', n') = blocks₁ j in (v ∙ v', d ∙ d', n ∙ n');
          } in
          subst (λ x. Released id l s x) (sym is) good
      | no more ↦
          let some_users : (s₁.meta id).ref_count ≢ 0 = λ e. more (omega arith) in
          let is : release id s ≡ s₁ = ground (arith, some_users) in
          let order : (if (s.meta id).ref_count == 1 then id ∷ without id l else l) ≡ l =
            ground (arith, more) in
          let good : Released id l s s₁ = record {
            order = subst (λ k. Cache s₁ k) (sym order) c₁;
            users = users₁;
            others = λ j ne. ap (λ (b : BufMeta). b.ref_count) (others₁ j ne);
            blocks = blocks₁;
          } in
          subst (λ x. Released id l s x) (sym is) good
    ]
