-- ===== src/Log/Reserve.antt =====
-- The reservation of `begin_op`: operations that write at most MAXOPBLOCKS times each never find the
-- log full.
use octopos.Base.{
  ℕ, suc, ◌+◌, ◌*◌, ◌≤◌, ◌<◌, ◌^◌, ◌≡◌, refl, inl, inr, some, List, [], ◌∷◌, ◌++◌, arith, length,
  length-append, All, true, false, ◌∙◌, sym, subst, ap, dec_lt,
}
use octopos.Log.{
  logblocks, maxopblocks, Bio, LogInner, write, begin_op, end_op_locked, wakes, commits, commit,
  commit_steps, clear, dec32,
}
use octopos.Log.Ops.{Logged, write-Logged, write_panics}

-- The log, the devices under it, and for each open operation the calls of `log::write` that it may
-- still make.
pub record World : Type 0 where
  pub log : LogInner
  pub bio : Bio
  pub ops : List ℕ

-- One action of one process under the lock, in any order. `commit` runs without the lock, while
-- `committing` is set.
pub data Step (w : World) : World → Type 0 where
  begin :
      (l' : LogInner)
      → begin_op w.log ≡ some l'
      → Step w (record { log = l'; bio = w.bio; ops = maxopblocks ∷ w.ops })
  writes :
      (xs ys : List ℕ) (k x : ℕ) (l' : LogInner) (b' : Bio)
      → w.ops ≡ xs ++ (suc k ∷ ys)
      → write w.log w.bio x ≡ some (l', b')
      → Step w (record { log = l'; bio = b'; ops = xs ++ (k ∷ ys) })
  ends :
      (xs ys : List ℕ) (k : ℕ) (l' : LogInner)
      → w.ops ≡ xs ++ (k ∷ ys)
      → end_op_locked w.log ≡ wakes l'
      → Step w (record { log = l'; bio = w.bio; ops = xs ++ ys })
  ends_last :
      (xs ys : List ℕ) (k : ℕ) (l' : LogInner)
      → w.ops ≡ xs ++ (k ∷ ys)
      → end_op_locked w.log ≡ commits l'
      → Step w (record { log = l'; bio = w.bio; ops = xs ++ ys })
  committed :
      (l' : LogInner) (b' : Bio)
      → w.log.committing ≡ true
      → commit w.log w.bio ≡ some (l', b')
      → Step w (record { log = record l' { committing = false }; bio = b'; ops = w.ops })

pub data Reach (w : World) : World → Type 0 where
  here : Reach w w
  next : {u v : World} → Reach w u → Step u v → Reach w v

unfoldable pub total : List ℕ → ℕ
total [] = 0
total (x ∷ xs) = x + total xs

total-append : (xs ys : List ℕ) → total (xs ++ ys) ≡ total xs + total ys
unfolding total
total-append [] ys = omega arith
total-append (x ∷ xs) ys = omega (arith, total-append xs ys)

abbrev Small : List ℕ → Type 0
Small = All (λ k. k ≤ maxopblocks)

Small-append : (xs ys : List ℕ) → Small (xs ++ ys) → Small xs × Small ys
Small-append [] ys h = (tt, h)
Small-append (x ∷ xs) ys h = let (a, b) = Small-append xs ys h.1 in ((h.0, a), b)

append-Small : (xs ys : List ℕ) → Small xs → Small ys → Small (xs ++ ys)
append-Small [] ys a b = b
append-Small (x ∷ xs) ys a b = (a.0, append-Small xs ys a.1 b)

total-le : (xs : List ℕ) → Small xs → total xs ≤ length xs * maxopblocks
unfolding total
total-le [] h = omega arith
total-le (x ∷ xs) h = omega (arith, total-le xs h.1, h.0)

-- What every open operation may still write fits into the log.
pub record Reserved (w : World) : Type 0 where
  pub len : length w.log.header.blocks ≡ logblocks
  pub sized : logblocks < w.log.size
  pub word_size : w.log.size < 2 ^ 32
  pub count : w.log.outstanding ≡ length w.ops
  pub few : w.log.outstanding * maxopblocks ≤ logblocks
  pub small : All (λ k. k ≤ maxopblocks) w.ops
  pub fits : w.log.header.n + total w.ops ≤ logblocks
  pub quiet : w.log.committing ≡ true → w.ops ≡ []

middle :
    (xs ys : List ℕ) (k : ℕ)
    → (length (xs ++ (k ∷ ys)) ≡ length (xs ++ ys) + 1)
      × (total (xs ++ (k ∷ ys)) ≡ total (xs ++ ys) + k)
unfolding total
middle xs ys k = (
  omega (arith, length-append xs (k ∷ ys), length-append xs ys),
  omega (arith, total-append xs (k ∷ ys), total-append xs ys),
)

Small-middle :
    (xs ys : List ℕ) (k : ℕ) → Small (xs ++ (k ∷ ys)) → Small (xs ++ ys) × (k ≤ maxopblocks)
Small-middle xs ys k h = let (a, b) = Small-append xs (k ∷ ys) h in (append-Small xs ys a b.1, b.0)

write_inv :
    (l : LogInner) (b : Bio) (x : ℕ) (l' : LogInner) (b' : Bio)
    → length l.header.blocks ≡ logblocks
    → write l b x ≡ some (l', b')
    → Logged l b x l' b'
write_inv l b x l' b' len e = elim (dec_lt l.header.n logblocks) [
  | no full ↦ cc (write_panics l b x (inl (omega arith)))
  | yes few ↦ elim (dec_lt l.header.n (dec32 l.size)) [
    | no full ↦ cc (write_panics l b x (inr (inl (omega arith))))
    | yes sized ↦ elim (dec_lt 0 l.outstanding) [
      | no out ↦ cc (write_panics l b x (inr (inr (omega arith))))
      | yes opened ↦
          let (l₂, b₂, e₂, g) = write-Logged l b x len few sized opened in
          let same : ◌≡◌ {A = LogInner × Bio} (l₂, b₂) (l', b') = cc in
          subst (λ (p : LogInner × Bio). Logged l b x p.0 p.1) same g
    ]
  ]
]

-- A commit that returns has emptied the list and changed nothing else of the log.
commit-clear :
    (l : LogInner) (b : Bio) (l' : LogInner) (b' : Bio) → commit l b ≡ some (l', b') → l' ≡ clear l
unfolding commit commit_steps
commit-clear l b l' b' e = ground arith

nil_of_length : (xs : List ℕ) → length xs ≡ 0 → xs ≡ []
nil_of_length [] e = refl
nil_of_length (x ∷ xs) e = absurd (omega arith)

-- Every step keeps the room reserved.
pub Step-Reserved : {w u : World} → Step w u → Reserved w → Reserved u
unfolding begin_op end_op_locked total
Step-Reserved {w} (begin l' e) r = record {
  len = ground (arith, r.len);
  sized = ground (arith, r.sized);
  word_size = ground (arith, r.word_size);
  count = ground (arith, r.count);
  few = ground (arith, r.few);
  small = (omega arith, r.small);
  fits = ground (arith, r.fits, r.count, total-le w.ops r.small);
  quiet = λ c. absurd (ground arith);
}
Step-Reserved {w} (writes xs ys k x l' b' eq e) r =
    let g = write_inv w.log w.bio x l' b' r.len e in
    let (cnt, tot) = middle xs ys (suc k) in
    let (cnt', tot') = middle xs ys k in
    let (sm, hk) = Small-append xs (suc k ∷ ys) (rw eq at r.small) in
    record {
      len = g.len ∙ r.len;
      sized = rw g.size r.sized;
      word_size = rw g.size r.word_size;
      few = rw g.outstanding r.few;
      count = omega (arith, g.outstanding, r.count, ap length eq, cnt, cnt');
      small = append-Small xs (k ∷ ys) sm (omega (arith, hk.0), hk.1);
      fits = omega (arith, g.bounds, r.fits, ap total eq, tot, tot');
      quiet = λ c. absurd (omega (arith, ap length (sym eq ∙ r.quiet (sym g.committing ∙ c)), cnt));
    }
Step-Reserved {w} (ends xs ys k l' eq e) r =
    let (cnt, tot) = middle xs ys k in
    let len = ap length eq in
    let tot' = ap total eq in
    let sm = Small-middle xs ys k (rw eq at r.small) in
    record {
      len = ground (arith, r.len);
      sized = ground (arith, r.sized);
      word_size = ground (arith, r.word_size);
      few = ground (arith, r.few);
      count = ground (arith, r.count, r.few, cnt, len);
      small = sm.0;
      fits = ground (arith, r.fits, tot, tot');
      quiet = λ c. absurd (ground arith);
    }
Step-Reserved {w} (ends_last xs ys k l' eq e) r =
    let (cnt, tot) = middle xs ys k in
    let len = ap length eq in
    let tot' = ap total eq in
    let sm = Small-middle xs ys k (rw eq at r.small) in
    record {
      len = ground (arith, r.len);
      sized = ground (arith, r.sized);
      word_size = ground (arith, r.word_size);
      few = ground (arith, r.few);
      count = ground (arith, r.count, r.few, cnt, len);
      small = sm.0;
      fits = ground (arith, r.fits, tot, tot');
      quiet = λ _. nil_of_length (xs ++ ys) (ground (arith, r.count, r.few, cnt, len));
    }
Step-Reserved {w} (committed l' b' c e) r =
    let cl = commit-clear w.log w.bio l' b' e in
    rw cl (record {
      len = r.len;
      sized = r.sized;
      word_size = r.word_size;
      few = r.few;
      count = r.count;
      small = r.small;
      fits = omega (arith, r.fits);
      quiet = λ no_more. cc;
    })

pub Reach-Reserved : {w u : World} → Reserved w → Reach w u → Reserved u
Reach-Reserved r here = r
Reach-Reserved r (next h s) = Step-Reserved s (Reach-Reserved r h)

-- In every order of operations that a log with its room reserved can reach, an operation that has
-- written fewer than MAXOPBLOCKS times may write any block: `log::write` does not panic.
pub write_never_panics :
    (w u : World) (xs ys : List ℕ) (k x : ℕ)
    → Reserved w
    → Reach w u
    → u.ops ≡ xs ++ (suc k ∷ ys)
    → (l' : LogInner) × (b' : Bio) × (write u.log u.bio x ≡ some (l', b'))
write_never_panics w u xs ys k x r h eq =
    let v = Reach-Reserved r h in
    let (cnt, tot) = middle xs ys (suc k) in
    let few : u.log.header.n < logblocks = omega (arith, v.fits, ap total eq, tot) in
    let (l', b', e, _) =
      write-Logged u.log u.bio x v.len few (omega (arith, v.sized, v.word_size))
        (omega (arith, v.count, ap length eq, cnt)) in
    (l', b', e)
