-- ===== src/Console/Read.antt =====
-- `Console::read`: what it takes, and why it ends.
use octopos.Base.{
  ℕ, zero, suc, ◌+◌, ◌%◌, ◌≤◌, ◌<◌, ◌≡◌, ◌≢◌, refl, ap, sym, subst, ◌∙◌, ◌⊎◌, inl, inr, Bool, false,
  not, ◌&&◌, ◌||◌, List, [], ◌∷◌, arith, length, get_or, ltb, ◌==◌, Bool-cases,
}
use octopos.Console.{
  Console, input_buf_size, newline, ctrl, Ends, returns, interrupted, sleeps, consume, read_from,
}
use octopos.Console.Input.{ready, byte, IsValid}

-- A read has copied out `bytes`, and has taken these and perhaps one byte more, a Ctrl-D or one that
-- could not be copied out.
pub record Took (i k : ℕ) (con : Console) (x : Console × List ℕ × Ends) : Type 0 where
  pub valid : IsValid x.0
  pub same : (x.0.w ≡ con.w) × (x.0.e ≡ con.e) × (x.0.buf ≡ con.buf)
  pub bytes : (j : ℕ) → j < length x.1 → get_or x.1 j 0 ≡ byte con j
  pub few : length x.1 ≤ k
  pub taken :
      (ready con ≡ length x.1 + ready x.0)
      ⊎ ((ready con ≡ length x.1 + 1 + ready x.0) × (x.2 ≡ returns (i + length x.1)))
  pub ends :
      (x.2 ≡ returns (i + length x.1))
      ⊎ ((x.2 ≡ interrupted) × (ready x.0 ≡ 0) × (length x.1 < k))
      ⊎ ((x.2 ≡ sleeps (i + length x.1)) × (ready x.0 ≡ 0) × (length x.1 < k))

ℕ-cases : (j : ℕ) → (j ≡ 0) ⊎ ((n : ℕ) × (j ≡ suc n))
ℕ-cases zero = inl refl
ℕ-cases (suc n) = inr (n, refl)

consume_lem :
    (con : Console)
    → IsValid con
    → (con.r == con.w) ≡ false
    → IsValid (consume con)
      × (ready con ≡ suc (ready (consume con)))
      × ((j : ℕ) → byte (consume con) j ≡ byte con (suc j))
unfolding consume
consume_lem con v ne =
    let apart : con.r ≢ con.w = ground (arith, ne) in
    let less : ready con ≡ suc (ready (consume con)) = omega (arith, v.words) in
    (
      record {
        size = v.size;
        words = omega (arith, v.words);
        order = omega (arith, v.words, v.order);
        bounded = omega (arith, v.words, v.order, v.bounded);
      },
      less,
      λ j. ap (λ m. get_or con.buf m 0) (omega arith),
    )

module _ (dst : ℕ → Bool) (killed : Bool) where
  nothing :
      (i k : ℕ) (con : Console) (e : Ends)
      → IsValid con
      → (e ≡ returns i) ⊎ (((e ≡ interrupted) ⊎ (e ≡ sleeps i)) × (ready con ≡ 0) × (0 < k))
      → Took i k con (con, [], e)
  nothing i k con e v why = record {
    valid = v;
    same = (refl, refl, refl);
    bytes = λ j h. absurd (omega arith);
    few = omega arith;
    taken = inl (omega arith);
    ends = elim why [
      | inl r ↦ inl (r ∙ ap {A = ℕ} returns (omega arith))
      | inr (inl a, z, p) ↦ inr (inl (a, z, p))
      | inr (inr b, z, p) ↦ inr (inr (b ∙ ap {A = ℕ} sleeps (omega arith), z, p))
    ];
  }

  -- One byte taken and not copied out
  swallowed :
      (i k : ℕ) (con : Console)
      → IsValid con
      → (con.r == con.w) ≡ false
      → Took i k con (consume con, [], returns i)
  unfolding consume
  swallowed i k con v ne =
      let (v', less, _) = consume_lem con v ne in
      record {
        valid = v';
        same = (refl, refl, refl);
        bytes = λ j h. absurd (omega arith);
        few = omega arith;
        taken = inr (omega (arith, less), ap {A = ℕ} returns (omega arith));
        ends = inl (ap {A = ℕ} returns (omega arith));
      }

  one_more :
      (i k : ℕ) (con : Console) (con' : Console) (bytes : List ℕ) (e : Ends)
      → IsValid con
      → (con.r == con.w) ≡ false
      → Took (i + 1) k (consume con) (con', bytes, e)
      → Took i (suc k) con (con', get_or con.buf (con.r % input_buf_size) 0 ∷ bytes, e)
  unfolding consume
  one_more i k con con' bytes e v ne t =
      let (v', less, next) = consume_lem con v ne in
      let at : i + 1 + length bytes ≡ i + suc (length bytes) = omega arith in
      record {
        valid = t.valid;
        same = t.same;
        bytes = λ j h. elim (ℕ-cases j) [
          | inl first ↦ ground (arith, first)
          | inr (n, later) ↦ rw later (t.bytes n (omega arith) ∙ next n)
        ];
        few = omega (arith, t.few);
        taken = elim t.taken [
          | inl all ↦ inl (omega (arith, all, less))
          | inr (lost, r) ↦ inr (omega (arith, lost, less), r ∙ ap returns at)
        ];
        ends = elim t.ends [
          | inl r ↦ inl (r ∙ ap returns at)
          | inr (inl (a, z, p)) ↦ inr (inl (a, z, omega arith))
          | inr (inr (b, z, p)) ↦ inr (inr (b ∙ ap sleeps at, z, omega arith))
        ];
      }

  -- From a valid console, a stretch of `read` copies out at most `k` bytes, the first of those that are
  -- committed and in their order, and keeps the counters in order. It takes nothing else out, except
  -- for one byte more, a Ctrl-D or one that could not be copied out, when it returns. It sleeps, or
  -- is interrupted, only with no committed byte left, and else it returns the number of bytes.
  pub read_from_lem :
      (k i : ℕ) (con : Console) → IsValid con → Took i k con (read_from dst killed k i con)
  unfolding read_from
  read_from_lem zero i con v = nothing i 0 con (returns i) v (inl refl)
  read_from_lem (suc k) i con v =
      let is : (x : Console × List ℕ × Ends)
          → Took i (suc k) con x
          → read_from dst killed (suc k) i con ≡ x
          → Took i (suc k) con (read_from dst killed (suc k) i con) =
        λ x t e. subst (λ y. Took i (suc k) con y) (sym e) t in
      elim (Bool-cases (con.r == con.w)) [
        | inl empty ↦
            let zero_ready : ready con ≡ 0 = ground (arith, empty, v.words) in
            elim (Bool-cases killed) [
              | inl dead ↦
                  is (con, [], interrupted)
                    (nothing i (suc k) con interrupted v (inr (inl refl, zero_ready, omega arith)))
                    (ground (arith, empty, dead))
              | inr alive ↦
                  is (con, [], sleeps i)
                    (nothing i (suc k) con (sleeps i) v (inr (inr refl, zero_ready, omega arith)))
                    (ground (arith, empty, alive))
            ]
        | inr full ↦ elim (Bool-cases (not con.raw && (c == ctrl 68))) [
          | inl eof ↦ elim (Bool-cases (ltb (suc k) (i + suc k))) [
            | inl later ↦
                is (con, [], returns i) (nothing i (suc k) con (returns i) v (inl refl))
                  (ground (arith, full, eof, later))
            | inr now ↦
                is (consume con, [], returns i) (swallowed i (suc k) con v full)
                  (ground (arith, full, eof, now))
          ]
          | inr plain ↦ elim (Bool-cases (dst i)) [
            | inr fault ↦
                is (consume con, [], returns i) (swallowed i (suc k) con v full)
                  (ground (arith, full, plain, fault))
            | inl fine ↦ elim (Bool-cases (c == newline || con.raw)) [
              | inl last ↦
                  is (consume con, c ∷ [], returns (i + 1))
                    (one_more i k con (consume con) [] (returns (i + 1)) v full (
                      nothing (i + 1) k (consume con) (returns (i + 1)) (consume_lem con v full).0
                        (inl refl)))
                    (ground (arith, full, plain, fine, last))
              | inr go ↦
                  let rest = read_from dst killed k (i + 1) (consume con) in
                  is (rest.0, c ∷ rest.1, rest.2)
                    (one_more i k con rest.0 rest.1 rest.2 v full
                      (read_from_lem k (i + 1) (consume con) (consume_lem con v full).0))
                    (ground (arith, full, plain, fine, go))
            ]
          ]
        ]
      ]
    where
      c : ℕ
      c = get_or con.buf (con.r % input_buf_size) 0
