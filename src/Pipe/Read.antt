-- ===== src/Pipe/Read.antt =====
-- `Pipe::read`: what one stretch of a read under the lock does, on every way it ends.
use octopos.Base.{
  ℕ, zero, suc, ◌+◌, ◌%◌, ◌<◌, ◌≡◌, refl, sym, subst, ◌∙◌, ap, ◌⊎◌, inl, inr, Bool, true, false,
  ◌&&◌, Bool-cases, List, [], ◌∷◌, ◌++◌, arith, length, get_or, if◌then◌else◌,
}
use octopos.Pipe.{
  PipeInner, pipesize, Wake, writers, Ends, returns, interrupted, broken_pipe, bad_address, sleeps,
  pop, is_empty, read_from, read,
}
use octopos.Pipe.Queue.{IsValid, held, contents, pop_lem}

-- Why the copying loop of a read ends as it does, after `m` bytes of `k` from place `i` on, in state
-- `p` with the channels `wakes` woken.
abbrev pub ReadEnds : (ℕ → Bool) → ℕ → ℕ → ℕ → PipeInner → List Wake → Ends → Type 0
ReadEnds dst i k m p wakes (returns n) =
    (n ≡ i + m) × (wakes ≡ writers ∷ []) × ((m ≡ k) ⊎ ((m < k) × (held p ≡ 0)))
ReadEnds dst i k m p wakes bad_address =
    (m < k) × (wakes ≡ []) × (dst (i + m) ≡ false) × (0 < held p)
ReadEnds dst i k m p wakes (sleeps n) = ⊥
ReadEnds dst i k m p wakes interrupted = ⊥
ReadEnds dst i k m p wakes broken_pipe = ⊥

pub record Took (dst : ℕ → Bool) (i k : ℕ) (p : PipeInner)
    (r : PipeInner × List ℕ × List Wake × Ends) : Type 0 where
  pub valid : IsValid r.0
  pub taken : contents p ≡ r.1 ++ contents r.0
  pub same_writer : r.0.num_write ≡ p.num_write
  pub ends : ReadEnds dst i k (length r.1) r.0 r.2 r.3

module _ (dst : ℕ → Bool) where
  -- The end of the rest of the loop, seen from one byte earlier.
  one_earlier :
      (k i m : ℕ) (p : PipeInner) (wakes : List Wake) (e : Ends)
      → ReadEnds dst (i + 1) k m p wakes e
      → ReadEnds dst i (suc k) (suc m) p wakes e
  one_earlier k i m p wakes (returns n) w = ground (arith, w)
  one_earlier k i m p wakes bad_address w =
      (omega (arith, w.0), w.1, ap dst (omega arith) ∙ w.2, w.3)
  one_earlier k i m p wakes (sleeps n) w = w
  one_earlier k i m p wakes interrupted w = w
  one_earlier k i m p wakes broken_pipe w = w

  -- One byte popped, and what the rest of the loop does.
  one_more :
      (k i : ℕ) (p p' : PipeInner) (bytes : List ℕ) (wakes : List Wake) (e : Ends)
      → IsValid p
      → 0 < held p
      → Took dst (i + 1) k (pop p) (p', bytes, wakes, e)
      → Took dst i (suc k) p (p', get_or p.buf (p.num_read % pipesize) 0 ∷ bytes, wakes, e)
  unfolding pop
  one_more k i p p' bytes wakes e v some_held w = record {
    valid = w.valid;
    taken =
        (pop_lem p v some_held).1 ∙ ap (λ t. get_or p.buf (p.num_read % pipesize) 0 ∷ t) w.taken;
    same_writer = w.same_writer;
    ends = one_earlier k i (length bytes) p' wakes e w.ends;
  }

  pub read_from_lem : (k i : ℕ) (p : PipeInner) → IsValid p → Took dst i k p (read_from dst k i p)
  unfolding read_from
  read_from_lem zero i p v = record {
    valid = v;
    taken = refl;
    same_writer = refl;
    ends = (omega arith, refl, inl refl);
  }
  read_from_lem (suc k) i p v =
      let is : (r : PipeInner × List ℕ × List Wake × Ends)
          → Took dst i (suc k) p r
          → read_from dst (suc k) i p ≡ r
          → Took dst i (suc k) p (read_from dst (suc k) i p) =
        λ r w e. subst (λ t. Took dst i (suc k) p t) (sym e) w in
      elim (Bool-cases (is_empty p)) [
        | inl empty ↦
            is (p, [], writers ∷ [], returns i)
              (record {
                valid = v;
                taken = refl;
                same_writer = refl;
                ends = (omega arith, refl, inr (omega arith, ground (arith, empty, v.read_word)));
              })
              (ground arith)
        | inr full ↦ elim (Bool-cases (dst i)) [
          | inr fault ↦
              is (p, [], [], bad_address)
                (record {
                  valid = v;
                  taken = refl;
                  same_writer = refl;
                  ends = (
                    omega arith,
                    refl,
                    ap {A = ℕ} dst (omega arith) ∙ fault,
                    ground (arith, full, v.read_word, v.write_word),
                  );
                })
                (ground arith)
          | inl fine ↦
              let rest = read_from dst k (i + 1) (pop p) in
              let some_held : 0 < held p = ground (arith, full, v.read_word, v.write_word) in
              is (rest.0, get_or p.buf (p.num_read % pipesize) 0 ∷ rest.1, rest.2, rest.3)
                (one_more k i p rest.0 rest.1 rest.2 rest.3 v some_held
                  (read_from_lem k (i + 1) (pop p) (pop_lem p v some_held).0))
                (ground arith)
        ]
      ]

-- From any valid pipe, a stretch of `read` of an empty pipe with an open write end moves nothing and
-- sleeps, or is interrupted if the process was killed. Any other read, of a pipe that holds bytes or has
-- its write end closed, takes its bytes from the front of the contents, in order, and keeps the pipe
-- valid: it returns with all `n` bytes or with an empty pipe, or fails at a fault of user memory with
-- bytes left.
pub read_lem :
    (dst : ℕ → Bool) (killed : Bool) (n : ℕ) (p : PipeInner)
    → IsValid p
    → ((held p ≡ 0)
        × (p.write_open ≡ true)
        × (read dst killed n p ≡ (p, [], [], if killed then interrupted else sleeps 0)))
      ⊎ (((0 < held p) ⊎ (p.write_open ≡ false)) × Took dst 0 n p (read dst killed n p))
unfolding read
read_lem dst killed n p v = elim (Bool-cases (is_empty p && p.write_open)) [
  | inl wait ↦ inl (ground (arith, wait, v.read_word), ground (arith, wait), ground (arith, wait))
  | inr go ↦ inr (
    elim (Bool-cases p.write_open) [
      | inr closed_end ↦ inr closed_end
      | inl open_end ↦ inl (ground (arith, go, open_end, v.read_word, v.write_word))
    ],
    subst (λ t. Took dst 0 n p t) (sym (ground (arith, go))) (read_from_lem dst n 0 p v),
  )
]
