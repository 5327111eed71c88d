-- ===== src/Pipe/Write.antt =====
-- `Pipe::write`: what one stretch of a write under the lock does, on every way it ends.
use octopos.Base.{
  append-nil, append_assoc, ℕ, zero, suc, ◌+◌, ◌<◌, ◌≡◌, refl, sym, subst, ◌∙◌, ap, ◌⊎◌, inl, inr,
  Bool, true, false, Option, none, some, Option-cases, Bool-cases, List, [], ◌∷◌, ◌++◌, arith,
  length,
}
use octopos.Pipe.{
  PipeInner, pipesize, Wake, readers, Ends, returns, interrupted, broken_pipe, bad_address, sleeps,
  push, is_full, write_from, write,
}
use octopos.Pipe.Queue.{IsValid, held, contents, push_lem}

-- The bytes are those that can be copied in from place `i` on.
abbrev pub Copies : (ℕ → Option ℕ) → ℕ → List ℕ → Type 0
Copies src i [] = Unit
Copies src i (b ∷ bs) = (src i ≡ some b) × Copies src (i + 1) bs

-- Why a write ends as it does, after `m` bytes of `k` from place `i` on, in state `p` with the
-- channels `wakes` woken.
abbrev pub WriteEnds :
    (ℕ → Option ℕ) → (ℕ → Bool) → ℕ → ℕ → ℕ → PipeInner → List Wake → Ends → Type 0
WriteEnds src killed i k m p wakes (returns n) =
    (n ≡ i + m) × (wakes ≡ readers ∷ []) × ((m ≡ k) ⊎ (src n ≡ none))
WriteEnds src killed i k m p wakes (sleeps n) =
    (n ≡ i + m) × (wakes ≡ readers ∷ []) × (m < k) × (held p ≡ pipesize)
WriteEnds src killed i k m p wakes interrupted = (m < k) × (killed (i + m) ≡ true)
WriteEnds src killed i k m p wakes broken_pipe = (m < k) × (p.read_open ≡ false)
WriteEnds src killed i k m p wakes bad_address = ⊥

pub record Wrote (src : ℕ → Option ℕ) (killed : ℕ → Bool) (i k : ℕ) (p : PipeInner)
    (r : PipeInner × List Wake × Ends) : Type 0 where
  pub bytes : List ℕ
  pub copied : Copies src i bytes
  pub valid : IsValid r.0
  pub stored : contents r.0 ≡ contents p ++ bytes
  pub same_reader : r.0.num_read ≡ p.num_read
  pub ends : WriteEnds src killed i k (length bytes) r.0 r.1 r.2

module _ (src : ℕ → Option ℕ) (killed : ℕ → Bool) where
  -- Nothing is moved.
  stays :
      (i k : ℕ) (p : PipeInner) (wakes : List Wake) (e : Ends)
      → IsValid p
      → WriteEnds src killed i k 0 p wakes e
      → Wrote src killed i k p (p, wakes, e)
  stays i k p wakes e v w = record {
    bytes = [];
    copied = tt;
    valid = v;
    stored = sym (append-nil (contents p));
    same_reader = refl;
    ends = w;
  }

  -- The end of the rest, seen from one byte earlier.
  one_earlier :
      (i k m : ℕ) (p : PipeInner) (wakes : List Wake) (e : Ends)
      → WriteEnds src killed (i + 1) k m p wakes e
      → WriteEnds src killed i (suc k) (suc m) p wakes e
  one_earlier i k m p wakes (returns n) w = ground (arith, w)
  one_earlier i k m p wakes (sleeps n) w = (omega (arith, w.0), w.1, omega (arith, w.2), w.3)
  one_earlier i k m p wakes interrupted w = (omega (arith, w.0), ap killed (omega arith) ∙ w.1)
  one_earlier i k m p wakes broken_pipe w = (omega (arith, w.0), w.1)
  one_earlier i k m p wakes bad_address w = w

  -- One byte pushed, and what the rest of the loop does.
  one_more :
      (i k c : ℕ) (p : PipeInner) (r : PipeInner × List Wake × Ends)
      → src i ≡ some c
      → IsValid p
      → held p < pipesize
      → Wrote src killed (i + 1) k (push p c) r
      → Wrote src killed i (suc k) p r
  unfolding push
  one_more i k c p r got v room w = record {
    bytes = c ∷ w.bytes;
    copied = (got, w.copied);
    valid = w.valid;
    stored =
        w.stored
        ∙ (ap (λ t. t ++ w.bytes) (push_lem p c v room).1
            ∙ append_assoc (contents p) (c ∷ []) w.bytes);
    same_reader = w.same_reader;
    ends = one_earlier i k (length w.bytes) r.0 r.1 r.2 w.ends;
  }

  pub write_from_lem :
      (k i : ℕ) (p : PipeInner) → IsValid p → Wrote src killed i k p (write_from src killed k i p)
  unfolding write_from
  write_from_lem zero i p v = stays i 0 p (readers ∷ []) (returns i) v (omega arith, refl, inl refl)
  write_from_lem (suc k) i p v =
      let is : (r : PipeInner × List Wake × Ends)
          → Wrote src killed i (suc k) p r
          → write_from src killed (suc k) i p ≡ r
          → Wrote src killed i (suc k) p (write_from src killed (suc k) i p) =
        λ r w e. subst (λ t. Wrote src killed i (suc k) p t) (sym e) w in
      elim (Bool-cases (killed i)) [
        | inl dead ↦
            is (p, [], interrupted)
              (stays i (suc k) p [] interrupted v
                (omega arith, ap {A = ℕ} killed (omega arith) ∙ dead))
              (ground arith)
        | inr alive ↦ elim (Bool-cases p.read_open) [
          | inr shut ↦
              is (p, [], broken_pipe) (stays i (suc k) p [] broken_pipe v (omega arith, shut))
                (ground arith)
          | inl opened ↦ elim (Bool-cases (is_full p)) [
            | inl full ↦
                is (p, readers ∷ [], sleeps i)
                  (stays i (suc k) p (readers ∷ []) (sleeps i) v (
                    omega arith,
                    refl,
                    omega arith,
                    ground (arith, full, v.bounded, v.read_word, v.write_word),
                  ))
                  (ground arith)
            | inr room ↦ elim (Option-cases (src i)) [
              | inl fault ↦
                  is (p, readers ∷ [], returns i)
                    (stays i (suc k) p (readers ∷ []) (returns i) v (omega arith, refl, inr fault))
                    (ground arith)
              | inr (c, got) ↦
                  let free : held p < pipesize =
                    ground (arith, room, v.bounded, v.read_word, v.write_word) in
                  is (write_from src killed k (i + 1) (push p c))
                    (one_more i k c p (write_from src killed k (i + 1) (push p c)) got v free
                      (write_from_lem k (i + 1) (push p c) (push_lem p c v free).0))
                    (ground arith)
            ]
          ]
        ]
      ]

-- From any valid pipe, a stretch of `write` appends to the contents exactly the bytes it copied in,
-- in order, and keeps the pipe valid. It returns only with all `n` bytes or at a fault of user memory,
-- sleeps only on a pipe that holds 512 bytes, fails only if the process was killed or the read end is
-- closed, and wakes the readers whenever it returns or sleeps.
pub write_lem :
    (src : ℕ → Option ℕ) (killed : ℕ → Bool) (n : ℕ) (p : PipeInner)
    → IsValid p
    → Wrote src killed 0 n p (write src killed n p)
unfolding write
write_lem src killed n p v = write_from_lem src killed n 0 p v
