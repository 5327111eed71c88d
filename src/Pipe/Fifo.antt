-- ===== src/Pipe/Fifo.antt =====
-- A pipe over a sequence of stretches of calls: what goes in comes out, in order, or is still held.
use octopos.Base.{
  ℕ, zero, suc, ◌+◌, ◌-◌, ◌%◌, ◌≡◌, refl, sym, subst, ◌∙◌, ap, ap₂, inl, inr, Bool, true, false,
  Option, none, some, List, [], ◌∷◌, ◌++◌, arith, length, length-append, append_assoc, append-nil,
}
use octopos.Pipe.{PipeInner, usize_mod, fresh, close, write, read}
use octopos.Pipe.Queue.{IsValid, held, contents, length-contents, fresh-IsValid}
use octopos.Pipe.Write.{Copies, write_lem}
use octopos.Pipe.Read.{read_lem}

-- One stretch of a call under the lock.
pub data Call : Type 0 where
  writes : (ℕ → Option ℕ) → (ℕ → Bool) → ℕ → Call
  reads : (ℕ → Bool) → Bool → ℕ → Call
  closes : Bool → Call

-- The first `m` bytes of user memory from place `i` on.
abbrev pub bytes_at : (ℕ → Option ℕ) → ℕ → ℕ → List ℕ
bytes_at src i zero = []
bytes_at src i (suc m) = elim (src i) [ none ↦ 0 | some c ↦ c ] ∷ bytes_at src (i + 1) m

-- The bytes by which the write counter has moved on.
abbrev moved : PipeInner → PipeInner → ℕ
moved p q = (q.num_write + usize_mod - p.num_write) % usize_mod

-- The pipe, the bytes that its writers have put in, and those its readers have got.
pub record Line : Type 0 where
  pub pipe : PipeInner
  pub ins : List ℕ
  pub outs : List ℕ

abbrev pub step : Call → Line → Line
step (writes src killed n) l =
    let q = (write src killed n l.pipe).0 in
    record l { pipe = q; ins = l.ins ++ bytes_at src 0 (moved l.pipe q) }
step (reads dst killed n) l =
    let r = read dst killed n l.pipe in record l { pipe = r.0; outs = l.outs ++ r.1 }
step (closes writeable) l = record l { pipe = (close writeable l.pipe).0 }

abbrev pub run : List Call → Line → Line
run [] l = l
run (c ∷ cs) l = run cs (step c l)

pub record InOrder (l : Line) : Type 0 where
  pub valid : IsValid l.pipe
  pub kept : l.ins ≡ l.outs ++ contents l.pipe

Copies-bytes_at :
    (src : ℕ → Option ℕ) (i : ℕ) (bytes : List ℕ)
    → Copies src i bytes
    → bytes ≡ bytes_at src i (length bytes)
Copies-bytes_at src i [] c = refl
Copies-bytes_at src i (b ∷ bytes) c =
    ap₂ ◌∷◌ (ground (arith, c.0)) (Copies-bytes_at src (i + 1) bytes c.1)

writes-InOrder :
    (src : ℕ → Option ℕ) (killed : ℕ → Bool) (n : ℕ) (l : Line)
    → InOrder l
    → InOrder (step (writes src killed n) l)
writes-InOrder src killed n l o =
    let p = l.pipe in
    let q = (write src killed n l.pipe).0 in
    let w = write_lem src killed n p o.valid in
    let grown : held q ≡ held p + length w.bytes =
      sym (length-contents q)
      ∙ (ap (λ t. length t) w.stored
          ∙ (length-append (contents p) w.bytes
              ∙ ap (λ t. t + length w.bytes) (length-contents p))) in
    let count : moved p q ≡ length w.bytes = omega (
      arith, grown, w.same_reader, w.valid.bounded, w.valid.write_word, w.valid.read_word,
      o.valid.bounded, o.valid.write_word, o.valid.read_word,
    ) in
    record {
      valid = w.valid;
      kept =
          ap₂ ◌++◌ o.kept
            (ap (λ m. bytes_at src 0 m) count ∙ sym (Copies-bytes_at src 0 w.bytes w.copied))
          ∙ (append_assoc l.outs (contents p) w.bytes ∙ ap (λ t. l.outs ++ t) (sym w.stored));
    }

reads-InOrder :
    (dst : ℕ → Bool) (killed : Bool) (n : ℕ) (l : Line)
    → InOrder l
    → InOrder (step (reads dst killed n) l)
reads-InOrder dst killed n l o = elim (read_lem dst killed n l.pipe o.valid) [
  | inl (empty, opened, same) ↦ record {
    valid = subst (λ r. IsValid r.0) (sym same) o.valid;
    kept =
        o.kept
        ∙ (ap (λ t. t ++ contents l.pipe) (sym (append-nil l.outs))
            ∙ ap (λ r. (l.outs ++ r.1) ++ contents r.0) (sym same));
  }
  | inr (_, t) ↦ record {
    valid = t.valid;
    kept =
        o.kept
        ∙ (ap (λ c. l.outs ++ c) t.taken
            ∙ sym (
                append_assoc l.outs (read dst killed n l.pipe).1
                  (contents (read dst killed n l.pipe).0)));
  }
]

step-InOrder : (c : Call) (l : Line) → InOrder l → InOrder (step c l)
unfolding close
step-InOrder (writes src killed n) l o = writes-InOrder src killed n l o
step-InOrder (reads dst killed n) l o = reads-InOrder dst killed n l o
step-InOrder (closes true) l o = record {
  valid = record {
    storage = o.valid.storage;
    read_word = o.valid.read_word;
    write_word = o.valid.write_word;
    bounded = o.valid.bounded;
  };
  kept = o.kept;
}
step-InOrder (closes false) l o = record {
  valid = record {
    storage = o.valid.storage;
    read_word = o.valid.read_word;
    write_word = o.valid.write_word;
    bounded = o.valid.bounded;
  };
  kept = o.kept;
}

run-InOrder : (cs : List Call) (l : Line) → InOrder l → InOrder (run cs l)
run-InOrder [] l o = o
run-InOrder (c ∷ cs) l o = run-InOrder cs (step c l) (step-InOrder c l o)

-- Whatever stretches of `write`, `read` and `close` run on a new pipe, in whatever order and with
-- whatever faults and kills, the bytes put in are, in order, those got out followed by those that the
-- pipe holds, and it holds at most 512.
pub fifo : (cs : List Call) → InOrder (run cs (record { pipe = fresh; ins = []; outs = [] }))
fifo cs =
    run-InOrder cs (record { pipe = fresh; ins = []; outs = [] })
      (record { valid = fresh-IsValid.0; kept = sym fresh-IsValid.1 })
