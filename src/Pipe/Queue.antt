-- ===== src/Pipe/Queue.antt =====
-- The bytes that a pipe holds, oldest first, and the invariant of its counters.
use octopos.Base.{
  ℕ, zero, suc, ◌+◌, ◌-◌, ◌%◌, ◌≤◌, ◌<◌, ◌≡◌, refl, List, [], ◌∷◌, ◌++◌, arith, length, get_or, set,
  ap, ap₂, ◌∙◌, get_or-set_self, get_or-set_ne, length-set, length-replicate,
}
use octopos.Pipe.{PipeInner, pipesize, usize_mod, push, pop, fresh}

module _ (buf : List ℕ) where
  -- `n` bytes from count `h` on
  abbrev pub window : ℕ → ℕ → List ℕ
  window h zero = []
  window h (suc n) = get_or buf (h % pipesize) 0 ∷ window (h + 1) n

  -- Only the place in the ring matters.
  window-mod : (h h' n : ℕ) → h % pipesize ≡ h' % pipesize → window h n ≡ window h' n
  window-mod h h' zero e = refl
  window-mod h h' (suc n) e =
      ap₂ ◌∷◌ (ap (λ i. get_or buf i 0) e) (window-mod (h + 1) (h' + 1) n (omega arith))

  length-window : (h n : ℕ) → length (window h n) ≡ n
  length-window h zero = refl
  length-window h (suc n) = ap suc (length-window (h + 1) n)

-- A byte written behind the window extends it.
window-set :
    (buf : List ℕ) (c n h : ℕ)
    → length buf ≡ pipesize
    → n < pipesize
    → window (set buf ((h + n) % pipesize) c) h (suc n) ≡ window buf h n ++ (c ∷ [])
window-set buf c zero h len lt =
    ap (λ b. b ∷ [])
      (ap (λ i. get_or (set buf i c) (h % pipesize) 0) (omega arith)
        ∙ get_or-set_self buf (h % pipesize) c 0 (omega arith))
window-set buf c (suc n) h len lt =
    ap₂ ◌∷◌ (get_or-set_ne buf ((h + suc n) % pipesize) (h % pipesize) c 0 (omega arith)) (
      ap (λ i. window (set buf (i % pipesize) c) (h + 1) (suc n)) (omega arith)
      ∙ window-set buf c n (h + 1) len (omega arith))

-- The number of bytes held, by the wrapping counters.
abbrev pub held : PipeInner → ℕ
held p = (p.num_write + usize_mod - p.num_read) % usize_mod

abbrev pub contents : PipeInner → List ℕ
contents p = window p.buf p.num_read (held p)

pub record IsValid (p : PipeInner) : Type 0 where
  pub storage : length p.buf ≡ pipesize
  pub read_word : p.num_read < usize_mod
  pub write_word : p.num_write < usize_mod
  pub bounded : held p ≤ pipesize

pub length-contents : (p : PipeInner) → length (contents p) ≡ held p
length-contents p = length-window p.buf p.num_read (held p)

-- A byte pushed on a pipe that is not full goes behind the others.
pub push_lem :
    (p : PipeInner) (c : ℕ)
    → IsValid p
    → held p < pipesize
    → IsValid (push p c) × (contents (push p c) ≡ contents p ++ (c ∷ []))
unfolding push
push_lem p c v room =
    let count : held (push p c) ≡ suc (held p) = omega arith in
    let at : p.num_write % pipesize ≡ (p.num_read + held p) % pipesize = omega arith in
    (
      record {
        storage = length-set p.buf (p.num_write % pipesize) c ∙ v.storage;
        read_word = v.read_word;
        write_word = omega arith;
        bounded = omega arith;
      },
      (ap (λ n. window (set p.buf (p.num_write % pipesize) c) p.num_read n) count
          ∙ (ap (λ i. window (set p.buf i c) p.num_read (suc (held p))) at
              ∙ window-set p.buf c (held p) p.num_read v.storage room)),
    )

-- The oldest byte is popped.
pub pop_lem :
    (p : PipeInner)
    → IsValid p
    → 0 < held p
    → IsValid (pop p) × (contents p ≡ get_or p.buf (p.num_read % pipesize) 0 ∷ contents (pop p))
unfolding pop
pop_lem p v some_held =
    let count : held p ≡ suc (held (pop p)) = omega arith in
    (
      record {
        storage = v.storage;
        read_word = omega arith;
        write_word = v.write_word;
        bounded = omega arith;
      },
      (ap (λ n. window p.buf p.num_read n) count
          ∙ ap (λ t. get_or p.buf (p.num_read % pipesize) 0 ∷ t)
              (window-mod p.buf (p.num_read + 1) ((p.num_read + 1) % usize_mod) (held (pop p))
                (omega arith))),
    )

pub fresh-IsValid : IsValid fresh × (contents fresh ≡ [])
unfolding fresh
fresh-IsValid = (
  record {
    storage = length-replicate {A = ℕ} pipesize 0;
    read_word = omega arith;
    write_word = omega arith;
    bounded = omega arith;
  },
  refl,
)
