-- ===== src/Pipe.antt =====
-- kernel/src/pipe.rs: the ring buffer of a pipe, one stretch under the pipe's lock at a time. User
-- memory is an argument: `src i` is the byte at `addr + i`, if it can be copied in, and `dst i` says
-- whether a byte can be copied out there. `killed i` is `proc.is_killed()` in the round that has
-- moved `i` bytes.
pub mod Queue
pub mod Write
pub mod Read
pub mod Fifo
mod Tests
use octopos.Base.{
  ℕ, zero, suc, ◌+◌, ◌%◌, ◌^◌, Bool, true, false, not, ◌&&◌, Option, none, some, List, [], ◌∷◌,
  ◌==◌, if◌then◌else◌, get_or, set, replicate,
}

abbrev pub pipesize : ℕ
pipesize = 512

abbrev pub usize_mod : ℕ
usize_mod = 2 ^ 64

-- `num_read` and `num_write` count bytes on usize, with wrap-around.
pub record PipeInner : Type 0 where
  pub buf : List ℕ
  pub num_read : ℕ
  pub num_write : ℕ
  pub read_open : Bool
  pub write_open : Bool

-- The state that `Pipe::alloc` makes.
pub fresh : PipeInner
fresh = record {
  buf = replicate pipesize 0;
  num_read = 0;
  num_write = 0;
  read_open = true;
  write_open = true;
}

-- The channel that a call wakes up: `PipeRead` or `PipeWrite` of this pipe.
pub data Wake : Type 0 where
  readers writers : Wake

-- `Pipe::close`
pub close : Bool → PipeInner → PipeInner × Wake
close true p = (record p { write_open = false }, readers)
close false p = (record p { read_open = false }, writers)

-- How a stretch ends: the call returns a count or an error, or sleeps with `i` bytes moved.
pub data Ends : Type 0 where
  returns : ℕ → Ends
  interrupted broken_pipe bad_address : Ends
  sleeps : ℕ → Ends

-- `inner.data[index] = ch[0]; inner.num_write += 1`
pub push : PipeInner → ℕ → PipeInner
push p c = record p {
  buf = set p.buf (p.num_write % pipesize) c;
  num_write = (p.num_write + 1) % usize_mod;
}

abbrev pub is_full : PipeInner → Bool
is_full p = p.num_write == (p.num_read + pipesize) % usize_mod

abbrev pub is_empty : PipeInner → Bool
is_empty p = p.num_read == p.num_write

-- `Pipe::write`, with `i` bytes written and `k` to go, up to its end or its next sleep. A writer that
-- sleeps goes on here with the same `i` and `k`.
pub write_from : (ℕ → Option ℕ) → (ℕ → Bool) → ℕ → ℕ → PipeInner → PipeInner × List Wake × Ends
write_from src killed zero i p = (p, readers ∷ [], returns i)
write_from src killed (suc k) i p =
    let copied : PipeInner × List Wake × Ends = elim (src i) [
      | none ↦ (p, readers ∷ [], returns i)
      | some c ↦ write_from src killed k (i + 1) (push p c)
    ] in
    if killed i
    then (p, [], interrupted)
    else if not p.read_open
    then (p, [], broken_pipe)
    else if is_full p
    then (p, readers ∷ [], sleeps i)
    else copied

pub write : (ℕ → Option ℕ) → (ℕ → Bool) → ℕ → PipeInner → PipeInner × List Wake × Ends
write src killed n p = write_from src killed n 0 p

-- `inner.num_read += 1`
pub pop : PipeInner → PipeInner
pop p = record p { num_read = (p.num_read + 1) % usize_mod }

-- The copying loop of `Pipe::read`, with `i` bytes read and `k` to go. The list is what has been
-- copied out.
pub read_from : (ℕ → Bool) → ℕ → ℕ → PipeInner → PipeInner × List ℕ × List Wake × Ends
read_from dst zero i p = (p, [], writers ∷ [], returns i)
read_from dst (suc k) i p =
    let rest = read_from dst k (i + 1) (pop p) in
    if is_empty p
    then (p, [], writers ∷ [], returns i)
    else if dst i
    then (let (p', bytes, wakes, e) = rest in
        (p', get_or p.buf (p.num_read % pipesize) 0 ∷ bytes, wakes, e))
    else (p, [], [], bad_address)

-- `Pipe::read`: a reader of an empty pipe sleeps while the write end is open.
pub read : (ℕ → Bool) → Bool → ℕ → PipeInner → PipeInner × List ℕ × List Wake × Ends
read dst killed n p =
    if is_empty p && p.write_open
    then (if killed then (p, [], [], interrupted) else (p, [], [], sleeps 0))
    else read_from dst n 0 p
