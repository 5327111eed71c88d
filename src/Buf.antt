-- ===== src/Buf.antt =====
-- kernel/src/buf.rs: the buffer cache's table of buffers and its ring, in the order of their last use.
-- The contents of the buffers are not part of this state. The table is a function on the places of the
-- array, of which the code reads those below NBUF; `none` is a panic.
pub mod Ring
pub mod Release
pub mod Get
pub mod Init
mod Tests
use octopos.Base.{
  ℕ, zero, suc, ◌+◌, ◌-◌, ◌%◌, ◌^◌, Bool, true, false, ◌&&◌, Option, none, some, ◌==◌,
  if◌then◌else◌, update,
}

abbrev pub nbuf : ℕ
nbuf = 30

abbrev pub u32_mod : ℕ
u32_mod = 2 ^ 32

pub record BufMeta : Type 0 where
  pub valid : Bool
  pub disk : Bool
  pub dev : ℕ
  pub block_no : ℕ
  pub ref_count : ℕ
  pub prev : ℕ
  pub next : ℕ

-- `BufMeta::new`
pub new_meta : BufMeta
new_meta = record {
  valid = false;
  disk = false;
  dev = 0;
  block_no = 0;
  ref_count = 0;
  prev = 0;
  next = 0;
}

pub record BCacheInner : Type 0 where
  pub meta : ℕ → BufMeta
  pub head : ℕ

abbrev pub set_prev : ℕ → ℕ → (ℕ → BufMeta) → ℕ → BufMeta
set_prev i v m = update m i (record (m i) { prev = v })

abbrev pub set_next : ℕ → ℕ → (ℕ → BufMeta) → ℕ → BufMeta
set_next i v m = update m i (record (m i) { next = v })

-- The loop of `init`, at place `i` with `k` to go.
pub link_from : ℕ → ℕ → (ℕ → BufMeta) → ℕ → BufMeta
link_from zero i m = m
link_from (suc k) i m = link_from k (i + 1) (
    set_next i (if i == nbuf - 1 then 0 else i + 1)
      (set_prev i (if i == 0 then nbuf - 1 else i - 1) m))

-- `init`
pub init : BCacheInner → BCacheInner
init s = record { meta = link_from nbuf 0 s.meta; head = 0 }

-- The first loop of `get`, at place `i` with `k` to go: the place of the block.
pub find_cached : ℕ → ℕ → (ℕ → BufMeta) → ℕ → ℕ → Option ℕ
find_cached dev block m zero i = none
find_cached dev block m (suc k) i =
    let rest = find_cached dev block m k (i + 1) in
    if (m i).dev == dev && ((m i).block_no == block) then some i else rest

-- The second loop of `get`, from place `i` on, with at most `k` rounds.
pub recycle : (ℕ → BufMeta) → ℕ → ℕ → ℕ → Option ℕ
recycle m head zero i = none
recycle m head (suc k) i =
    let rest = recycle m head k (m i).prev in
    if i == head then none else if (m i).ref_count == 0 then some i else rest

-- `ref_count += 1` and `ref_count -= 1`
abbrev pub add_user : BufMeta → BufMeta
add_user b = record b { ref_count = (b.ref_count + 1) % u32_mod }

abbrev pub drop_user : BufMeta → BufMeta
drop_user b = record b { ref_count = (b.ref_count + (u32_mod - 1)) % u32_mod }

abbrev pub at_meta : ℕ → (BufMeta → BufMeta) → BCacheInner → BCacheInner
at_meta i f s = record s { meta = update s.meta i (f (s.meta i)) }

abbrev pub takes_over : ℕ → ℕ → BufMeta → BufMeta
takes_over dev block b = record b { dev = dev; block_no = block; valid = false }

-- `BCache::get`: the place of the buffer
pub get : ℕ → ℕ → BCacheInner → Option (ℕ × BCacheInner)
get dev block s = elim (find_cached dev block s.meta nbuf 0) [
  | some i ↦ some (i, at_meta i add_user s)
  | none ↦ elim (recycle s.meta s.head nbuf (s.meta s.head).prev) [
    | none ↦ none
    | some i ↦ some (i, at_meta i (λ b. add_user (takes_over dev block b)) s)
  ]
]

-- `BCache::read`, with whether the block is read from the disk
pub read : ℕ → ℕ → BCacheInner → Option (ℕ × Bool × BCacheInner)
read dev block s = elim (get dev block s) [
  | none ↦ none
  | some (i, s') ↦
      if (s'.meta i).valid
      then some (i, false, s')
      else some (i, true, at_meta i (λ b. record b { valid = true }) s')
]

-- `BCache::release`, the moves in the ring: out of it, and in again after the head
pub unlink : ℕ → (ℕ → BufMeta) → ℕ → BufMeta
unlink id m = let m₁ = set_prev (m id).next (m id).prev m in set_next (m id).prev (m₁ id).next m₁

pub put_first : ℕ → ℕ → (ℕ → BufMeta) → ℕ → BufMeta
put_first id head m =
    let first = (m head).next in
    set_next head id (set_prev first id (set_prev id head (set_next id first m)))

-- `BCache::release`
pub release : ℕ → BCacheInner → BCacheInner
release id s =
    let s' = at_meta id drop_user s in
    if (s'.meta id).ref_count == 0
    then record s' { meta = put_first id s.head (unlink id s'.meta) }
    else s'

-- `BCache::pin` and `BCache::unpin`
pub pin : ℕ → BCacheInner → BCacheInner
pin id s = at_meta id add_user s

pub unpin : ℕ → BCacheInner → BCacheInner
unpin id s = at_meta id drop_user s
