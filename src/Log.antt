-- ===== src/Log.antt =====
-- kernel/src/log.rs: the write-ahead log, over the part of kernel/src/buf.rs that it calls.
-- `LogInner` has the fields of the source (all under LOG.inner). A block is its list of u32 words,
-- as the header is read; the other blocks are only copied whole.
pub mod Header
pub mod Durable
pub mod Recovery
pub mod WriteLog
pub mod Commit
pub mod Crash
pub mod Ops
pub mod Reserve
mod Tests
use octopos.Base.{
  ℕ, zero, suc, ◌+◌, ◌-◌, ◌*◌, ◌%◌, ◌^◌, Bool, true, false, ◌||◌, Option, none, some, List, ltb,
  leb, ◌==◌, if◌then◌else◌, get_elem?, get_or, set, replicate, update,
}

abbrev pub maxopblocks : ℕ
maxopblocks = 10

abbrev pub logblocks : ℕ
logblocks = 30

abbrev pub Block : Type 0
Block = List ℕ

abbrev pub word : Block → ℕ → ℕ
word b i = get_or b i 0

-- The device under the log. `mem` is a block as the buffer cache shows it, `disk` what the disk
-- holds, `pins` the references that `BCACHE.pin` added. `power` counts the writes that still reach
-- the disk: the machine stops at that point of the sequence of writes.
pub record Bio : Type 0 where
  pub disk : ℕ → Block
  pub mem : ℕ → Block
  pub pins : ℕ → ℕ
  pub power : ℕ

-- `BCACHE.write`
pub bwrite : Bio → ℕ → Block → Bio
bwrite b i v = record b {
  disk = if b.power == 0 then b.disk else update b.disk i v;
  mem = update b.mem i v;
  power = b.power - 1;
}

-- `BCACHE.pin` and `BCACHE.unpin`
abbrev pub pin : Bio → ℕ → Bio
pin b i = record b { pins = update b.pins i (b.pins i + 1) }

abbrev pub unpin : Bio → ℕ → Bio
unpin b i = record b { pins = update b.pins i (b.pins i - 1) }

-- After the machine stops: the cache is gone, and it runs again for `power` writes.
abbrev pub restart : Bio → ℕ → Bio
restart b power = record { disk = b.disk; mem = b.disk; pins = λ _. 0; power = power }

pub record LogHeader : Type 0 where
  pub n : ℕ
  pub blocks : List ℕ

pub record LogInner : Type 0 where
  pub start : ℕ
  pub size : ℕ
  pub outstanding : ℕ
  pub committing : Bool
  pub dev : ℕ
  pub header : LogHeader

-- `Log::new`
pub new : LogInner
new = record {
  start = 0;
  size = 0;
  outstanding = 0;
  committing = false;
  dev = 0;
  header = record { n = 0; blocks = replicate logblocks 0 };
}

-- `for i in 0..n { dst[i] = src[i] }` over two `[u32; LOGBLOCKS]` that begin at word `d` of `dst`
-- and at word `s` of `src`, with `k` rounds left. `none` is the panic on an index out of range.
pub copy_words : ℕ → ℕ → ℕ → ℕ → List ℕ → List ℕ → Option (List ℕ)
copy_words d s zero i src dst = some dst
copy_words d s (suc k) i src dst =
    let rest = copy_words d s k (i + 1) src (set dst (d + i) (word src (s + i))) in
    if ltb i logblocks then rest else none

-- `Log::read_head`
pub read_head : LogInner → Bio → Option LogInner
read_head l b =
    let buf = b.mem l.start in
    let n = word buf 0 in
    elim (copy_words 0 1 n 0 buf l.header.blocks) [
      | none ↦ none
      | some blocks ↦ some (record l { header = record { n = n; blocks = blocks } })
    ]

-- `Log::write_head`
pub write_head : LogInner → Bio → Option Bio
write_head l b =
    let buf = set (b.mem l.start) 0 l.header.n in
    elim (copy_words 1 0 l.header.n 0 l.header.blocks buf) [
      | none ↦ none
      | some block ↦ some (bwrite b l.start block)
    ]

-- `Log::write_log`, from `tail` on with `k` rounds left.
pub write_log_from : LogInner → ℕ → ℕ → Bio → Option Bio
write_log_from l zero tail b = some b
write_log_from l (suc k) tail b = elim (get_elem? l.header.blocks tail) [
  | none ↦ none
  | some block ↦ write_log_from l k (tail + 1) (bwrite b (l.start + tail + 1) (b.mem block))
]

pub write_log : LogInner → Bio → Option Bio
write_log l b = write_log_from l l.header.n 0 b

-- The write of one round of `Log::install_trans`, and its `if !recovering { BCACHE.unpin }`.
pub install_step : Bool → Bio → ℕ → Block → Bio
install_step recovering b block v =
    let b' = bwrite b block v in if recovering then b' else unpin b' block

-- `Log::install_trans`, from `tail` on with `k` rounds left.
pub install_trans_from : Bool → LogInner → ℕ → ℕ → Bio → Option Bio
install_trans_from recovering l zero tail b = some b
install_trans_from recovering l (suc k) tail b = elim (get_elem? l.header.blocks tail) [
  | none ↦ none
  | some block ↦
      install_trans_from recovering l k (tail + 1)
        (install_step recovering b block (b.mem (l.start + tail + 1)))
]

pub install_trans : Bool → LogInner → Bio → Option Bio
install_trans recovering l b = install_trans_from recovering l l.header.n 0 b

-- `inner.header.n = 0`
abbrev pub clear : LogInner → LogInner
clear l = record l { header = record { n = 0; blocks = l.header.blocks } }

infixl 5 ◌>>=◌
abbrev ◌>>=◌ : {A B : Type 0} → Option A → (A → Option B) → Option B
none >>= f = none
some a >>= f = f a

-- The four steps of `commit` under `if n > 0`; the second is the real commit.
pub commit_steps : LogInner → Bio → Option (LogInner × Bio)
commit_steps l b = do
  b₁ ← write_log l b
  b₂ ← write_head l b₁
  b₃ ← install_trans false l b₂
  b₄ ← write_head (clear l) b₃
  some (clear l, b₄)

pub commit : LogInner → Bio → Option (LogInner × Bio)
commit l b = if ltb 0 l.header.n then commit_steps l b else some (l, b)

pub recover_from_log : LogInner → Bio → Option (LogInner × Bio)
recover_from_log l b = do
  l' ← read_head l b
  b₁ ← install_trans true l' b
  b₂ ← write_head (clear l') b₁
  some (clear l', b₂)

-- `log::init` with the superblock's `logstart` and `nlogs`; its size test is a constant.
pub init : ℕ → ℕ → ℕ → LogInner → Bio → Option (LogInner × Bio)
init dev logstart nlogs l b =
    recover_from_log (record l { start = logstart; size = nlogs; dev = dev }) b

-- One round of the loop of `begin_op`: `none` is `sleep(Channel::Log)`.
pub begin_op : LogInner → Option LogInner
begin_op l =
    if l.committing
    then none
    else if ltb logblocks (l.header.n + (l.outstanding + 1) * maxopblocks)
    then none
    else some (record l { outstanding = l.outstanding + 1 })

-- `a - 1` on u32
abbrev pub dec32 : ℕ → ℕ
dec32 a = (a + 2 ^ 32 - 1) % 2 ^ 32

-- What `end_op` does under the lock: panic, wake up the sleepers of `Channel::Log`, or commit.
pub data EndOp : Type 0 where
  log_committing : EndOp
  wakes : LogInner → EndOp
  commits : LogInner → EndOp

pub end_op_locked : LogInner → EndOp
end_op_locked l =
    let left = dec32 l.outstanding in
    if l.committing
    then log_committing
    else if left == 0
    then commits (record l { outstanding = left; committing = true })
    else wakes (record l { outstanding = left })

-- `end_op`; `none` is a panic.
pub end_op : LogInner → Bio → Option (LogInner × Bio)
end_op l b = elim (end_op_locked l) [
  | log_committing ↦ none
  | wakes l' ↦ some (l', b)
  | commits l' ↦ elim (commit l' b) [
    | none ↦ none
    | some (l₂, b₂) ↦ some (record l₂ { committing = false }, b₂)
  ]
]

-- `while i < n { if blocks[i] == block_no { break } i += 1 }`, with `k` rounds left.
pub find_slot : List ℕ → ℕ → ℕ → ℕ → ℕ
find_slot blocks block_no zero i = i
find_slot blocks block_no (suc k) i =
    let rest = find_slot blocks block_no k (i + 1) in
    if get_or blocks i 0 == block_no then i else rest

-- `log::write` of a buffer that holds block `block_no`; `none` is a panic.
pub write : LogInner → Bio → ℕ → Option (LogInner × Bio)
write l b block_no =
    let n = l.header.n in
    let i = find_slot l.header.blocks block_no n 0 in
    let blocks = set l.header.blocks i block_no in
    if leb logblocks n || leb (dec32 l.size) n
    then none
    else if ltb l.outstanding 1
    then none
    else if i == n
    then some (record l { header = record { n = n + 1; blocks = blocks } }, pin b block_no)
    else some (record l { header = record { n = n; blocks = blocks } }, b)
