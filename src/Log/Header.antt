-- ===== src/Log/Header.antt =====
-- The header block: what the copies of `Log::read_head` and `Log::write_head` leave.
use octopos.Base.{
  ℕ, zero, suc, ◌+◌, ◌≤◌, ◌<◌, ◌≡◌, refl, ◌∙◌, ◌⊎◌, inl, some, List, arith, length, set, length-set,
  get_or-set_self, get_or-set_ne,
}
use octopos.Log.{logblocks, Block, word, Bio, bwrite, LogInner, copy_words, write_head, read_head}

-- `r` is `dst` with the words `d + i .. d + i + k` copied from `src`, from word `s + i` on.
pub record Copied (d s k i : ℕ) (src dst r : List ℕ) : Type 0 where
  pub size : length r ≡ length dst
  pub copied : (j : ℕ) → i ≤ j → j < i + k → word r (d + j) ≡ word src (s + j)
  pub kept : (j : ℕ) → (j < d + i) ⊎ (d + i + k ≤ j) → word r j ≡ word dst j

Copied-step :
    (d s k i : ℕ) (src dst r : List ℕ)
    → d + i < length dst
    → Copied d s k (i + 1) src (set dst (d + i) (word src (s + i))) r
    → Copied d s (suc k) i src dst r
Copied-step d s k i src dst r h c = record {
  size = c.size ∙ length-set dst (d + i) (word src (s + i));
  copied = λ j lo hi.
      ground (arith, c.copied j, c.kept (d + j), get_or-set_self dst (d + i) (word src (s + i)) 0);
  kept = λ j out. ground (arith, c.kept j, get_or-set_ne dst (d + i) j (word src (s + i)) 0);
}

-- Within the array no index is out of range.
pub copy_words-Copied :
    (d s k i : ℕ) (src dst : List ℕ)
    → i + k ≤ logblocks
    → d + logblocks ≤ length dst
    → (r : List ℕ) × (copy_words d s k i src dst ≡ some r) × Copied d s k i src dst r
unfolding copy_words
copy_words-Copied d s zero i src dst h l = (
  dst,
  refl,
  record { size = refl; copied = λ j lo hi. absurd (omega arith); kept = λ j _. refl },
)
copy_words-Copied d s (suc k) i src dst h l =
    let dst' : List ℕ = set dst (d + i) (word src (s + i)) in
    let (r, e, c) =
      copy_words-Copied d s k (i + 1) src dst' (omega arith)
        (omega (arith, length-set dst (d + i) (word src (s + i)))) in
    (r, ground arith, Copied-step d s k i src dst r (omega arith) c)

-- What `write_head` puts into the header block, of which `buf` is the cached copy.
pub record Heads (l : LogInner) (buf v : Block) : Type 0 where
  pub size : length v ≡ length buf
  pub count : word v 0 ≡ l.header.n
  pub list : (i : ℕ) → i < l.header.n → word v (1 + i) ≡ word l.header.blocks i

pub write_head-Heads :
    (l : LogInner) (b : Bio)
    → l.header.n ≤ logblocks
    → logblocks < length (b.mem l.start)
    → (v : Block) × (write_head l b ≡ some (bwrite b l.start v)) × Heads l (b.mem l.start) v
unfolding write_head
write_head-Heads l b few size =
    let buf : Block = set (b.mem l.start) 0 l.header.n in
    let len = length-set (b.mem l.start) 0 l.header.n in
    let (v, e, c) =
      copy_words-Copied 1 0 l.header.n 0 l.header.blocks buf (omega arith) (omega (arith, len)) in
    (
      v,
      ground (arith, e),
      record {
        size = c.size ∙ len;
        count = ground (
          arith,
          c.kept 0 (inl (omega arith)),
          get_or-set_self (b.mem l.start) 0 l.header.n 0 (omega arith),
        );
        list = λ i lt. ground (arith, c.copied i (omega arith) (omega arith));
      },
    )

-- What `read_head` leaves: the count and the list that the header block holds.
pub read_head-lists :
    (l : LogInner) (b : Bio)
    → length l.header.blocks ≡ logblocks
    → word (b.mem l.start) 0 ≤ logblocks
    → (r : List ℕ) × (read_head l b
        ≡ some (record l { header = record { n = word (b.mem l.start) 0; blocks = r } }))
      × (length r ≡ logblocks)
      × ((i : ℕ) → i < word (b.mem l.start) 0 → word r i ≡ word (b.mem l.start) (1 + i))
unfolding read_head
read_head-lists l b len few =
    let buf : Block = b.mem l.start in
    let (r, e, c) =
      copy_words-Copied 0 1 (word buf 0) 0 buf l.header.blocks (omega arith) (omega arith) in
    (
      r,
      ground (arith, e),
      c.size ∙ len,
      λ i lt. ground (arith, c.copied i (omega arith) (omega arith)),
    )
