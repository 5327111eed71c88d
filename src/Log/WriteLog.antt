-- ===== src/Log/WriteLog.antt =====
-- `Log::write_log`: the copies in the log's blocks, and the state in which a commit begins.
use octopos.Base.{
  ℕ, zero, suc, ◌+◌, ◌-◌, ◌≤◌, ◌<◌, ◌≡◌, refl, ◌≢◌, ◌⊎◌, inl, some, arith, length,
  get_elem?-eq-get_or,
}
use octopos.Log.{logblocks, word, Bio, bwrite, LogInner, write_log_from}
use octopos.Log.Durable.{IsHome, Stepped, bwrite-Stepped}

-- The log between transactions' commits: the header on the disk is empty, the blocks that the header
-- in memory lists lie outside the log, and every block that it does not list is on the disk as the
-- cache shows it.
pub record Ready (l : LogInner) (b : Bio) : Type 0 where
  pub len : length l.header.blocks ≡ logblocks
  pub few : l.header.n ≤ logblocks
  pub home : (i : ℕ) → i < l.header.n → IsHome l.start (word l.header.blocks i)
  pub cached : logblocks < length (b.mem l.start)
  pub size : logblocks < length (b.disk l.start)
  pub empty : word (b.disk l.start) 0 ≡ 0
  pub clean :
      (x : ℕ)
      → IsHome l.start x
      → ((i : ℕ) → i < l.header.n → word l.header.blocks i ≢ x)
      → b.disk x ≡ b.mem x

-- What `write_log` leaves.
pub record Written (l : LogInner) (k tail : ℕ) (b b' : Bio) : Type 0 where
  pub power : b'.power ≡ b.power - k
  pub copied :
      (i : ℕ) → tail ≤ i → i < tail + k → b'.mem (l.start + i + 1) ≡ b.mem (word l.header.blocks i)
  pub copied_disk :
      k ≤ b.power
      → (i : ℕ) → tail ≤ i
      → i < tail + k
      → b'.disk (l.start + i + 1) ≡ b.mem (word l.header.blocks i)
  pub other :
      (x : ℕ)
      → (x < l.start + tail + 1) ⊎ (l.start + tail + k < x)
      → (b'.disk x ≡ b.disk x) × (b'.mem x ≡ b.mem x)

pub write_log_from-Written :
    (l : LogInner) (k tail : ℕ) (b : Bio)
    → tail + k ≤ logblocks
    → length l.header.blocks ≡ logblocks
    → ((i : ℕ) → tail ≤ i → i < tail + k → IsHome l.start (word l.header.blocks i))
    → (b' : Bio) × (write_log_from l k tail b ≡ some b') × Written l k tail b b'
unfolding write_log_from
write_log_from-Written l zero tail b few len home = (
  b,
  refl,
  record {
    power = omega arith;
    copied = λ i lo hi. absurd (omega arith);
    copied_disk = λ pw i lo hi. absurd (omega arith);
    other = λ x out. (refl, refl);
  },
)
write_log_from-Written l (suc k) tail b few len home =
    let block : ℕ = word l.header.blocks tail in
    let at : ℕ = l.start + tail + 1 in
    let b₁ : Bio = bwrite b at (b.mem block) in
    let s : Stepped b at (b.mem block) b₁ = bwrite-Stepped b at (b.mem block) in
    let (b₂, e, h) =
      write_log_from-Written l k (tail + 1) b₁ (omega arith) len
        (λ i lo hi. home i (omega arith) (omega arith)) in
    let here = get_elem?-eq-get_or l.header.blocks tail 0 (omega arith) in
    (
      b₂,
      ground (arith, here, e),
      record {
        power = omega (arith, s.power, h.power);
        copied = λ i lo hi. ground (
          arith,
          h.copied i,
          h.other at (inl (omega arith)),
          s.mem at,
          s.mem (word l.header.blocks i),
          home i lo hi,
        );
        copied_disk = λ pw i lo hi. ground (
          arith,
          h.copied_disk (omega (arith, s.power)) i,
          h.other at (inl (omega arith)),
          s.disk at,
          s.mem (word l.header.blocks i),
          home i lo hi,
        );
        other =
            λ x out. let rest = h.other x (ground arith) in ground (arith, rest, s.disk x, s.mem x);
      },
    )
