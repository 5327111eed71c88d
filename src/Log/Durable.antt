-- ===== src/Log/Durable.antt =====
-- What the log's blocks on the disk promise: a disk image `d` stands for the contents `D`, whatever
-- of the log's own writes it lacks.
use octopos.Base.{
  ℕ, zero, suc, ◌+◌, ◌-◌, ◌≤◌, ◌<◌, ◌≡◌, refl, ◌≢◌, ◌⊎◌, inl, some, arith, length, Bool, true,
  false, ◌==◌, if◌then◌else◌, get_elem?-eq-get_or,
}
use octopos.Log.{logblocks, Block, word, Bio, bwrite, LogInner, install_trans_from, install_step}

-- A block outside the log, whose blocks are `start` (the header) to `start + LOGBLOCKS`.
abbrev pub IsHome : ℕ → ℕ → Type 0
IsHome start x = (x < start) ⊎ (start + logblocks < x)

-- Every block that the header on the disk lists is in the log as `D` has it, and all others are in
-- their place.
pub record Durable (start : ℕ) (d D : ℕ → Block) : Type 0 where
  pub size : logblocks < length (d start)
  pub few : word (d start) 0 ≤ logblocks
  pub home : (i : ℕ) → i < word (d start) 0 → IsHome start (word (d start) (1 + i))
  pub logged : (i : ℕ) → i < word (d start) 0 → d (start + i + 1) ≡ D (word (d start) (1 + i))
  pub kept :
      (x : ℕ)
      → IsHome start x
      → ((i : ℕ) → i < word (d start) 0 → word (d start) (1 + i) ≢ x)
      → d x ≡ D x

-- What `install_trans` leaves, if block `i` of the log holds `W` of the block that it is for.
pub record Installed (l : LogInner) (k tail : ℕ) (W : ℕ → Block) (b b' : Bio) : Type 0 where
  pub power : b'.power ≡ b.power - k
  pub done_mem :
      (i : ℕ)
      → tail ≤ i
      → i < tail + k
      → b'.mem (word l.header.blocks i) ≡ W (word l.header.blocks i)
  pub done_disk :
      k ≤ b.power
      → (i : ℕ) → tail ≤ i
      → i < tail + k
      → b'.disk (word l.header.blocks i) ≡ W (word l.header.blocks i)
  pub off : b.power ≡ 0 → (x : ℕ) → b'.disk x ≡ b.disk x
  pub each_mem : (x : ℕ) → (b'.mem x ≡ b.mem x) ⊎ (b'.mem x ≡ W x)
  pub each_disk : (x : ℕ) → (b'.disk x ≡ b.disk x) ⊎ (b'.disk x ≡ W x)
  pub other :
      (x : ℕ)
      → ((i : ℕ) → tail ≤ i → i < tail + k → word l.header.blocks i ≢ x)
      → (b'.disk x ≡ b.disk x) × (b'.mem x ≡ b.mem x)

-- One round puts `v` into `block`, on the disk while there is power.
pub record Stepped (b : Bio) (block : ℕ) (v : Block) (b' : Bio) : Type 0 where
  pub power : b'.power ≡ b.power - 1
  pub mem : (x : ℕ) → b'.mem x ≡ (if block == x then v else b.mem x)
  pub disk :
      (x : ℕ) → b'.disk x ≡ (if b.power == 0 then b.disk x else if block == x then v else b.disk x)

pub bwrite-Stepped : (b : Bio) (block : ℕ) (v : Block) → Stepped b block v (bwrite b block v)
unfolding bwrite
bwrite-Stepped b block v = record { power = refl; mem = λ x. refl; disk = λ x. ground arith }

install_step-Stepped :
    (r : Bool) (b : Bio) (block : ℕ) (v : Block) → Stepped b block v (install_step r b block v)
unfolding install_step
install_step-Stepped true b block v = bwrite-Stepped b block v
install_step-Stepped false b block v =
    let s = bwrite-Stepped b block v in record { power = s.power; mem = s.mem; disk = s.disk }

Installed-step :
    (l : LogInner) (k tail : ℕ) (W : ℕ → Block) (v : Block) (b b₁ b₂ : Bio)
    → v ≡ W (word l.header.blocks tail)
    → Stepped b (word l.header.blocks tail) v b₁
    → Installed l k (tail + 1) W b₁ b₂
    → Installed l (suc k) tail W b b₂
Installed-step l k tail W v b b₁ b₂ ev s h = record {
  power = omega (arith, s.power, h.power);
  done_mem = λ i lo hi.
      ground
        (arith, h.done_mem i, h.each_mem (word l.header.blocks i), s.mem (word l.header.blocks i));
  done_disk = λ pw i lo hi. ground (
    arith,
    h.done_disk (omega (arith, s.power)) i,
    h.each_disk (word l.header.blocks i),
    s.disk (word l.header.blocks i),
  );
  off = λ pw x. ground (arith, h.off (omega (arith, s.power)) x, s.disk x);
  each_mem = λ x. ground (arith, h.each_mem x, s.mem x);
  each_disk = λ x. ground (arith, h.each_disk x, s.disk x);
  other = λ x ne.
      let rest = h.other x (λ i lo hi. ne i (omega arith) (omega arith)) in
      let here = ne tail (omega arith) (omega arith) in
      ground (arith, rest, here, s.disk x, s.mem x);
}

-- `install_trans` from `tail` on never fails, and leaves `W` in each block that it installs.
pub install_trans_from-Installed :
    (r : Bool) (l : LogInner) (k tail : ℕ) (W : ℕ → Block) (b : Bio)
    → tail + k ≤ logblocks
    → length l.header.blocks ≡ logblocks
    → ((i : ℕ) → tail ≤ i → i < tail + k → IsHome l.start (word l.header.blocks i))
    → ((i : ℕ) → tail ≤ i → i < tail + k → b.mem (l.start + i + 1) ≡ W (word l.header.blocks i))
    → (b' : Bio) × (install_trans_from r l k tail b ≡ some b') × Installed l k tail W b b'
unfolding install_trans_from
install_trans_from-Installed r l zero tail W b few len home from = (
  b,
  refl,
  record {
    power = omega arith;
    done_mem = λ i lo hi. absurd (omega arith);
    done_disk = λ pw i lo hi. absurd (omega arith);
    off = λ pw x. refl;
    each_mem = λ x. inl refl;
    each_disk = λ x. inl refl;
    other = λ x ne. (refl, refl);
  },
)
install_trans_from-Installed r l (suc k) tail W b few len home from =
    let block : ℕ = word l.header.blocks tail in
    let v : Block = b.mem (l.start + tail + 1) in
    let b₁ : Bio = install_step r b block v in
    let s : Stepped b block v b₁ = install_step-Stepped r b block v in
    let ev : v ≡ W block = from tail (omega arith) (omega arith) in
    let (b₂, e, h) =
      install_trans_from-Installed r l k (tail + 1) W b₁ (omega arith) len
        (λ i lo hi. home i (omega arith) (omega arith))
        (λ i lo hi. ground (
          arith,
          s.mem (l.start + i + 1),
          home tail (omega arith) (omega arith),
          from i (omega arith) (omega arith),
        )) in
    let here = get_elem?-eq-get_or l.header.blocks tail 0 (omega arith) in
    (b₂, ground (arith, here, e), Installed-step l k tail W v b b₁ b₂ ev s h)
