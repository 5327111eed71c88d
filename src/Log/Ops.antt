-- ===== src/Log/Ops.antt =====
-- `log::write`: absorption, the pin it takes, and what it keeps of the log's state.
use octopos.Base.{
  ℕ, zero, suc, ◌+◌, ◌≤◌, ◌<◌, ◌≡◌, refl, ◌≢◌, ◌⊎◌, inl, inr, some, none, List, arith, length, ◌==◌,
  if◌then◌else◌, set, length-set, get_or-set_self, get_or-set_ne, update, ℕ_discrete, dec_lt, ◌∙◌,
}
use octopos.Log.{logblocks, Block, word, Bio, LogInner, find_slot, write, dec32, pin}
use octopos.Log.Durable.{IsHome}
use octopos.Log.WriteLog.{Ready}

-- The slot found is the first that holds the block, or the one behind the last.
record Slot (blocks : List ℕ) (x k i j : ℕ) : Type 0 where
  lower : i ≤ j
  upper : j ≤ i + k
  found : j < i + k → word blocks j ≡ x
  first : (m : ℕ) → i ≤ m → m < j → word blocks m ≢ x

find_slot-Slot : (blocks : List ℕ) (x k i : ℕ) → Slot blocks x k i (find_slot blocks x k i)
unfolding find_slot
find_slot-Slot blocks x zero i = record {
  lower = omega arith;
  upper = omega arith;
  found = λ h. absurd (omega arith);
  first = λ m lo hi. absurd (omega arith);
}
find_slot-Slot blocks x (suc k) i =
    let s = find_slot-Slot blocks x k (i + 1) in
    record {
      lower = ground (arith, s.lower);
      upper = ground (arith, s.upper);
      found = λ h. ground (arith, s.found, s.upper);
      first = λ m lo hi. ground (arith, s.first m);
    }

-- No block is listed twice.
abbrev pub Distinct : LogInner → Type 0
Distinct l = (i j : ℕ) → i < j → j < l.header.n → word l.header.blocks i ≢ word l.header.blocks j

-- What a write of block `x` leaves: the blocks listed before, in their places, and `x`.
pub record Logged (l : LogInner) (b : Bio) (x : ℕ) (l' : LogInner) (b' : Bio) : Type 0 where
  pub start : l'.start ≡ l.start
  pub outstanding : l'.outstanding ≡ l.outstanding
  pub committing : l'.committing ≡ l.committing
  pub size : l'.size ≡ l.size
  pub len : length l'.header.blocks ≡ length l.header.blocks
  pub bounds : (l.header.n ≤ l'.header.n) × (l'.header.n ≤ l.header.n + 1)
  pub kept : (i : ℕ) → i < l.header.n → word l'.header.blocks i ≡ word l.header.blocks i
  pub only : (i : ℕ) → l.header.n ≤ i → i < l'.header.n → word l'.header.blocks i ≡ x
  pub listed : (i : ℕ) × (i < l'.header.n) × (word l'.header.blocks i ≡ x)
  pub fresh : l.header.n < l'.header.n → (i : ℕ) → i < l.header.n → word l.header.blocks i ≢ x
  pub disk : b'.disk ≡ b.disk
  pub mem : b'.mem ≡ b.mem
  pub power : b'.power ≡ b.power
  pub pins :
      (y : ℕ)
      → b'.pins y + l.header.n ≡ (if x == y then b.pins y + l'.header.n else b.pins y + l.header.n)

-- On a log that is not full, inside an operation, `log::write` does not panic and lists the block: a
-- block that is listed already keeps its slot and takes no pin, any other is put behind the last and
-- is pinned; the other entries and pins, the disk and the cache stay.
pub write-Logged :
    (l : LogInner) (b : Bio) (x : ℕ)
    → length l.header.blocks ≡ logblocks
    → l.header.n < logblocks
    → l.header.n < dec32 l.size
    → 1 ≤ l.outstanding
    → (l' : LogInner) × (b' : Bio) × (write l b x ≡ some (l', b')) × Logged l b x l' b'
unfolding write
write-Logged l b x len few sized opened =
    let n = l.header.n in
    let j : ℕ = find_slot l.header.blocks x n 0 in
    let s : Slot l.header.blocks x n 0 j = find_slot-Slot l.header.blocks x n 0 in
    elim (ℕ_discrete j n) [
      | yes behind ↦ (
        record l { header = record { n = n + 1; blocks = set l.header.blocks j x } },
        pin b x,
        ground arith,
        record {
          start = refl;
          outstanding = refl;
          committing = refl;
          size = refl;
          len = length-set l.header.blocks j x;
          bounds = omega arith;
          kept = λ i lt. get_or-set_ne l.header.blocks j i x 0 (omega arith);
          only = λ i lo hi. ground (arith, get_or-set_self l.header.blocks j x 0 (omega arith));
          listed = (j, omega arith, get_or-set_self l.header.blocks j x 0 (omega arith));
          fresh = λ _ i lt. s.first i (omega arith) (omega arith);
          disk = refl;
          mem = refl;
          power = refl;
          pins = λ y. ground arith;
        },
      )
      | no inside ↦
          let at : word l.header.blocks j ≡ x = s.found (omega (arith, s.upper)) in
          (
            record l { header = record { n = n; blocks = set l.header.blocks j x } },
            b,
            ground arith,
            record {
              start = refl;
              outstanding = refl;
              committing = refl;
              size = refl;
              len = length-set l.header.blocks j x;
              bounds = omega arith;
              kept = λ i lt. ground (
                arith,
                get_or-set_ne l.header.blocks j i x 0,
                get_or-set_self l.header.blocks j x 0,
                at,
                s.upper,
              );
              only = λ i lo hi. absurd (omega arith);
              listed = (
                j,
                omega (arith, s.upper),
                get_or-set_self l.header.blocks j x 0 (omega (arith, s.upper)),
              );
              fresh = λ h. absurd (omega arith);
              disk = refl;
              mem = refl;
              power = refl;
              pins = λ y. ground arith;
            },
          )
    ]

-- It panics when the log is full, also for a block that is listed already, or outside an operation.
pub write_panics :
    (l : LogInner) (b : Bio) (x : ℕ)
    → (logblocks ≤ l.header.n) ⊎ (dec32 l.size ≤ l.header.n) ⊎ (l.outstanding < 1)
    → write l b x ≡ none
unfolding write
write_panics l b x (inl h) = ground arith
write_panics l b x (inr (inl h)) = ground arith
write_panics l b x (inr (inr h)) = ground arith

-- The buffer of block `x` as its holder has changed it.
abbrev pub modify : Bio → ℕ → Block → Bio
modify b x v = record b { mem = update b.mem x v }

-- A change of a cached block outside the log, followed by `log::write` of it, keeps the log ready for
-- a commit and its list free of repetitions.
pub write-Ready :
    (l : LogInner) (b : Bio) (x : ℕ) (v : Block)
    → Ready l b
    → Distinct l
    → IsHome l.start x
    → l.header.n < logblocks
    → l.header.n < dec32 l.size
    → 1 ≤ l.outstanding
    → (l' : LogInner) × (b' : Bio) × (write l (modify b x v) x ≡ some (l', b'))
      × Ready l' b'
      × Distinct l'
      × (b'.mem x ≡ v)
write-Ready l b x v r d hx few sized opened =
    let (l', b', e, g) = write-Logged l (modify b x v) x r.len few sized opened in
    (
      l',
      b',
      e,
      record {
        len = g.len ∙ r.len;
        few = omega (arith, g.bounds);
        home = λ i lt. elim (dec_lt i l.header.n) [
          | yes old ↦ rw (g.start, g.kept i old) (r.home i old)
          | no fresh ↦ rw (g.start, g.only i (omega arith) lt) hx
        ];
        cached = rw (g.mem, g.start) (ground (arith, r.cached, hx));
        size = rw (g.disk, g.start) r.size;
        empty = rw (g.disk, g.start) r.empty;
        clean =
            rw (g.disk, g.mem, g.start)
              (λ y hy ne.
                let (i, lt, at) = g.listed in
                ground (
                  arith,
                  r.clean y hy (λ j jlt e. ne j (omega (arith, g.bounds)) (g.kept j jlt ∙ e)),
                  ne i lt,
                ));
      },
      (λ i j ij jlt. elim (dec_lt j l.header.n) [
        | yes old ↦ ground (arith, g.kept i (omega arith), g.kept j old, d i j ij old)
        | no fresh ↦ ground (
          arith,
          g.kept i (omega (arith, g.bounds)),
          g.only j (omega arith) jlt,
          g.fresh (omega arith) i (omega (arith, g.bounds)),
        )
      ]),
      rw g.mem (ground arith),
    )
