-- ===== src/Log/Crash.antt =====
-- Whole runs: a commit that the power stops, any number of recoveries that it stops, and one that it
-- does not.
use octopos.Base.{
  ℕ, ◌+◌, ◌*◌, ◌<◌, ◌≡◌, refl, ◌⊎◌, inl, inr, Option, some, none, List, [], ◌∷◌, arith,
}
use octopos.Log.{logblocks, Bio, restart, LogInner, new, init, commit, Block}
use octopos.Log.Durable.{IsHome, Durable}
use octopos.Log.Recovery.{recover_from_log-Durable}
use octopos.Log.WriteLog.{Ready}
use octopos.Log.Commit.{commit-Committed}

-- The machine starts again, once for each number of writes that the power lasts, and runs `init`
-- over the disk that the run before left.
pub reboots : ℕ → ℕ → ℕ → List ℕ → Bio → Option Bio
reboots dev logstart nlogs [] b = some b
reboots dev logstart nlogs (power ∷ rest) b = elim (init dev logstart nlogs new (restart b power)) [
  | none ↦ none
  | some (_, b') ↦ reboots dev logstart nlogs rest b'
]

-- A recovery keeps what the disk stands for, whenever it stops; one with power for the whole log
-- puts every block in its place.
pub reboots-Durable :
    (dev start nlogs : ℕ) (ps : List ℕ) (b : Bio) (D : ℕ → Block)
    → Durable start b.disk D
    → (b' : Bio) × (reboots dev start nlogs ps b ≡ some b') × Durable start b'.disk D
unfolding reboots init new
reboots-Durable dev start nlogs [] b D dur = (b, refl, dur)
reboots-Durable dev start nlogs (p ∷ ps) b D dur =
    let l₀ : LogInner = record new { start = start; size = nlogs; dev = dev } in
    let (l₁, b₁, e₁, _, _, _, dur₁, _) =
      recover_from_log-Durable l₀ (restart b p) D refl (λ x. refl) dur in
    let (b₂, e₂, dur₂) = reboots-Durable dev start nlogs ps b₁ D dur₁ in
    (b₂, ground (arith, e₁, e₂), dur₂)

last-Durable :
    (dev start nlogs last : ℕ) (b : Bio) (D : ℕ → Block)
    → logblocks < last
    → Durable start b.disk D
    → (l' : LogInner) × (b' : Bio) × (init dev start nlogs new (restart b last) ≡ some (l', b'))
      × ((x : ℕ) → IsHome start x → b'.disk x ≡ D x)
unfolding init new
last-Durable dev start nlogs last b D pw dur =
    let l₀ : LogInner = record new { start = start; size = nlogs; dev = dev } in
    let (l₁, b₁, e₁, _, _, _, _, full) =
      recover_from_log-Durable l₀ (restart b last) D refl (λ x. refl) dur in
    (l₁, b₁, e₁, (full pw).1)

-- Crash consistency. Let `commit` run on a log that is ready, with power for any number of writes;
-- then let the machine start any number of times, each time with power for any number of writes, and
-- once more with power for more than LOGBLOCKS writes. Then no step panics, and the blocks outside
-- the log are either all as they were on the disk before the commit, or all as the cache showed them.
pub crash_consistent :
    (l : LogInner) (b : Bio) (dev nlogs : ℕ) (ps : List ℕ) (last : ℕ)
    → Ready l b
    → logblocks < last
    → (l₁ : LogInner) × (b₁ b₂ : Bio) × (l₃ : LogInner) × (b₃ : Bio) × (commit l b ≡ some (l₁, b₁))
      × (reboots dev l.start nlogs ps b₁ ≡ some b₂)
      × (init dev l.start nlogs new (restart b₂ last) ≡ some (l₃, b₃))
      × (((x : ℕ) → IsHome l.start x → b₃.disk x ≡ b.disk x)
          ⊎ ((x : ℕ) → IsHome l.start x → b₃.disk x ≡ b.mem x))
crash_consistent l b dev nlogs ps last r pw =
    let (l₁, b₁, e₁, c) = commit-Committed l b r in
    elim c.atomic [
      | inl old ↦
          let (b₂, e₂, dur) = reboots-Durable dev l.start nlogs ps b₁ b.disk old in
          let (l₃, b₃, e₃, h) = last-Durable dev l.start nlogs last b₂ b.disk pw dur in
          (l₁, b₁, b₂, l₃, b₃, e₁, e₂, e₃, inl h)
      | inr fresh ↦
          let (b₂, e₂, dur) = reboots-Durable dev l.start nlogs ps b₁ b.mem fresh in
          let (l₃, b₃, e₃, h) = last-Durable dev l.start nlogs last b₂ b.mem pw dur in
          (l₁, b₁, b₂, l₃, b₃, e₁, e₂, e₃, inr h)
    ]

-- With power for all of its writes, `commit` leaves every block outside the log on the disk as the
-- cache showed it before, keeps what the cache shows, and the log is ready again, with no block listed.
pub commit_complete :
    (l : LogInner) (b : Bio)
    → Ready l b
    → 2 * logblocks + 1 < b.power
    → (l' : LogInner) × (b' : Bio) × (commit l b ≡ some (l', b'))
      × Ready l' b'
      × (l'.header.n ≡ 0)
      × ((x : ℕ) → IsHome l.start x → (b'.disk x ≡ b.mem x) × (b'.mem x ≡ b.mem x))
commit_complete l b r pw =
    let (l', b', e, c) = commit-Committed l b r in
    let (empty, size, homes) = c.complete pw in
    (
      l',
      b',
      e,
      record {
        len = c.len;
        few = omega (arith, c.cleared);
        home = λ i lt. absurd (omega (arith, c.cleared));
        cached = rw c.start c.cached;
        size = rw c.start size;
        empty = rw c.start empty;
        clean = rw c.start (λ x hx _. ground (arith, homes x hx, c.shown x hx));
      },
      c.cleared,
      λ x hx. (homes x hx, c.shown x hx),
    )
