-- ===== src/Log/Tests.antt =====
-- Runs of the log on small inputs, and the theorems at such inputs.
use octopos.Base.{
  ℕ, zero, suc, ◌+◌, ◌<◌, ◌≡◌, refl, ◌⊎◌, some, none, [], ◌∷◌, arith, length, replicate, update,
  Option, map,
}
use octopos.Log.{
  logblocks, word, Bio, Block, bwrite, restart, LogInner, new, copy_words, read_head, write_head,
  write_log_from, write_log, install_step, install_trans_from, install_trans, commit_steps, commit,
  recover_from_log, init, begin_op, write,
}
use octopos.Log.Durable.{IsHome, Durable}
use octopos.Log.Recovery.{recover_from_log-Durable}
use octopos.Log.WriteLog.{Ready}
use octopos.Log.Crash.{reboots, crash_consistent, commit_complete}
use octopos.Log.Reserve.{World, total, Reach, here, next, begin, Reserved, write_never_panics}

abbrev blank : Block
blank = replicate 31 0

abbrev filled : Block
filled = 7 ∷ replicate 30 0

-- Block 40 is changed in the cache and listed; the log begins at block 2.
abbrev one_listed : LogInner
one_listed = record new {
  start = 2;
  size = 31;
  outstanding = 1;
  header = record { n = 1; blocks = 40 ∷ replicate 29 0 };
}

abbrev empty_log : LogInner
empty_log = record new { start = 2; size = 31; outstanding = 1 }

abbrev changed : ℕ → Bio
changed power = record {
  disk = λ _. blank;
  mem = update (λ _. blank) 40 filled;
  pins = update (λ _. 0) 40 1;
  power = power;
}

abbrev untouched : Bio
untouched = record { disk = λ _. blank; mem = λ _. blank; pins = λ _. 0; power = 0 }

-- The first word of block 40 on the disk after a commit with so much power, and one recovery.
after_crash : ℕ → Option ℕ
after_crash power = elim (commit one_listed (changed power)) [
  | none ↦ none
  | some (_, b) ↦ elim (init 1 2 31 new (restart b 100)) [
    | none ↦ none
    | some (_, b') ↦ some (word (b'.disk 40) 0)
  ]
]

-- The second write of the commit is the one that decides.
crashes : map after_crash (0 ∷ 1 ∷ 2 ∷ 3 ∷ 4 ∷ []) ≡ some 0 ∷ some 0 ∷ some 7 ∷ some 7 ∷ some 7 ∷ []
unfolding after_crash commit commit_steps write_log write_log_from write_head copy_words
    install_trans install_trans_from install_step bwrite init recover_from_log read_head new
crashes = refl

listed-IsHome : (i : ℕ) → i < 1 → IsHome 2 (word one_listed.header.blocks i)
listed-IsHome zero h = omega arith
listed-IsHome (suc i) h = absurd (omega arith)

one_listed-Ready : (power : ℕ) → Ready one_listed (changed power)
unfolding new
one_listed-Ready power = record {
  len = refl;
  few = omega arith;
  home = listed-IsHome;
  cached = omega arith;
  size = omega arith;
  empty = refl;
  clean = λ x hx ne. ground (arith, ne 0 (omega arith));
}

crash_consistent_example :
    (l₁ : LogInner) × (b₁ b₂ : Bio) × (l₃ : LogInner) × (b₃ : Bio) × (commit one_listed (changed 2)
      ≡ some (l₁, b₁))
    × (reboots 1 one_listed.start 31 (0 ∷ 1 ∷ []) b₁ ≡ some b₂)
    × (init 1 one_listed.start 31 new (restart b₂ 100) ≡ some (l₃, b₃))
    × (((x : ℕ) → IsHome one_listed.start x → b₃.disk x ≡ (changed 2).disk x)
        ⊎ ((x : ℕ) → IsHome one_listed.start x → b₃.disk x ≡ (changed 2).mem x))
crash_consistent_example =
    crash_consistent one_listed (changed 2) 1 31 (0 ∷ 1 ∷ []) 100 (one_listed-Ready 2) (omega arith)

commit_complete_example :
    (l' : LogInner) × (b' : Bio) × (commit one_listed (changed 100) ≡ some (l', b'))
    × Ready l' b'
    × (l'.header.n ≡ 0)
    × ((x : ℕ)
        → IsHome one_listed.start x
        → (b'.disk x ≡ (changed 100).mem x) × (b'.mem x ≡ (changed 100).mem x))
commit_complete_example =
    commit_complete one_listed (changed 100) (one_listed-Ready 100) (omega arith)

-- A header on the disk that lists block 40, which block 3 holds.
abbrev committed_disk : ℕ → Block
committed_disk = update (update (λ _. blank) 2 (1 ∷ 40 ∷ replicate 29 0)) 3 filled

committed-IsHome : (i : ℕ) → i < 1 → IsHome 2 (word (committed_disk 2) (1 + i))
committed-IsHome zero h = omega arith
committed-IsHome (suc i) h = absurd (omega arith)

committed_logged :
    (i : ℕ)
    → i < 1
    → committed_disk (2 + i + 1) ≡ update (λ _. blank) 40 filled (word (committed_disk 2) (1 + i))
committed_logged zero h = refl
committed_logged (suc i) h = absurd (omega arith)

committed-Durable : Durable 2 committed_disk (update (λ _. blank) 40 filled)
committed-Durable = record {
  size = omega arith;
  few = omega arith;
  home = committed-IsHome;
  logged = committed_logged;
  kept = λ x hx ne. ground (arith, ne 0 (omega arith));
}

recover_from_log-Durable_example :
    (l' : LogInner) × (b' : Bio) × (recover_from_log empty_log
        (restart (record untouched { disk = committed_disk }) 1)
      ≡ some (l', b'))
    × (l'.start ≡ empty_log.start)
    × (l'.header.n ≡ 0)
    × (length l'.header.blocks ≡ logblocks)
    × Durable empty_log.start b'.disk (update (λ _. blank) 40 filled)
    × (logblocks < 1
        → (word (b'.disk empty_log.start) 0 ≡ 0)
          × ((x : ℕ) → IsHome empty_log.start x → b'.disk x ≡ update (λ _. blank) 40 filled x))
unfolding new
recover_from_log-Durable_example =
    recover_from_log-Durable empty_log (restart (record untouched { disk = committed_disk }) 1)
      (update (λ _. blank) 40 filled) refl (λ x. refl) committed-Durable

empty_log-Ready : Ready empty_log untouched
unfolding new
empty_log-Ready = record {
  len = refl;
  few = omega arith;
  home = λ i lt. absurd (omega arith);
  cached = omega arith;
  size = omega arith;
  empty = refl;
  clean = λ x hx ne. refl;
}

abbrev idle_world : World
idle_world = record { log = record empty_log { outstanding = 0 }; bio = untouched; ops = [] }

abbrev busy_world : World
busy_world = record { log = empty_log; bio = untouched; ops = 10 ∷ [] }

idle-Reserved : Reserved idle_world
unfolding new total
idle-Reserved = record {
  len = refl;
  sized = omega arith;
  word_size = omega arith;
  count = refl;
  few = omega arith;
  small = tt;
  fits = omega arith;
  quiet = λ c. refl;
}

busy-Reach : Reach idle_world busy_world
unfolding new begin_op
busy-Reach = next here (begin empty_log refl)

write_never_panics_example :
    (l' : LogInner) × (b' : Bio) × (write busy_world.log busy_world.bio 40 ≡ some (l', b'))
write_never_panics_example =
    write_never_panics idle_world busy_world [] [] 9 40 idle-Reserved busy-Reach refl

-- Three open operations are the most that the log has room for.
no_fourth : begin_op (record empty_log { outstanding = 3 }) ≡ none
unfolding begin_op new
no_fourth = refl
