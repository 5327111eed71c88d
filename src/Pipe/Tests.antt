-- ===== src/Pipe/Tests.antt =====
-- Runs of the pipe on small inputs, and the theorems applied there.
use octopos.Base.{
  ℕ, ◌+◌, ◌<◌, ◌≡◌, refl, ◌⊎◌, Bool, true, false, Option, none, some, [], ◌∷◌, if◌then◌else◌, ltb,
}
use octopos.Pipe.{
  fresh, write, read, returns, interrupted, sleeps, push, pop, close, write_from, read_from,
  readers,
}
use octopos.Pipe.Queue.{held, fresh-IsValid}
use octopos.Pipe.Read.{Took, read_lem}
use octopos.Pipe.Fifo.{writes, reads, closes, run, InOrder, fifo}

-- Three readable bytes, then a fault.
abbrev user : ℕ → Option ℕ
user i = if ltb i 3 then some (i + 65) else none

abbrev alive : ℕ → Bool
alive i = false

abbrev mapped : ℕ → Bool
mapped i = true

write_example : (write user alive 5 fresh).1 ≡ readers ∷ []
unfolding write write_from push fresh
write_example = refl

read_example : (read mapped false 2 (write user alive 5 fresh).0).1 ≡ 65 ∷ 66 ∷ []
unfolding write write_from push pop fresh read read_from
read_example = refl

read_closed : (read mapped false 2 (close true fresh).0).3 ≡ returns 0
unfolding fresh close read read_from
read_closed = refl

read_lem_example :
    ((held fresh ≡ 0)
      × (fresh.write_open ≡ true)
      × (read mapped true 2 fresh ≡ (fresh, [], [], if true then interrupted else sleeps 0)))
    ⊎ (((0 < held fresh) ⊎ (fresh.write_open ≡ false))
        × Took mapped 0 2 fresh (read mapped true 2 fresh))
read_lem_example = read_lem mapped true 2 fresh fresh-IsValid.0

fifo_example : InOrder (
    run
      (writes user alive 3 ∷ reads mapped false 2 ∷ closes true ∷ reads mapped false 4 ∷ [])
      (record { pipe = fresh; ins = []; outs = [] }))
fifo_example =
    fifo (writes user alive 3 ∷ reads mapped false 2 ∷ closes true ∷ reads mapped false 4 ∷ [])
