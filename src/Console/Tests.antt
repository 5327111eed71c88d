-- ===== src/Console/Tests.antt =====
-- Runs of the console on small inputs, and the theorems applied there.
use octopos.Base.{ℕ, ◌≡◌, refl, Bool, true, false, List, [], ◌∷◌, arith}
use octopos.Console.{
  Console, quiet, handle_interrupt, store, publish, rub_out, erase_line, typed, consume, read_from,
}
use octopos.Console.Input.{IsValid, Handled, handle_interrupt_lem}

abbrev types : List ℕ → Console → Console
types [] con = con
types (c ∷ cs) con = types cs (handle_interrupt c con).0

abbrev mapped : ℕ → Bool
mapped i = true

-- `a`, `b`, backspace, `c`, return
abbrev keys : List ℕ
keys = 97 ∷ 98 ∷ 8 ∷ 99 ∷ 13 ∷ []

reads_line : (read_from mapped false 10 0 (types keys quiet)).1 ≡ 97 ∷ 99 ∷ 10 ∷ []
unfolding handle_interrupt quiet typed store publish rub_out read_from consume
reads_line = refl

kills_line : (types (97 ∷ 98 ∷ 21 ∷ []) quiet).e ≡ 0
unfolding handle_interrupt quiet typed store publish rub_out erase_line
kills_line = refl

quiet-IsValid : IsValid quiet
unfolding quiet
quiet-IsValid = record {
  size = refl;
  words = (omega arith, omega arith, omega arith);
  order = omega arith;
  bounded = omega arith;
}

handle_interrupt_lem_example : Handled quiet (handle_interrupt 13 quiet)
handle_interrupt_lem_example = handle_interrupt_lem 13 quiet quiet-IsValid

abbrev typed_line : Console
typed_line = (handle_interrupt 13 quiet).0
