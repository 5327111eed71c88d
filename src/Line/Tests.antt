-- ===== src/Line/Tests.antt =====
-- Runs of the line editor, and the theorems applied there.
use octopos.Base.{ℕ, ◌≡◌, ◌<◌, refl, ◌⊎◌, Option, none, some, List, [], ◌∷◌, arith, replicate, take}
use octopos.Line.{
  LineEditor, line_max, copy_byte, shift_right, shift_left, insert, remove_left, kill_word, skip,
}
use octopos.Line.Edit.{IsValid, Inserted, insert_lem}

-- `ls  a`, with the cursor behind the second space
abbrev typed : LineEditor
typed = record {
  buf = 108 ∷ 115 ∷ 32 ∷ 32 ∷ 97 ∷ replicate 251 0;
  len = 5;
  cursor = 4;
  history = [];
  history_lens = [];
  history_entries = 0;
  history_offset = 0;
  stashed_buf = [];
  stashed_len = 0;
}

abbrev text : Option LineEditor → List ℕ
text none = []
text (some e) = take e.len e.buf

types : text (insert 98 typed) ≡ 108 ∷ 115 ∷ 32 ∷ 32 ∷ 98 ∷ 97 ∷ []
unfolding insert shift_right copy_byte
types = refl

kills : text (kill_word typed) ≡ 97 ∷ []
unfolding kill_word skip remove_left shift_left copy_byte
kills = refl

typed-IsValid : IsValid typed
typed-IsValid = record { size = refl; within = omega arith; fits = omega arith }

-- A line of 256 bytes with the cursor on the last one: a typed byte is a panic.
abbrev full : LineEditor
full = record typed { buf = replicate 256 97; len = 256; cursor = 255 }

full-IsValid : IsValid full
full-IsValid = record { size = refl; within = omega arith; fits = omega arith }

panics : insert 98 full ≡ none
unfolding insert shift_right copy_byte
panics = refl

insert_lem_example :
    ((full.len < line_max) × (e' : LineEditor) × (insert 98 full ≡ some e') × Inserted 98 full e')
    ⊎ ((full.len ≡ line_max) × (full.cursor ≡ line_max) × (insert 98 full ≡ some full))
    ⊎ ((full.len ≡ line_max) × (full.cursor < line_max) × (insert 98 full ≡ none))
insert_lem_example = insert_lem 98 full full-IsValid
