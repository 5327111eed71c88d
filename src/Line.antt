-- ===== src/Line.antt =====
-- user/src/line.rs: the line editor of the shell, without its output. `none` is the panic on an index
-- out of range.
pub mod Shift
pub mod Edit
mod Tests
use octopos.Base.{
  ℕ, zero, suc, ◌+◌, ◌-◌, ◌%◌, ◌^◌, min, Bool, true, false, not, ◌&&◌, Option, none, some, List, [],
  ◌∷◌, ltb, leb, ◌==◌, if◌then◌else◌, get_or, set, replicate, take, drop, ◌++◌,
}

abbrev pub line_max : ℕ
line_max = 256

abbrev pub history_size : ℕ
history_size = 16

abbrev pub space : ℕ
space = 32

pub record LineEditor : Type 0 where
  pub buf : List ℕ
  pub len : ℕ
  pub cursor : ℕ
  pub history : List (List ℕ)
  pub history_lens : List ℕ
  pub history_entries : ℕ
  pub history_offset : ℕ
  pub stashed_buf : List ℕ
  pub stashed_len : ℕ

-- `LineEditor::new`
pub blank : LineEditor
blank = record {
  buf = replicate line_max 0;
  len = 0;
  cursor = 0;
  history = replicate history_size (replicate line_max 0);
  history_lens = replicate history_size 0;
  history_entries = 0;
  history_offset = 0;
  stashed_buf = replicate line_max 0;
  stashed_len = 0;
}

-- `buf[d] = buf[s]`
pub copy_byte : ℕ → ℕ → List ℕ → Option (List ℕ)
copy_byte d s buf =
    if ltb d line_max && ltb s line_max then some (set buf d (get_or buf s 0)) else none

-- `for i in (s..s + k).rev() { buf[i + 1] = buf[i] }`
pub shift_right : ℕ → ℕ → List ℕ → Option (List ℕ)
shift_right s zero buf = some buf
shift_right s (suc k) buf = elim (copy_byte (s + k + 1) (s + k) buf) [
  | none ↦ none
  | some buf' ↦ shift_right s k buf'
]

-- `for i in s..s + k { buf[i - d] = buf[i] }`
pub shift_left : ℕ → ℕ → ℕ → List ℕ → Option (List ℕ)
shift_left d s zero buf = some buf
shift_left d s (suc k) buf = elim (copy_byte (s - d) s buf) [
  | none ↦ none
  | some buf' ↦ shift_left d (s + 1) k buf'
]

-- `LineEditor::insert`
pub insert : ℕ → LineEditor → Option LineEditor
insert c e =
    if leb line_max e.cursor
    then some e
    else (elim (shift_right e.cursor (e.len - e.cursor) e.buf) [
      | none ↦ none
      | some buf ↦
          some (record e { buf = set buf e.cursor c; cursor = e.cursor + 1; len = e.len + 1 })
    ])

-- Removal of the `d` bytes before the cursor: `backspace` with one byte, `kill_line` with all,
-- `kill_word` with the word.
pub remove_left : ℕ → LineEditor → Option LineEditor
remove_left d e = elim (shift_left d e.cursor (e.len - e.cursor) e.buf) [
  | none ↦ none
  | some buf ↦ some (record e { buf = buf; cursor = e.cursor - d; len = e.len - d })
]

-- `LineEditor::backspace`
pub backspace : LineEditor → Option LineEditor
backspace e = if e.cursor == 0 then some e else remove_left 1 e

-- `LineEditor::kill_line`
pub kill_line : LineEditor → Option LineEditor
kill_line e = remove_left e.cursor e

-- `while i > 0 && buf[i - 1] == b' ' { i -= 1 }`, or with `!=`
pub skip : Bool → List ℕ → ℕ → ℕ
skip spaces buf zero = zero
skip spaces buf (suc i) =
    let rest = skip spaces buf i in
    let is = get_or buf i 0 == space in if (if spaces then is else not is) then rest else suc i

-- `LineEditor::kill_word`
pub kill_word : LineEditor → Option LineEditor
kill_word e = let i = skip false e.buf (skip true e.buf e.cursor) in remove_left (e.cursor - i) e

-- `LineEditor::move_left`, `move_right`, `move_to_start` and `move_to_end`
pub move_left : LineEditor → LineEditor
move_left e = if ltb 0 e.cursor then record e { cursor = e.cursor - 1 } else e

pub move_right : LineEditor → LineEditor
move_right e = if ltb e.cursor e.len then record e { cursor = e.cursor + 1 } else e

pub move_to_start : LineEditor → LineEditor
move_to_start e = record e { cursor = 0 }

pub move_to_end : LineEditor → LineEditor
move_to_end e = record e { cursor = e.len }
