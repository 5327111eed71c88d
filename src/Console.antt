-- ===== src/Console.antt =====
-- kernel/src/console.rs: the console's input under its lock, without the echo. The counters wrap on
-- usize. User memory is an argument: `dst i` says whether a byte can be copied out to place `i`.
pub mod Input
pub mod Read
mod Tests
use octopos.Base.{
  ℕ, zero, suc, ◌+◌, ◌-◌, ◌%◌, ◌^◌, Bool, true, false, not, ◌&&◌, ◌||◌, Option, none, some, List,
  [], ◌∷◌, ltb, ◌==◌, if◌then◌else◌, get_or, set, replicate, Result, ok, err,
}

abbrev pub input_buf_size : ℕ
input_buf_size = 128

abbrev pub usize_mod : ℕ
usize_mod = 2 ^ 64

-- `ctrl`, on u8
abbrev pub ctrl : ℕ → ℕ
ctrl c = (c + 256 - 64) % 256

abbrev pub newline : ℕ
newline = 10

pub record Console : Type 0 where
  pub buf : List ℕ
  pub r : ℕ
  pub w : ℕ
  pub e : ℕ
  pub raw : Bool
  pub foreground_pid : Option ℕ

-- `Console::new`
pub quiet : Console
quiet = record {
  buf = replicate input_buf_size 0;
  r = 0;
  w = 0;
  e = 0;
  raw = false;
  foreground_pid = none;
}

-- What the interrupt handler does outside the console: wake up the readers, list the processes, kill one.
pub data Effect : Type 0 where
  wakes dumps : Effect
  kills : ℕ → Effect

-- `buf[e % INPUT_BUF_SIZE] = c; e += 1`
pub store : ℕ → Console → Console
store c con = record con {
  buf = set con.buf (con.e % input_buf_size) c;
  e = (con.e + 1) % usize_mod;
}

-- `w = e`
pub publish : Console → Console
publish con = record con { w = con.e }

-- `e -= 1`
pub rub_out : Console → Console
rub_out con = record con { e = (con.e + usize_mod - 1) % usize_mod }

-- `e - r < INPUT_BUF_SIZE`
abbrev pub has_room : Console → Bool
has_room con = ltb ((con.e + usize_mod - con.r) % usize_mod) input_buf_size

-- `while e != w && buf[(e - 1) % INPUT_BUF_SIZE] != b'\n' { e -= 1 }`, at most `k` rounds
pub erase_line : ℕ → Console → Console
erase_line zero con = con
erase_line (suc k) con =
    let rest = erase_line k (rub_out con) in
    if con.e == con.w
      || (get_or con.buf ((con.e + usize_mod - 1) % usize_mod % input_buf_size) 0 == newline)
    then con
    else rest

-- The arm for a normal character
pub typed : ℕ → Console → Console × List Effect
typed c con =
    let c' : ℕ = if c == 13 then newline else c in
    let con' = store c' con in
    if not (c == 0) && has_room con
    then (if c' == newline
          || (c' == ctrl 68)
          || ((con'.e + usize_mod - con'.r) % usize_mod == input_buf_size)
        then (publish con', wakes ∷ [])
        else (con', []))
    else (con, [])

-- `Console::handle_interrupt`
pub handle_interrupt : ℕ → Console → Console × List Effect
handle_interrupt c con =
    if con.raw && not (c == 0) && has_room con
    then (publish (store c con), wakes ∷ [])
    else if c == ctrl 72 || c == 127
    then (if con.e == con.w then (con, []) else (rub_out con, []))
    else if c == ctrl 80
    then (con, dumps ∷ [])
    else if c == ctrl 85
    then (erase_line ((con.e + usize_mod - con.w) % usize_mod) con, [])
    else if c == ctrl 67
    then (con, elim con.foreground_pid [ none ↦ [] | some pid ↦ kills pid ∷ [] ])
    else typed c con

-- How a stretch of `read` ends.
pub data Ends : Type 0 where
  returns : ℕ → Ends
  interrupted : Ends
  sleeps : ℕ → Ends

-- `r += 1`
pub consume : Console → Console
consume con = record con { r = (con.r + 1) % usize_mod }

-- `Console::read`, with `i` bytes read and `k` to go, up to its end or its next sleep. The list is
-- what has been copied out.
pub read_from : (ℕ → Bool) → Bool → ℕ → ℕ → Console → Console × List ℕ × Ends
read_from dst killed zero i con = (con, [], returns i)
read_from dst killed (suc k) i con =
    let c = get_or con.buf (con.r % input_buf_size) 0 in
    let rest = read_from dst killed k (i + 1) (consume con) in
    if con.r == con.w
    then (if killed then (con, [], interrupted) else (con, [], sleeps i))
    else if not con.raw && (c == ctrl 68)
    then (if ltb (suc k) (i + suc k) then (con, [], returns i) else (consume con, [], returns i))
    else if not (dst i)
    then (consume con, [], returns i)
    else if c == newline || con.raw
    then (consume con, c ∷ [], returns (i + 1))
    else (let (con', bytes, e) = rest in (con', c ∷ bytes, e))

-- `Console::ioctl`, with the two commands and any other
pub data Command : Type 0 where
  set_raw set_fg_pid other : Command

pub data Error : Type 0 where
  invalid_argument : Error

pub ioctl : Command → ℕ → Console → Console × Result ℕ Error
ioctl set_raw arg con =
    if arg == 1
    then (record con { raw = true; e = con.w }, ok 0)
    else (record con { raw = false }, ok 0)
ioctl set_fg_pid arg con =
    (record con { foreground_pid = if arg == 0 then none else some arg }, ok 0)
ioctl other arg con = (con, err invalid_argument)
