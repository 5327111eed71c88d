-- ===== src/Message.antt =====
-- kernel/src/message.rs: the message that processes leave for one another, under its lock.
pub mod RoundTrip
mod Tests
use octopos.Base.{
  ℕ, zero, suc, Bool, true, false, ◌||◌, List, [], ◌∷◌, ◌++◌, ltb, if◌then◌else◌, take, drop,
  length, replicate, Result, ok, err,
}

abbrev pub bufsize : ℕ
bufsize = 4096

pub data MessageError : Type 0 where
  out_of_range : MessageError

pub record MessageBuffer : Type 0 where
  pub bytes : List ℕ
  pub valid_len : ℕ

-- `MessageBuffer::set_msg`
pub set_msg : List ℕ → ℕ → MessageBuffer → Result ℕ MessageError × MessageBuffer
set_msg buf len m =
    if ltb bufsize len || ltb (length buf) len
    then (err out_of_range, m)
    else (ok len, record { bytes = take len buf ++ drop len m.bytes; valid_len = len })

-- `MessageBuffer::get_msg`: what the caller's buffer holds afterwards, and the count.
pub get_msg : List ℕ → ℕ → MessageBuffer → Result ℕ MessageError × List ℕ
get_msg buf len m =
    if ltb m.valid_len len || ltb (length buf) len
    then (err out_of_range, buf)
    else (ok len, take len m.bytes ++ drop len buf)
