-- ===== src/CappedBuffer.antt =====
-- src/capped_buffer.go: the bounded pipe between the COPY goroutine and the CSV reader.
-- Each method runs under the mutex, so a method is one function on the state. A call that waits on
-- the condition variable leaves the state alone and is tried again when it is woken: the test of
-- its loop and the tests after the loop are the tests of a fresh call.
pub mod Trace
pub mod Fifo
pub mod Ending
mod Examples
use bemi_db.Prelude.{
  ℕ, ◌+◌, String, List, [], ◌++◌, Option, none, some, Bool, true, false, ◌&&◌, not, ltb, ◌==◌,
  nat_eq, length, take, drop, if◌then◌else◌,
}

abbrev pub Byte : Type 0
Byte = ℕ

-- What a call reports to its caller as `err`.
pub data BufferError : Type 0 where
  buffer_is_closed : BufferError
  eof : BufferError
  close_reason : String → BufferError

pub record CappedBuffer : Type 0 where
  pub max_size_bytes : ℕ
  pub buffer : List Byte
  -- `closeOnceSync` has run
  pub close_once : Bool
  pub closed : Bool
  pub close_err : Option String

unfoldable pub new_capped_buffer : ℕ → CappedBuffer
new_capped_buffer max_size_bytes = record {
  max_size_bytes = max_size_bytes;
  buffer = [];
  close_once = false;
  closed = false;
  close_err = none;
}

-- The outcome of one pass of a call: it returns, or it waits on the condition variable.
pub data Outcome {ℓ} (A : Type ℓ) : Type ℓ where
  returned : A → Option BufferError → Outcome A
  waiting : Outcome A

unfoldable pub write : CappedBuffer → List Byte → Outcome ℕ × CappedBuffer
write buf payload =
    if length payload == 0
    then (returned 0 none, buf)
    else if buf.closed
    then (returned 0 (some buffer_is_closed), buf)
    else if ltb buf.max_size_bytes (length buf.buffer + length payload)
    then (waiting, buf)
    else (returned (length payload) none, record buf { buffer = buf.buffer ++ payload })

-- Why a drained and closed buffer ends.
abbrev pub end_reason : Option String → BufferError
end_reason (some reason) = close_reason reason
end_reason none = eof

-- The caller's slice is given by its length; the bytes copied into it are returned.
unfoldable pub read : CappedBuffer → ℕ → Outcome (List Byte) × CappedBuffer
read buf size =
    if size == 0
    then (returned [] none, buf)
    else if length buf.buffer == 0 && not buf.closed
    then (waiting, buf)
    else if length buf.buffer == 0 && buf.closed
    then (returned [] (some (end_reason buf.close_err)), buf)
    else (returned (take size buf.buffer) none, record buf { buffer = drop size buf.buffer })

unfoldable pub close_with_error : CappedBuffer → Option String → CappedBuffer
close_with_error buf err =
    if buf.close_once then buf else record buf { close_once = true; closed = true; close_err = err }

unfoldable pub close : CappedBuffer → CappedBuffer
close buf = close_with_error buf none

pub close_error : CappedBuffer → Option String
close_error buf = buf.close_err
