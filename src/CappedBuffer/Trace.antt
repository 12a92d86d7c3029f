-- ===== src/CappedBuffer/Trace.antt =====
-- Runs of src/capped_buffer.go: the passes of the writer's, the reader's and the closer's calls in
-- the order in which they hold the mutex, with what each side has seen so far.
use bemi_db.Prelude.{ℕ, String, List, [], ◌∷◌, ◌++◌, Option, none, some, take}
use bemi_db.CappedBuffer.{
  CappedBuffer, Byte, BufferError, Outcome, returned, waiting, new_capped_buffer, write, read,
  close_with_error,
}

pub data Event : Type 0 where
  write_call : List Byte → Event
  read_call : ℕ → Event
  close_call : Option String → Event

pub record Pipe : Type 0 where
  pub buf : CappedBuffer
  -- the bytes that `Write` has reported as written
  pub accepted : List Byte
  -- the bytes that `Read` has handed out
  pub delivered : List Byte
  -- the last error that `Read` has reported
  pub reader_end : Option BufferError
  -- the argument of the first `CloseWithError`
  pub first_close : Option (Option String)

unfoldable pub fresh : ℕ → Pipe
unfolding new_capped_buffer
fresh max_size_bytes = record {
  buf = new_capped_buffer max_size_bytes;
  accepted = [];
  delivered = [];
  reader_end = none;
  first_close = none;
}

abbrev pub written : List Byte → Outcome ℕ → List Byte
written payload (returned n _) = take n payload
written payload waiting = []

abbrev pub got : Outcome (List Byte) → List Byte
got (returned bytes _) = bytes
got waiting = []

abbrev pub end_after : Option BufferError → Outcome (List Byte) → Option BufferError
end_after before (returned _ (some e)) = some e
end_after before (returned _ none) = before
end_after before waiting = before

abbrev pub first_of_closes : Option (Option String) → Option String → Option (Option String)
first_of_closes (some reason) _ = some reason
first_of_closes none reason = some reason

unfoldable pub step : Pipe → Event → Pipe
step p (write_call payload) =
    let (out, buf') = write p.buf payload in
    record p { buf = buf'; accepted = p.accepted ++ written payload out }
step p (read_call size) =
    let (out, buf') = read p.buf size in
    record p {
      buf = buf';
      delivered = p.delivered ++ got out;
      reader_end = end_after p.reader_end out;
    }
step p (close_call reason) = record p {
  buf = close_with_error p.buf reason;
  first_close = first_of_closes p.first_close reason;
}

unfoldable pub run : Pipe → List Event → Pipe
run p [] = p
run p (e ∷ events) = run (step p e) events
