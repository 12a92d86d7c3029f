-- ===== src/CappedBuffer/Fifo.antt =====
-- src/capped_buffer.go: order, capacity and the close reason.
use bemi_db.Prelude.{
  ℕ, ◌≤◌, ◌≡◌, refl, ap, String, List, [], ◌∷◌, ◌++◌, Option, none, some, true, false, arith,
  length, take, drop, take-append-drop, length-append, length-drop-le, append-nil, append_assoc,
}
use bemi_db.CappedBuffer.{
  CappedBuffer, Byte, BufferError, end_reason, write, read, close_with_error,
}
use bemi_db.CappedBuffer.Trace.{Event, write_call, read_call, close_call, Pipe, fresh, step, run}

take-length : (xs : List Byte) → take (length xs) xs ≡ xs
take-length [] = refl
take-length (x ∷ xs) = ap (λ l. x ∷ l) (take-length xs)

-- What the close state of a buffer says of the first `CloseWithError`.
abbrev pub ClosedBy : Option (Option String) → CappedBuffer → Type 0
ClosedBy none b = (b.closed ≡ false) × (b.close_once ≡ false) × (b.close_err ≡ none)
ClosedBy (some reason) b = (b.closed ≡ true) × (b.close_once ≡ true) × (b.close_err ≡ reason)

-- What a reported end says: the buffer is closed and drained, and the end is the close reason.
abbrev pub EndedBy : Option BufferError → CappedBuffer → Type 0
EndedBy none b = Unit {0}
EndedBy (some e) b = (b.closed ≡ true) × (b.buffer ≡ []) × (e ≡ end_reason b.close_err)

pub record IsValid (max : ℕ) (p : Pipe) : Type 0 where
  pub fifo : p.delivered ++ p.buf.buffer ≡ p.accepted
  pub same_max : p.buf.max_size_bytes ≡ max
  pub bounded : length p.buf.buffer ≤ max
  pub closed_by : ClosedBy p.first_close p.buf
  pub ended_by : EndedBy p.reader_end p.buf

fresh-IsValid : (max : ℕ) → IsValid max (fresh max)
unfolding fresh
fresh-IsValid max = ground arith

length-eq-zero : {A : Type 0} (xs : List A) → length xs ≡ 0 → xs ≡ []
length-eq-zero [] h = refl
length-eq-zero (x ∷ xs) h = absurd (omega arith)

module _ {max : ℕ} where
  write-IsValid :
      {p : Pipe} (payload : List Byte) → IsValid max p → IsValid max (step p (write_call payload))
  unfolding step write
  write-IsValid {p} payload v = ground (
    arith,
    append-nil p.accepted,
    take-length payload,
    length-append p.buf.buffer payload,
    append_assoc p.delivered p.buf.buffer payload,
  )

  read-IsValid : {p : Pipe} (size : ℕ) → IsValid max p → IsValid max (step p (read_call size))
  unfolding step read
  read-IsValid {p} size v = ground (
    arith,
    append-nil p.delivered,
    length-eq-zero p.buf.buffer,
    length-drop-le size p.buf.buffer,
    take-append-drop size p.buf.buffer,
    append_assoc p.delivered (take size p.buf.buffer) (drop size p.buf.buffer),
  )

  close-IsValid :
      {p : Pipe} (reason : Option String) → IsValid max p → IsValid max (step p (close_call reason))
  unfolding step close_with_error
  close-IsValid {p} reason v = ground arith

  step-IsValid : {p : Pipe} (e : Event) → IsValid max p → IsValid max (step p e)
  step-IsValid (write_call payload) v = write-IsValid payload v
  step-IsValid (read_call size) v = read-IsValid size v
  step-IsValid (close_call reason) v = close-IsValid reason v

  run-IsValid : (events : List Event) {p : Pipe} → IsValid max p → IsValid max (run p events)
  unfolding run
  run-IsValid [] v = v
  run-IsValid (e ∷ events) v = run-IsValid events (step-IsValid e v)

pub run-fresh-IsValid : (max : ℕ) (events : List Event) → IsValid max (run (fresh max) events)
run-fresh-IsValid max events = run-IsValid events (fresh-IsValid max)

-- Whatever the order of the calls, the bytes handed to the reader, followed by those still in the
-- buffer, are exactly the bytes reported as written, in order, and the buffer never holds more than
-- its maximum size.
pub run-in_order :
    (max : ℕ) (events : List Event)
    → let p = run (fresh max) events in
      (p.delivered ++ p.buf.buffer ≡ p.accepted) × (length p.buf.buffer ≤ max)
run-in_order max events = let v = run-fresh-IsValid max events in (v.fifo, v.bounded)
