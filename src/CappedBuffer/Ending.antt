-- ===== src/CappedBuffer/Ending.antt =====
-- src/capped_buffer.go: when the reader is told that the data ends, and why.
use bemi_db.Prelude.{
  Option-cases, inl, inr, ℕ, ◌≡◌, String, List, [], ◌∷◌, Option, none, some, arith, append-nil,
}
use bemi_db.CappedBuffer.{BufferError, end_reason, close_error}
use bemi_db.CappedBuffer.Trace.{Event, write_call, read_call, close_call, Pipe, fresh, step, run}
use bemi_db.CappedBuffer.Fifo.{IsValid, run-fresh-IsValid}

end_complete :
    {max : ℕ} (p : Pipe) (e : BufferError)
    → IsValid max p
    → p.reader_end ≡ some e
    → (reason : Option String) × (p.first_close ≡ some reason)
      × (e ≡ end_reason reason)
      × (p.delivered ≡ p.accepted)
end_complete p e v h = elim (Option-cases p.first_close) [
  | inl still_open ↦ absurd (ground (arith, v.closed_by, v.ended_by))
  | inr (reason, closed) ↦ (
    reason,
    closed,
    ground (arith, v.closed_by, v.ended_by),
    ground (arith, v.fifo, v.ended_by, append-nil p.delivered),
  )
]

-- If the reader has been told that the data ends, then it has received every byte reported as
-- written, and the end it was told is that of the first close: EOF for a clean one, and otherwise
-- the error given to it.
pub run-end_complete :
    (max : ℕ) (events : List Event) (e : BufferError)
    → (run (fresh max) events).reader_end ≡ some e
    → (reason : Option String) × ((run (fresh max) events).first_close ≡ some reason)
      × (e ≡ end_reason reason)
      × ((run (fresh max) events).delivered ≡ (run (fresh max) events).accepted)
run-end_complete max events e h =
    end_complete (run (fresh max) events) e (run-fresh-IsValid max events) h

-- The argument of the first close among the calls.
abbrev pub first_close_of : List Event → Option (Option String)
first_close_of [] = none
first_close_of (close_call reason ∷ events) = some reason
first_close_of (write_call _ ∷ events) = first_close_of events
first_close_of (read_call _ ∷ events) = first_close_of events

abbrev pub reason_of : Option (Option String) → Option String
reason_of (some reason) = reason
reason_of none = none

abbrev pub or_else : Option (Option String) → Option (Option String) → Option (Option String)
or_else (some a) b = some a
or_else none b = b

first_close-run :
    (p : Pipe) (events : List Event)
    → (run p events).first_close ≡ or_else p.first_close (first_close_of events)
unfolding run step
first_close-run p [] = ground arith
first_close-run p (write_call x ∷ events) = first_close-run (step p (write_call x)) events
first_close-run p (read_call n ∷ events) = first_close-run (step p (read_call n)) events
first_close-run p (close_call reason ∷ events) =
    ground (arith, first_close-run (step p (close_call reason)) events)

-- `CloseError` reports the argument of the first close call of the run, and nothing before it:
-- later closes and all reads and writes leave it alone.
pub close_error-run :
    (max : ℕ) (events : List Event)
    → close_error (run (fresh max) events).buf ≡ reason_of (first_close_of events)
unfolding close_error fresh
close_error-run max events =
    ground (arith, (run-fresh-IsValid max events).closed_by, first_close-run (fresh max) events)
