-- ===== src/CappedBuffer/Examples.antt =====
-- Tests of the model of src/capped_buffer.go, and its theorems at concrete runs.
use bemi_db.Prelude.{◌≡◌, ◌≤◌, ◌++◌, refl, List, [], ◌∷◌, String, Option, none, some, length}
use bemi_db.CappedBuffer.{
  eof, close_reason, returned, end_reason, write, read, new_capped_buffer, close, close_with_error,
  close_error,
}
use bemi_db.CappedBuffer.Trace.{Event, write_call, read_call, close_call, run, step, fresh}
use bemi_db.CappedBuffer.Fifo.{run-in_order}
use bemi_db.CappedBuffer.Ending.{run-end_complete, close_error-run, reason_of, first_close_of}

-- The third byte of the second write does not fit until the reader has made room.
abbrev aborted : List Event
aborted =
    write_call (1 ∷ 2 ∷ [])
    ∷ write_call (3 ∷ 4 ∷ 5 ∷ [])
    ∷ read_call 1
    ∷ write_call (3 ∷ 4 ∷ [])
    ∷ close_call (some "conflict with recovery")
    ∷ close_call none
    ∷ write_call (9 ∷ [])
    ∷ read_call 8
    ∷ read_call 8
    ∷ []

aborted_runs :
    ((run (fresh 4) aborted).delivered ≡ 1 ∷ 2 ∷ 3 ∷ 4 ∷ [])
    × ((run (fresh 4) aborted).reader_end ≡ some (close_reason "conflict with recovery"))
unfolding run step fresh write read close_with_error
aborted_runs = (refl, refl)

clean_end : (read (close (new_capped_buffer 4)) 8).0 ≡ returned [] (some eof)
unfolding read close close_with_error new_capped_buffer
clean_end = refl

run-in_order_example :
    ((run (fresh 4) aborted).delivered ++ (run (fresh 4) aborted).buf.buffer
      ≡ (run (fresh 4) aborted).accepted)
    × (length (run (fresh 4) aborted).buf.buffer ≤ 4)
run-in_order_example = run-in_order 4 aborted

run-end_complete_example :
    (reason : Option String) × ((run (fresh 4) aborted).first_close ≡ some reason)
    × (close_reason "conflict with recovery" ≡ end_reason reason)
    × ((run (fresh 4) aborted).delivered ≡ (run (fresh 4) aborted).accepted)
unfolding run step fresh write read close_with_error
run-end_complete_example = run-end_complete 4 aborted (close_reason "conflict with recovery") refl

close_error-run_example :
    close_error (run (fresh 4) aborted).buf ≡ reason_of (first_close_of aborted)
close_error-run_example = close_error-run 4 aborted
