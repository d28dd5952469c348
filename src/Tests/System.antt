-- ===== src/Tests/System.antt =====
-- The theorems on the runs of the WAL, at a run in which two callers push, their batch is full, sent and
-- written, and both are told.
use in_memory_base.Base.{◌≡◌, ◌+◌, ◌≤◌, refl, [], ◌∷◌, none}
use in_memory_base.Base.Int.{pos}
use in_memory_base.Base.Arrange.{IsIn, here}
use in_memory_base.Base.Text.{runes, text_eq}
use in_memory_base.Base.Sort.{sort_by, insert_by}
use in_memory_base.Base.Decimal.{digits}
use in_memory_base.Concurrency.Promise.{done, blocked, new_promise}
use in_memory_base.Concurrency.Promise
use in_memory_base.Filesystem.Disk.{
  create_file, open_exclusive, find_file, write_file, land, append_to,
}
use in_memory_base.Filesystem.Segment.{
  create, adopt, write, ensure_file, file_or_new, ensure_room, next_or_stay, store, store_to,
  account,
}
use in_memory_base.Wal.Log.{bytes_of, encode_to, encode}
use in_memory_base.Wal.Request.{new_write_request, set_response, future_response}
use in_memory_base.Wal.Writer.{notification, encode_requests}
use in_memory_base.Wal.Writer
use in_memory_base.Wal.Batch.{push, add_request, seal_if, seal_batch, send}
use in_memory_base.Wal.System.{
  System, running, stopped, Reach, start, next, caller, flusher, pushes, sends, reads, flushes,
  applies, cancels, queued, drained, begin_flush, unwritten, channels_of,
}
use in_memory_base.HashTable.{new_hash_table}
use in_memory_base.Wal.System.Waiting.{Reach-IsWaiting}
use in_memory_base.Wal.System.Durable.{IsDurable, Reach-IsDurable}
use in_memory_base.Wal.System.Told.{IsOnDisk, told_nil-IsOnDisk}
use in_memory_base.Wal.System.Progress.{
  Works, rests, works, by_caller, by_flusher, measure, Works-measure,
}
use in_memory_base.Wal.System.Answering.{AllReturn, Reach-AllReturn}
use in_memory_base.Wal.System.Stopped.{Steps, none_taken, then, stopped-blocked}
use in_memory_base.Tests.Data.{gob, os, request, wal, first, second}

-- Both callers have pushed, and the second has sealed the batch.
unfoldable both_pushed : (s : System) × Reach gob wal s × (s.phase ≡ running)
unfolding push add_request seal_if seal_batch new_write_request new_promise encode encode_to
    bytes_of
both_pushed = (
  _,
  next (next start (caller (pushes _ (pos 2) (pos 1) (runes "a" ∷ runes "y" ∷ []))))
      (caller (pushes _ (pos 1) (pos 1) (runes "a" ∷ runes "x" ∷ []))),
  refl,
)

-- The batch is sent and written, and the second caller takes its answer.
one_told : (s : System) × Reach gob wal s × IsIn (request 1 first, none) s.told
unfolding push add_request seal_if seal_batch new_write_request new_promise encode encode_to
    bytes_of send begin_flush Writer.write encode_requests notification set_response Promise.set
    Promise.get write ensure_file file_or_new create create_file open_exclusive adopt ensure_room
    next_or_stay store store_to account write_file land append_to find_file text_eq sort_by
    insert_by digits
one_told = (
  _,
  next
      (next
        (next
          (next (next start (caller (pushes _ (pos 2) (pos 1) (runes "a" ∷ runes "y" ∷ []))))
            (caller (pushes _ (pos 1) (pos 1) (runes "a" ∷ runes "x" ∷ []))))
          (caller (sends _ [] _ _ _ refl (λ z. cc) refl)))
        (flusher (flushes _ os _ _ _ _ _ _ refl (queued _ _ _ _ (λ z. cc) refl) refl)))
      (caller (reads _ [] _ _ _ _ refl refl refl)),
  here refl,
)

told_nil-IsOnDisk_example : IsOnDisk first one_told.0.wal.output.disk
told_nil-IsOnDisk_example = told_nil-IsOnDisk (request 1 first) refl refl tt one_told.1 one_told.2

Reach-IsDurable_example : IsDurable new_hash_table one_told.0
Reach-IsDurable_example = Reach-IsDurable refl refl tt one_told.1

Reach-AllReturn_example : AllReturn gob both_pushed.0
Reach-AllReturn_example = Reach-AllReturn refl refl both_pushed.1 both_pushed.2

-- From there the batch is sent, written, and its first record applied.
three_worked : (t : System) × Works gob 3 both_pushed.0 t
unfolding push add_request seal_if seal_batch new_write_request new_promise encode encode_to
    bytes_of send begin_flush Writer.write encode_requests notification set_response Promise.set
    write ensure_file file_or_new create create_file open_exclusive adopt ensure_room next_or_stay
    store store_to account write_file land append_to find_file text_eq sort_by insert_by digits
    both_pushed
three_worked = (
  _,
  works (by_caller (sends _ [] _ _ _ refl (λ z. cc) refl) tt) (
      works (by_flusher (flushes _ os _ _ _ _ _ _ refl (queued _ _ _ _ (λ z. cc) refl) refl) tt)
        (works (by_flusher (applies _ _ _ refl) tt) rests)),
)

Works-measure_example : 3 + measure three_worked.0 ≤ measure both_pushed.0
Works-measure_example = Works-measure three_worked.1 (Reach-IsWaiting refl refl both_pushed.1)

-- The flusher has returned, and then a caller pushes.
unfoldable pushed_late :
    (s : System) × Reach gob wal s
    × (s.phase ≡ stopped)
    × IsIn (request 0 second) (unwritten s.callers s.wal)
unfolding push add_request seal_if seal_batch new_write_request new_promise encode encode_to
    bytes_of begin_flush
pushed_late = (
  _,
  next
      (next (next start (flusher (cancels _ refl refl)))
        (flusher (flushes _ os _ _ _ _ _ _ refl (drained _ refl) refl)))
      (caller (pushes _ (pos 2) (pos 1) (runes "a" ∷ runes "y" ∷ []))),
  refl,
  here refl,
)

-- Another one pushes and sends the batch.
goes_on : (t : System) × Steps gob pushed_late.0 t
unfolding push add_request seal_if seal_batch new_write_request new_promise encode encode_to
    bytes_of send begin_flush pushed_late
goes_on = (
  _,
  then (caller (pushes _ (pos 1) (pos 1) (runes "a" ∷ runes "x" ∷ [])))
      (then (caller (sends _ [] _ _ _ refl (λ z. cc) refl)) none_taken),
)

stopped-blocked_example :
    Promise.get none (future_response (request 0 second)) (channels_of goes_on.0) ≡ blocked
stopped-blocked_example =
    stopped-blocked (request 0 second) refl refl pushed_late.1 pushed_late.2 pushed_late.3 goes_on.1
