-- ===== src/Tests/Wal.antt =====
-- The theorems of the WAL at concrete inputs.
use in_memory_base.Base.{
  ◌≡◌, ◌≢◌, refl, false, [], ◌∷◌, ◌++◌, none, some, arith, map, length, ℕ, ap, sym, true,
}
use in_memory_base.Base.Int.{pos, ◌≤ℤ◌}
use in_memory_base.Base.Text.{Text, runes, text_eq}
use in_memory_base.Base.Errors.{ok}
use in_memory_base.Concurrency.Promise.{done}
use in_memory_base.Filesystem.Disk.{
  create_file, open_exclusive, find_file, read_file, get_file_list, regular_paths, write_file, land,
  append_to,
}
use in_memory_base.Filesystem.Segment.{
  create, adopt, set_file, write, ensure_file, file_or_new, ensure_room, next_or_stay, store,
  store_to, account,
}
use in_memory_base.Filesystem.Contents.{Exists}
use in_memory_base.Wal.Log.{bytes_of, encode_to}
use in_memory_base.Wal.Stream.{stream}
use in_memory_base.Wal.Writer
use in_memory_base.Concurrency.Promise
use in_memory_base.Base.Sort.{sort_by, insert_by}
use in_memory_base.Base.Decimal.{digits}
use in_memory_base.Wal.Request.{Channels, set_response, future_response}
use in_memory_base.Wal.Writer.{notification, encode_requests}
use in_memory_base.HashTable.{new_hash_table}
use in_memory_base.Wal.Apply.{apply, apply_set, apply_logged}
use in_memory_base.Wal.Batch.{Wal, push, is_full, apply_batch, flush_batch}
use in_memory_base.Wal.Pending.{IsPending, mark, resolve_all}
use in_memory_base.Wal.Recovery.{recover_files, after_files, after_list, recovery}
use in_memory_base.Wal.Replay.{IsApplicable, Holds, apply_batches, recover_files-Holds}
use in_memory_base.Wal.Restart.{recovery_after_second_write}
use in_memory_base.Wal.Flush.{IsFlushed, flush_batch-IsFlushed}
use in_memory_base.Wal.Drain.{DrainedAll, drain-DrainedAll}
use in_memory_base.Wal.FirstFlush.{empty, one_file, fresh_wal, created_wal, recovery-flush_batch}
use in_memory_base.Wal.Early.{get-write}
use in_memory_base.Wal.Push.{push_bounds}
use in_memory_base.Tests.Data.{
  gob, os, systems, set_log, request, channels, output, wal, first, second, requests, path, file,
  used_segment, used_disk,
}

requests-IsPending : IsPending requests channels
requests-IsPending = (refl, refl, ((omega arith), tt), (refl, refl, tt, tt))

flush_batch-IsFlushed_example : IsFlushed gob os requests wal
flush_batch-IsFlushed_example =
    flush_batch-IsFlushed gob os (request 0 second) (request 1 first ∷ []) wal requests-IsPending

-- One request in a sealed batch, and one in the open batch.
abbrev busy : Wal
busy = record wal { batches = (request 0 second ∷ []) ∷ []; batch = request 1 first ∷ [] }

drain-DrainedAll_example : DrainedAll gob systems busy
drain-DrainedAll_example = drain-DrainedAll gob systems busy requests-IsPending

push_bounds_example :
    (is_full (push gob (pos 3) (pos 1) (runes "a" ∷ runes "z" ∷ []) busy).2 ≡ false)
    × (pos (length (push gob (pos 3) (pos 1) (runes "a" ∷ runes "z" ∷ []) busy).1)
        ≤ℤ busy.config.flushing_batch_count)
push_bounds_example =
    push_bounds gob (pos 3) (pos 1) (runes "a" ∷ runes "z" ∷ []) busy refl refl refl

set_log-IsApplicable : (lsn : ℕ) (key value : Text) → IsApplicable (set_log lsn key value)
unfolding apply apply_set
set_log-IsApplicable lsn key value table = (_, refl)

read_back :
    Holds os (used_disk (stream (first ∷ second ∷ []))) (path ∷ []) ((first ∷ second ∷ []) ∷ [])
unfolding read_file find_file text_eq
read_back = (refl, (set_log-IsApplicable _ _ _, (set_log-IsApplicable _ _ _, tt)), tt)

recover_files-Holds_example :
    recover_files os (used_disk (stream (first ∷ second ∷ []))) (path ∷ []) new_hash_table
    ≡ (none, apply_batches ((first ∷ second ∷ []) ∷ []) new_hash_table)
recover_files-Holds_example =
    recover_files-Holds os (used_disk (stream (first ∷ second ∷ []))) (path ∷ [])
      ((first ∷ second ∷ []) ∷ []) new_hash_table read_back

abbrev twice : Wal
twice = record wal {
  output = record output {
    segment = used_segment;
    disk = used_disk (stream (first ∷ []) ++ stream (second ∷ []));
  };
}

second_write-ok :
    write gob os (stream (second ∷ [])) used_segment (used_disk (stream (first ∷ []))) ≡ (
      ok tt,
      record used_segment { segment_size = 40 },
      used_disk (stream (first ∷ []) ++ stream (second ∷ [])),
    )
unfolding write ensure_file file_or_new ensure_room next_or_stay store store_to account write_file
    land append_to text_eq bytes_of
second_write-ok = refl

listed : get_file_list os twice.output.disk ≡ ok (path ∷ [])
unfolding get_file_list regular_paths
listed = refl

path_there : Exists path (used_disk (stream (first ∷ [])))
unfolding find_file text_eq
path_there = (_, refl)

recovery_after_second_write_example : (recovery gob os twice).0 ≢ none
unfolding find_file text_eq
recovery_after_second_write_example =
    recovery_after_second_write gob os first [] second [] used_segment
      (used_disk (stream (first ∷ []))) file os twice [] [] refl path_there refl
      (unfold bytes_of in refl) (ap (λ r. r.0) second_write-ok) refl
      (ap (λ r. r.2) (sym second_write-ok)) listed

-- What the first flush leaves.
abbrev flushed : Wal
flushed = record wal {
  output = record {
    segment = record output.segment {
      file = some (record { path = runes "wal/segment_7.log"; is_open = true });
      segment_size = 30;
    };
    disk = one_file (runes "wal/segment_7.log") (stream (second ∷ first ∷ []));
    channels = resolve_all none requests channels;
  };
  command_hash_table = apply_logged (first ∷ second ∷ []) new_hash_table;
}

-- An empty directory after Recovery.
abbrev made : Wal
made =
    created_wal gob wal.config (runes "wal") (runes "segment_") (pos 100) channels
      (runes "wal/segment_7.log")

made_ok :
    recovery gob os
      (fresh_wal gob wal.config (runes "wal") (runes "segment_") (pos 100) channels empty)
    ≡ (none, made)
unfolding recovery recover_files after_list after_files get_file_list regular_paths create adopt
    create_file open_exclusive set_file find_file text_eq digits bytes_of
made_ok = refl

flush_ok : flush_batch gob os requests made ≡ done (none, flushed)
unfolding flush_batch Writer.write encode_requests encode_to notification set_response Promise.set
    write ensure_file file_or_new ensure_room next_or_stay store store_to account write_file land
    append_to text_eq bytes_of apply_logged sort_by insert_by
flush_ok = refl

recovery-flush_batch_example :
    ((recovery gob os (
        fresh_wal gob wal.config
          (runes "wal")
          (runes "segment_")
          (pos 100)
          channels
          flushed.output.disk)).0
      ≡ none)
    × ((recovery gob os (
          fresh_wal gob wal.config
            (runes "wal")
            (runes "segment_")
            (pos 100)
            channels
            flushed.output.disk)).1.command_hash_table
        ≡ flushed.command_hash_table)
recovery-flush_batch_example =
    recovery-flush_batch gob wal.config (runes "wal") (runes "segment_") (pos 100) channels os os
      made (request 0 second) (request 1 first ∷ []) made_ok requests-IsPending flushed flush_ok
      (set_log-IsApplicable _ _ _, (set_log-IsApplicable _ _ _, tt)) os
      (record { lists = refl; reads = λ path. refl; opens = refl })

writer_ok : Writer.write gob os requests wal.output ≡ done (none, map mark requests, flushed.output)
unfolding Writer.write encode_requests encode_to notification set_response Promise.set write
    ensure_file file_or_new create create_file open_exclusive adopt ensure_room next_or_stay store
    store_to account write_file land append_to find_file text_eq bytes_of apply_logged sort_by
    insert_by digits
writer_ok = refl

get-write_example :
    ((channels' : Channels) × (Promise.get none
          (future_response (request 0 second))
          flushed.output.channels
        ≡ done (none, channels')))
    × (flush_batch gob os requests wal
        ≡ done (none, apply_batch (map mark requests) (record wal { output = flushed.output })))
get-write_example =
    get-write gob os (request 0 second) (request 1 first ∷ []) wal (map mark requests)
      flushed.output requests-IsPending writer_ok
