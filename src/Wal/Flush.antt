-- ===== src/Wal/Flush.antt =====
-- Wal.flushBatch (wal.go): what it has done, on every branch.
use in_memory_base.Base.{◌≡◌, refl, ap, ◌∙◌, List, [], ◌∷◌, map, Option, none, some}
use in_memory_base.Base.Sort.{sort_by, map-sort_by}
use in_memory_base.Base.Errors.{Error}
use in_memory_base.Concurrency.Promise.{done}
use in_memory_base.Filesystem.Disk.{Os}
use in_memory_base.Wal.Log.{Gob}
use in_memory_base.Wal.Stream.{logs_of}
use in_memory_base.Wal.Request.{WriteRequest}
use in_memory_base.Wal.Writer.{Output}
use in_memory_base.Wal.Writer
use in_memory_base.Wal.Apply.{apply_logged}
use in_memory_base.Wal.Batch.{Wal, lsn_of, apply_batch, flush_batch}
use in_memory_base.Wal.Recovery.{by_lsn}
use in_memory_base.Wal.Pending.{IsPending, mark}
use in_memory_base.Wal.Output.{HasOutput, write-HasWrittenAll}

-- What flushBatch of a batch leaves, where it returns `error`: the files and the promises are as
-- HasOutput says; the table has the records of the batch applied, in the order of their LSN, if
-- the error is nil, and is as it was if not; what waits in the batch and in the queue is untouched.
pub record IsFlushed (gob : Gob) (os : Os) (requests : List WriteRequest) (wal : Wal) : Type 0 where
  pub error : Option Error
  pub after : Wal
  pub result : flush_batch gob os requests wal ≡ done (error, after)
  pub output : HasOutput gob requests error wal.output after.output
  pub applied :
      error ≡ none
      → after.command_hash_table
        ≡ apply_logged (sort_by by_lsn (logs_of requests)) wal.command_hash_table
  pub skipped : (x : Error) → error ≡ some x → after.command_hash_table ≡ wal.command_hash_table
  pub same_batch : after.batch ≡ wal.batch
  pub same_batches : after.batches ≡ wal.batches
  pub same_volume : after.active_batch_volume ≡ wal.active_batch_volume
  pub same_config : after.config ≡ wal.config

logs_of-mark : (requests : List WriteRequest) → logs_of (map mark requests) ≡ logs_of requests
logs_of-mark [] = refl
logs_of-mark (r ∷ rs) = rw (logs_of-mark rs)

-- Sorting requests by their LSN is sorting their records.
pub logs_sorted :
    (requests : List WriteRequest)
    → map (λ (r : WriteRequest). r.log) (sort_by lsn_of (map mark requests))
      ≡ sort_by by_lsn (logs_of requests)
logs_sorted requests =
    map-sort_by by_lsn (λ (r : WriteRequest). r.log) (map mark requests)
    ∙ ap (sort_by by_lsn) (logs_of-mark requests)

module _ (gob : Gob) (os : Os) (r : WriteRequest) (rs : List WriteRequest) (wal : Wal) where
  IsFlushed-with :
      (e : Option Error) (after : Output)
      → Writer.write gob os (r ∷ rs) wal.output ≡ done (e, map mark (r ∷ rs), after)
      → HasOutput gob (r ∷ rs) e wal.output after
      → IsFlushed gob os (r ∷ rs) wal
  unfolding flush_batch
  IsFlushed-with none after result output = record {
    error = none;
    after = apply_batch (map mark (r ∷ rs)) (record wal { output = after });
    result = rw result;
    output = output;
    applied = λ _. ap (λ logs. apply_logged logs wal.command_hash_table) (logs_sorted (r ∷ rs));
    skipped = λ x h. cc;
    same_batch = refl;
    same_batches = refl;
    same_volume = refl;
    same_config = refl;
  }
  IsFlushed-with (some x) after result output = record {
    error = some x;
    after = record wal { output = after };
    result = rw result;
    output = output;
    applied = λ h. cc;
    skipped = λ x h. refl;
    same_batch = refl;
    same_batches = refl;
    same_volume = refl;
    same_config = refl;
  }

  -- A flush of a batch whose callers all wait returns, whatever the system answers: it neither
  -- waits nor panics. It answers every caller with the error that it returns, the table changes
  -- only if that error is nil, and then by the records of the batch in the order of their LSN,
  -- which stand on the disk, if the segment's file, where it has one, was in the directory. The open
  -- batch and the queue are untouched.
  pub flush_batch-IsFlushed : IsPending (r ∷ rs) wal.output.channels → IsFlushed gob os (r ∷ rs) wal
  flush_batch-IsFlushed pending =
      let all = write-HasWrittenAll gob os (r ∷ rs) wal.output pending in
      IsFlushed-with all.error all.after all.result all.output
