-- ===== src/Service/Call.antt =====
-- A call of Wal.Set or Wal.Del (wal.go) from push to the answer of its future, where no other
-- caller acts. Write answers the future before flushBatch applies the records, so the call returns
-- while the flusher may still have them to apply.
use in_memory_base.Base.{
  ℕ, ◌≡◌, refl, Bool, true, false, List, [], ◌∷◌, map, Option, none, some, ==_refl,
}
use in_memory_base.Base.Int.{ℤ}
use in_memory_base.Base.Text.{Text}
use in_memory_base.Base.Errors.{Error}
use in_memory_base.Base.Sort.{sort_by}
use in_memory_base.Concurrency.Promise.{Outcome, ◌>>=◌, done, Future, get, update}
use in_memory_base.Concurrency.OneShot.{new_promise-IsOpen, resolve}
use in_memory_base.Filesystem.Disk.{Os}
use in_memory_base.HashTable.{HashTable}
use in_memory_base.Wal.Log.{Log, Gob, bytes_of}
use in_memory_base.Wal.Stream.{stream}
use in_memory_base.Filesystem.Contents.{Extends}
use in_memory_base.Filesystem.Ready.{IsThere}
use in_memory_base.Filesystem.Append.{HasWritten}
use in_memory_base.Wal.Request.{Channels, WriteRequest, new_write_request, future_response}
use in_memory_base.Wal.Writer.{Output}
use in_memory_base.Wal.Apply.{apply_logged, command_set_id, command_del_id}
use in_memory_base.Wal.Batch.{Wal, WalConfig, new_wal, seal_batch, seal_if, add_request, push, send}
use in_memory_base.Wal.Pending.{mark}
use in_memory_base.Wal.Output.{HasWrittenAll, write-HasWrittenAll}
use in_memory_base.Wal.System.{to_apply, begin_flush}

-- The WAL, and the records of the batch in the hands of the flusher that it has yet to apply.
pub record Running : Type 0 where
  pub wal : Wal
  pub remaining : List Log

-- The rest of the loop of flushBatch.
abbrev pub apply_rest : List Log → Wal → Wal
apply_rest remaining wal = record wal {
  command_hash_table = apply_logged remaining wal.command_hash_table;
}

-- What the flusher takes next: from the channel, or at its tick the open batch.
take_batch : List (List WriteRequest) → Wal → List WriteRequest × Wal
take_batch [] wal = seal_batch wal
take_batch (batch ∷ rest) wal = (batch, record wal { batches = rest })

-- `wal.batches <- sealedBatch`; then the flusher comes to the end of its loop, takes the next batch
-- and writes it.
flush_next : Gob → Os → List Log → List WriteRequest → Wal → Outcome (Option Error × List Log × Wal)
unfolding take_batch
flush_next gob os remaining sealed wal = send sealed wal >>= λ w.
    begin_flush gob os (take_batch w.batches (apply_rest remaining w)).0
      (take_batch w.batches (apply_rest remaining w)).1

module _ (gob : Gob) (os : Os) where
  -- Wal.push: the critical section, the send, and `future.Get()`, with what the flusher does up to
  -- the Write that answers it.
  unfoldable pub call : ℤ → ℤ → List Text → Running → Outcome (Option Error × Running)
  unfolding flush_next
  call lsn command_id arguments running =
      let (request, sealed, wal) = push gob lsn command_id arguments running.wal in
      flush_next gob os running.remaining sealed wal >>= λ (e, logs, w).
      get none (future_response request) w.output.channels >>= λ (answer, channels). done (
        answer,
        record {
          wal = record w { output = record w.output { channels = channels } };
          remaining = logs;
        },
      )

  -- Wal.Set and Wal.Del
  abbrev pub set_call : ℤ → Text → Text → Running → Outcome (Option Error × Running)
  set_call lsn key value = call lsn command_set_id (key ∷ value ∷ [])

  abbrev pub del_call : ℤ → Text → Running → Outcome (Option Error × Running)
  del_call lsn key = call lsn command_del_id (key ∷ [])

-- The channels once the future was read.
abbrev taken : Channels → Future → Option Error → Channels
taken channels future e = record channels {
  channels =
      update (resolve channels future.result e).channels future.result
        (record { buffer = []; closed = true });
}

get-resolve :
    (channels : Channels) (future : Future) (e : Option Error)
    → get none future (resolve channels future.result e) ≡ done (e, taken channels future e)
get-resolve channels future e = unfold get in simp ==_refl

-- A WAL with no request in it, over some output and some table.
abbrev pub waiting : WalConfig → Output → HashTable → List Log → Running
waiting config output table remaining = record {
  wal = new_wal config output table;
  remaining = remaining;
}

module _ (gob : Gob) (os : Os) (config : WalConfig) (table : HashTable) (remaining : List Log) where
  -- Whether push sealed its one request or left it: the flusher writes it.
  flush_next_request :
      (b : Bool) (volume : ℕ) (r : WriteRequest) (out : Output)
      → flush_next gob os remaining
          (seal_if b
            (record (new_wal config out table) { batch = r ∷ []; active_batch_volume = volume })).0
          (seal_if b
            (record (new_wal config out table) { batch = r ∷ []; active_batch_volume = volume })).1
        ≡ begin_flush gob os (r ∷ []) (new_wal config out (apply_logged remaining table))
  unfolding flush_next send seal_if seal_batch take_batch
  flush_next_request true volume r out = refl
  flush_next_request false volume r out = refl

  begin_flush_request :
      (r : WriteRequest) (out : Output) (w : HasWrittenAll gob os (r ∷ []) out)
      → begin_flush gob os (r ∷ []) (new_wal config out (apply_logged remaining table))
        ≡ done (
          w.error,
          to_apply w.error (map mark (r ∷ [])),
          new_wal config w.after (apply_logged remaining table),
        )
  unfolding begin_flush
  begin_flush_request r out w = rw w.result

-- What a call of the command side gives: it returns with the error of the Write, the flusher has
-- applied what it had before, and has the record to apply if that error is nil, and then it stands on
-- the disk.
pub record IsCalled (gob : Gob) (os : Os) (config : WalConfig) (table : HashTable)
    (remaining : List Log) (log : Log) (before : Output) : Type 0 where
  pub error : Option Error
  pub output : Output
  pub remaining' : List Log
  pub result :
      call gob os log.lsn log.command_id log.arguments (waiting config before table remaining)
      ≡ done (error, waiting config output (apply_logged remaining table) remaining')
  pub applied : error ≡ none → remaining' ≡ log ∷ []
  pub skipped : (x : Error) → error ≡ some x → remaining' ≡ []
  pub there : IsThere before.segment.file before.disk → IsThere output.segment.file output.disk
  pub extends : Extends before.disk output.disk
  pub durable :
      IsThere before.segment.file before.disk
      → error ≡ none
      → HasWritten
          (bytes_of gob (stream (log ∷ [])))
          (stream (log ∷ []))
          before.segment.max_segment_size
          before.disk
          output.segment
          output.disk

to_apply-none :
    (e : Option Error) (r : WriteRequest) → e ≡ none → to_apply e (map mark (r ∷ [])) ≡ r.log ∷ []
unfolding sort_by
to_apply-none none r h = refl
to_apply-none (some x) r h = cc

to_apply-some :
    (e : Option Error) (r : WriteRequest) (x : Error)
    → e ≡ some x
    → to_apply e (map mark (r ∷ [])) ≡ []
to_apply-some none r x h = cc
to_apply-some (some y) r x h = refl

module _ (gob : Gob) (os : Os) (config : WalConfig) (table : HashTable) (remaining : List Log)
    (log : Log) (before : Output) where
  abbrev requested : WriteRequest × Channels
  requested = new_write_request log.lsn log.command_id log.arguments before.channels

  abbrev pushed_output : Output
  pushed_output = record before { channels = requested.1 }

  all : HasWrittenAll gob os (requested.0 ∷ []) pushed_output
  all =
      write-HasWrittenAll gob os (requested.0 ∷ []) pushed_output
        (unfold new_write_request in (refl, new_promise-IsOpen before.channels, tt, tt))

  -- The output once the caller has read its answer.
  abbrev answered_output : Output
  answered_output = record all.after {
    channels = taken requested.1 (future_response requested.0) all.error;
  }

  call_result :
      call gob os log.lsn log.command_id log.arguments (waiting config before table remaining)
      ≡ done (
        all.error,
        waiting config answered_output
            (apply_logged remaining table)
            (to_apply all.error (map mark (requested.0 ∷ []))),
      )
  unfolding call push add_request
  call_result =
      rw
        (
          flush_next_request gob os config table remaining _ _ requested.0 pushed_output,
          begin_flush_request gob os config table remaining requested.0 pushed_output all,
          all.output.answered,
          get-resolve requested.1 (future_response requested.0) all.error,
        )
        refl

  -- A call of Set or Del of the WAL by a single caller: whatever the system answers, it returns, with
  -- the error of the Write of its record.
  pub call-IsCalled : IsCalled gob os config table remaining log before
  call-IsCalled = record {
    error = all.error;
    output = answered_output;
    remaining' = to_apply all.error (map mark (requested.0 ∷ []));
    result = call_result;
    applied = unfold new_write_request in to_apply-none all.error requested.0;
    skipped = to_apply-some all.error requested.0;
    there = all.output.there;
    extends = all.output.extends;
    durable = unfold new_write_request in all.output.durable;
  }
