-- ===== src/Wal/System.antt =====
-- wal.go as a whole: the callers of Wal.Set and Wal.Del and the flusher goroutine of Wal.Start, each
-- taking one step at a time in any order. A step is a critical section, an operation on the channel of
-- sealed batches or on a promise, the writing of one batch, or the application of one record.
use in_memory_base.Base.{◌≡◌, ◌≢◌, List, [], ◌∷◌, ◌++◌, map, Option, none, some}
use in_memory_base.Base.Int.{ℤ}
use in_memory_base.Base.Arrange.{concat}
use in_memory_base.Base.Text.{Text}
use in_memory_base.Base.Sort.{sort_by}
use in_memory_base.Base.Errors.{Error}
use in_memory_base.Concurrency.Promise.{Outcome, ◌>>=◌, done}
use in_memory_base.Concurrency.Promise
use in_memory_base.Filesystem.Disk.{Os}
use in_memory_base.HashTable.{HashTable}
use in_memory_base.Wal.Log.{Log, Gob}
use in_memory_base.Wal.Request.{Channels, WriteRequest, future_response}
use in_memory_base.Wal.Writer
use in_memory_base.Wal.Apply.{apply, or_same}
use in_memory_base.Wal.Batch.{Wal, lsn_of, seal_batch, push, send}
pub mod Flushing
pub mod Moves
pub mod Promises
pub mod Waiting
pub mod Durable
pub mod Callers
pub mod Told
pub mod Progress
pub mod Answering
pub mod Stopped

-- A call of push between its critical section and its return: the batch that it has sealed and still
-- has to send. Once there is none left to send, it waits at its future.
pub record Caller : Type 0 where
  pub request : WriteRequest
  pub sealed : List WriteRequest

abbrev pub caller_of : WriteRequest × List WriteRequest × Wal → Caller
caller_of (request, sealed, wal) = record { request = request; sealed = sealed }

-- The loop of Start: before `ctx` is done, in the loop that drains, and after its return.
pub data Phase : Type 0 where
  running : Phase
  draining : Phase
  stopped : Phase

-- A batch that was written, and what Write returned.
pub record Finished : Type 0 where
  pub error : Option Error
  pub requests : List WriteRequest

-- `remaining` are the records of the batch in the hands of the flusher that it has yet to apply.
-- What is finished, and what the callers were told, is kept to speak about.
pub record System : Type 0 where
  pub wal : Wal
  pub phase : Phase
  pub callers : List Caller
  pub remaining : List Log
  pub finished : List Finished
  pub told : List (WriteRequest × Option Error)

abbrev pub channels_of : System → Channels
channels_of s = s.wal.output.channels

abbrev pub sealed_of : List Caller → List WriteRequest
sealed_of callers = concat (map (λ (c : Caller). c.sealed) callers)

abbrev pub queued_or_open : Wal → List WriteRequest
queued_or_open wal = concat wal.batches ++ wal.batch

-- The requests that no Write has had yet, wherever they are.
abbrev pub unwritten : List Caller → Wal → List WriteRequest
unwritten callers wal = sealed_of callers ++ queued_or_open wal

-- The first part of flushBatch: Write answers the callers, and if it returned nil, the records of the
-- batch are to be applied in the order of their LSN.
abbrev pub to_apply : Option Error → List WriteRequest → List Log
to_apply none requests = map (λ (r : WriteRequest). r.log) (sort_by lsn_of requests)
to_apply (some e) requests = []

unfoldable pub begin_flush :
    Gob → Os → List WriteRequest → Wal → Outcome (Option Error × List Log × Wal)
begin_flush gob os [] wal = done (none, [], wal)
begin_flush gob os (request ∷ requests) wal =
    Writer.write gob os (request ∷ requests) wal.output >>= λ (e, requests', output).
    done (e, to_apply e requests', record wal { output = output })

-- The batch that a branch of the select of Start flushes, and where the loop is after it: the next one
-- of the channel, the open batch when the ticker fires, and the open batch when the drain meets an
-- empty channel.
pub data Picks : Phase → Wal → List WriteRequest → Wal → Phase → Type 0 where
  queued :
      (phase : Phase) (wal : Wal) (batch : List WriteRequest) (rest : List (List WriteRequest))
      → phase ≢ stopped
      → wal.batches ≡ batch ∷ rest
      → Picks phase wal batch (record wal { batches = rest }) phase
  ticked : (wal : Wal) → Picks running wal (seal_batch wal).0 (seal_batch wal).1 running
  drained :
      (wal : Wal)
      → wal.batches ≡ []
      → Picks draining wal (seal_batch wal).0 (seal_batch wal).1 stopped

-- The next record in the loop of flushBatch; an error is logged, and the loop goes on.
unfoldable pub apply_next : Log → Wal → Wal
apply_next log wal = record wal {
  command_hash_table = or_same (apply log wal.command_hash_table) wal.command_hash_table;
}

-- Another call of push, and what the calls that are under way do: send a sealed batch, which waits
-- while the channel is full, and take the answer out of the future.
pub data CallerStep (gob : Gob) : System → System → Type 0 where
  pushes :
      (s : System) (lsn command_id : ℤ) (arguments : List Text)
      → CallerStep gob s (record s {
        wal = (push gob lsn command_id arguments s.wal).2;
        callers = caller_of (push gob lsn command_id arguments s.wal) ∷ s.callers;
      })
  sends :
      (s : System) (before after : List Caller) (c : Caller) (wal : Wal)
      → s.callers ≡ before ++ (c ∷ after)
      → c.sealed ≢ []
      → send c.sealed s.wal ≡ done wal
      → CallerStep gob s
          (record s { wal = wal; callers = before ++ (record c { sealed = [] } ∷ after) })
  reads :
      (s : System) (before after : List Caller) (c : Caller) (e : Option Error)
      (channels : Channels)
      → s.callers ≡ before ++ (c ∷ after)
      → c.sealed ≡ []
      → Promise.get none (future_response c.request) (channels_of s) ≡ done (e, channels)
      → CallerStep gob s (record s {
        wal = record s.wal { output = record s.wal.output { channels = channels } };
        callers = before ++ after;
        told = (c.request, e) ∷ s.told;
      })

-- What the flusher does, whose context may be cancelled at any time; `os` is what the system answers
-- to the one Write.
pub data FlusherStep (gob : Gob) : System → System → Type 0 where
  flushes :
      (s : System) (os : Os) (batch : List WriteRequest) (wal wal' : Wal) (phase : Phase)
      (e : Option Error) (logs : List Log)
      → s.remaining ≡ []
      → Picks s.phase s.wal batch wal phase
      → begin_flush gob os batch wal ≡ done (e, logs, wal')
      → FlusherStep gob s (record s {
        wal = wal';
        phase = phase;
        remaining = logs;
        finished = record { error = e; requests = batch } ∷ s.finished;
      })
  applies :
      (s : System) (log : Log) (logs : List Log)
      → s.remaining ≡ log ∷ logs
      → FlusherStep gob s (record s { wal = apply_next log s.wal; remaining = logs })
  cancels :
      (s : System)
      → s.remaining ≡ []
      → s.phase ≡ running
      → FlusherStep gob s (record s { phase = draining })

pub data Step (gob : Gob) : System → System → Type 0 where
  caller : {s t : System} → CallerStep gob s t → Step gob s t
  flusher : {s t : System} → FlusherStep gob s t → Step gob s t

-- Start is called on a Wal that nobody has pushed to.
abbrev pub started : Wal → System
started wal = record {
  wal = wal;
  phase = running;
  callers = [];
  remaining = [];
  finished = [];
  told = [];
}

pub data Reach (gob : Gob) (wal : Wal) : System → Type 0 where
  start : Reach gob wal (started wal)
  next : {s t : System} → Reach gob wal s → Step gob s t → Reach gob wal t
