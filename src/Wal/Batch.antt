-- ===== src/Wal/Batch.antt =====
-- wal.go: the batch that producers fill, and the flush. The mutex makes each critical section
-- one step; the channel of sealed batches is a queue with room for five.
use in_memory_base.Base.{
  ℕ, ◌+◌, Bool, ◌||◌, List, [], ◌∷◌, ◌++◌, map, Option, none, some, ltb, if◌then◌else◌, length,
}
use in_memory_base.Base.Int.{ℤ, pos, leb_ℤ}
use in_memory_base.Base.Text.{Text}
use in_memory_base.Base.Sort.{sort_by}
use in_memory_base.Base.Errors.{Error}
use in_memory_base.Concurrency.Promise.{Outcome, ◌>>=◌, done, blocked}
use in_memory_base.Filesystem.Disk.{Os}
use in_memory_base.HashTable.{HashTable}
use in_memory_base.Wal.Log.{Log, Gob, encode, bytes_of}
use in_memory_base.Wal.Request.{WriteRequest, new_write_request}
use in_memory_base.Wal.Writer.{Output}
use in_memory_base.Wal.Writer
use in_memory_base.Wal.Apply.{apply_logged}

abbrev Requests : Type 0
Requests = List WriteRequest

-- `walConfig`, as far as the code reads it.
pub record WalConfig : Type 0 where
  pub flushing_batch_count : ℤ
  pub flushing_batch_volume : ℤ

pub record Wal : Type 0 where
  pub config : WalConfig
  pub output : Output
  pub batch : List WriteRequest
  pub batches : List (List WriteRequest)
  pub active_batch_volume : ℕ
  pub command_hash_table : HashTable

-- `make(chan []WriteRequest, 5)`
abbrev pub batches_capacity : ℕ
batches_capacity = 5

-- NewWal
abbrev pub new_wal : WalConfig → Output → HashTable → Wal
new_wal config output table = record {
  config = config;
  output = output;
  batch = [];
  batches = [];
  active_batch_volume = 0;
  command_hash_table = table;
}

abbrev pub lsn_of : WriteRequest → ℤ
lsn_of request = request.log.lsn

-- Wal.SealBatch
unfoldable pub seal_batch : Wal → List WriteRequest × Wal
seal_batch wal = (wal.batch, record wal { batch = []; active_batch_volume = 0 })

-- The two thresholds of push.
abbrev pub is_full : Wal → Bool
is_full wal =
    leb_ℤ wal.config.flushing_batch_count (pos (length wal.batch))
    || leb_ℤ wal.config.flushing_batch_volume (pos wal.active_batch_volume)

unfoldable pub seal_if : Bool → Wal → List WriteRequest × Wal
unfolding seal_batch
seal_if b wal = if b then seal_batch wal else ([], wal)

-- The first part of push: the request joins the batch, and the bytes of its record, encoded on
-- its own, count towards the volume.
unfoldable pub add_request : Gob → ℤ → ℤ → List Text → Wal → WriteRequest × Wal
add_request gob lsn command_id arguments wal =
    let (request, channels) = new_write_request lsn command_id arguments wal.output.channels in
    let element : Log = record { lsn = lsn; command_id = command_id; arguments = arguments } in
    (
      request,
      record wal {
        output = record wal.output { channels = channels };
        batch = wal.batch ++ (request ∷ []);
        active_batch_volume = wal.active_batch_volume + bytes_of gob (encode gob element).1.buffer;
      },
    )

-- Wal.push up to the end of its critical section: the request, and the batch that it sealed, which
-- is empty if it sealed none.
unfoldable pub push : Gob → ℤ → ℤ → List Text → Wal → WriteRequest × List WriteRequest × Wal
unfolding add_request seal_if
push gob lsn command_id arguments wal =
    let (request, wal') = add_request gob lsn command_id arguments wal in
    let (sealed, wal'') = seal_if (is_full wal') wal' in (request, sealed, wal'')

-- `wal.batches <- sealedBatch`, which waits while the queue is full. An empty batch is not sent.
unfoldable pub send : List WriteRequest → Wal → Outcome Wal
send [] wal = done wal
send (request ∷ requests) wal =
    if ltb (length wal.batches) batches_capacity
    then done (record wal { batches = wal.batches ++ ((request ∷ requests) ∷ []) })
    else blocked

-- The end of flushBatch: the records are applied in the order of their LSN.
unfoldable pub apply_batch : List WriteRequest → Wal → Wal
apply_batch requests wal = record wal {
  command_hash_table =
      apply_logged (map (λ (r : WriteRequest). r.log) (sort_by lsn_of requests))
        wal.command_hash_table;
}

unfoldable pub after_write : Option Error → List WriteRequest → Wal → Option Error × Wal
after_write (some e) requests wal = (some e, wal)
after_write none requests wal = (none, apply_batch requests wal)

-- Wal.flushBatch
unfoldable pub flush_batch : Gob → Os → List WriteRequest → Wal → Outcome (Option Error × Wal)
unfolding after_write apply_batch
flush_batch gob os [] wal = done (none, wal)
flush_batch gob os (request ∷ requests) wal =
    Writer.write gob os (request ∷ requests) wal.output >>= λ (e, requests', output).
    done (after_write e requests' (record wal { output = output }))
