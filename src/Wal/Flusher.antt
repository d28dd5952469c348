-- ===== src/Wal/Flusher.antt =====
-- The flusher goroutine of Wal.Start (wal.go), an event of its select at a time, and its end when
-- the context is cancelled. What the system answers to the n-th flush is `os n`.
use in_memory_base.Base.{ℕ, suc, List, [], ◌∷◌}
use in_memory_base.Concurrency.Promise.{Outcome, ◌>>=◌, done}
use in_memory_base.Filesystem.Disk.{Os}
use in_memory_base.Wal.Log.{Gob}
use in_memory_base.Wal.Request.{WriteRequest}
use in_memory_base.Wal.Batch.{Wal, seal_batch, flush_batch}

-- An error of flushBatch is logged, and the flusher goes on.
unfoldable pub flush_logged : Gob → Os → List WriteRequest → Wal → Outcome Wal
flush_logged gob os batch wal = flush_batch gob os batch wal >>= λ (e, wal'). done wal'

-- `case batch := <-wal.batches`, where the queue is not empty.
unfoldable pub on_batch :
    Gob → Os → List WriteRequest → List (List WriteRequest) → Wal → Outcome Wal
unfolding flush_logged
on_batch gob os batch rest wal = flush_logged gob os batch (record wal { batches = rest })

-- `case <-ticker.C`, and the `default` of the drain.
unfoldable pub on_tick : Gob → Os → Wal → Outcome Wal
unfolding flush_logged seal_batch
on_tick gob os wal = let (batch, wal') = seal_batch wal in flush_logged gob os batch wal'

-- The loop after `<-ctx.Done()`: the queue is emptied, then the open batch is sealed and flushed.
unfoldable pub drain_queue : Gob → (ℕ → Os) → ℕ → List (List WriteRequest) → Wal → Outcome Wal
drain_queue gob os n [] wal = on_tick gob (os n) wal
drain_queue gob os n (batch ∷ rest) wal =
    on_batch gob (os n) batch rest wal >>= λ wal'. drain_queue gob os (suc n) rest wal'

unfoldable pub drain : Gob → (ℕ → Os) → Wal → Outcome Wal
unfolding drain_queue
drain gob os wal = drain_queue gob os 0 wal.batches wal
