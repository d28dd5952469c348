-- ===== src/Wal/Early.antt =====
-- When the caller of Wal.push is told (wal.go, wal_writer.go): before the records are applied.
use in_memory_base.Base.{◌≡◌, true, refl, ap, sym, ◌∙◌, List, [], ◌∷◌, Option, none}
use in_memory_base.Base.Errors.{Error}
use in_memory_base.Concurrency.Promise.{done}
use in_memory_base.Concurrency.Promise
use in_memory_base.Filesystem.Disk.{Os}
use in_memory_base.Wal.Log.{Gob}
use in_memory_base.Wal.Request.{Channels, WriteRequest, future_response}
use in_memory_base.Wal.Writer.{Output}
use in_memory_base.Wal.Writer
use in_memory_base.Wal.Batch.{Wal, apply_batch, after_write, flush_batch}
use in_memory_base.Wal.Pending.{IsPending, address}
use in_memory_base.Wal.Answered.{resolve_all-answers}
use in_memory_base.Wal.Output.{write-HasWrittenAll}

pub get-answered :
    (channels : Channels) (r : WriteRequest) (e : Option Error)
    → channels.channels (address r) ≡ record { buffer = e ∷ []; closed = true }
    → (channels' : Channels) × (Promise.get none (future_response r) channels ≡ done (e, channels'))
get-answered channels r e h = unfold Promise.get in rw h (_, refl)

done-same :
    {p q : Option Error × List WriteRequest × Output} → done p ≡ done q → (p.0 ≡ q.0) × (p.2 ≡ q.2)
done-same h = (cc, cc)

module _ (gob : Gob) (os : Os) (r : WriteRequest) (rs : List WriteRequest) (wal : Wal) where
  -- In a flush whose write returns nil, the state between the write and the loop that applies the
  -- records is one in which the caller's future already gives nil, while the hash table is still as
  -- it was before the flush; only the rest of flushBatch applies the batch. So a GET by that caller
  -- may come before its own acknowledged SET.
  pub get-write :
      (requests : List WriteRequest) (after : Output)
      → IsPending (r ∷ rs) wal.output.channels
      → Writer.write gob os (r ∷ rs) wal.output ≡ done (none, requests, after)
      → ((channels : Channels) × (Promise.get none (future_response r) after.channels
            ≡ done (none, channels)))
        × (flush_batch gob os (r ∷ rs) wal
            ≡ done (none, apply_batch requests (record wal { output = after })))
  get-write requests after pending h =
      let all = write-HasWrittenAll gob os (r ∷ rs) wal.output pending in
      let same : (all.error ≡ none) × (all.after ≡ after) = done-same (sym all.result ∙ h) in
      let stands : after.channels.channels (address r)
          ≡ record { buffer = none ∷ []; closed = true } =
        ap (λ (o : Output). o.channels.channels (address r)) (sym same.1)
        ∙ ap (λ (c : Channels). c.channels (address r)) all.output.answered
        ∙ (resolve_all-answers all.error (r ∷ rs) wal.output.channels pending).0
        ∙ ap (λ x. record { buffer = x ∷ []; closed = true }) same.0 in
      (get-answered after.channels r none stands, unfold flush_batch after_write in rw h refl)
