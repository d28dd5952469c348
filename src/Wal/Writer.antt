-- ===== src/Wal/Writer.antt =====
-- wal_writer.go
use in_memory_base.Base.{List, [], ◌∷◌, Option, none, some}
use in_memory_base.Base.Errors.{Error, Result, ok, err}
use in_memory_base.Concurrency.Promise.{Outcome, ◌>>=◌, done}
use in_memory_base.Filesystem.Disk.{Disk, Os}
use in_memory_base.Filesystem.Segment.{Segment}
use in_memory_base.Filesystem.Segment
use in_memory_base.Wal.Log.{Gob, Encoder, new_encoder, encode_to}
use in_memory_base.Wal.Request.{Channels, WriteRequest, set_response}

-- What a WalWriter acts on: its segment, the directory, and the channels of the promises.
pub record Output : Type 0 where
  pub segment : Segment
  pub disk : Disk
  pub channels : Channels

abbrev pub or_else {ℓ} : {A : Type ℓ} → Option Error → A → A → A
or_else none failed rest = rest
or_else (some e) failed rest = failed

-- The first loop of Write: it ends at the first record that the encoder refuses.
unfoldable pub encode_requests : Gob → List WriteRequest → Encoder → Option Error × Encoder
encode_requests gob [] encoder = (none, encoder)
encode_requests gob (request ∷ requests) encoder =
    let (e, encoder') = encode_to gob request.log encoder in
    let rest = encode_requests gob requests encoder' in or_else e (e, encoder') rest

-- WalWriter.notification
unfoldable pub notification :
    Option Error → List WriteRequest → Channels → Outcome (List WriteRequest × Channels)
notification response [] channels = done ([], channels)
notification response (request ∷ requests) channels =
    set_response response request channels >>= λ (request', channels').
    notification response requests channels' >>= λ (requests', channels'').
    done (request' ∷ requests', channels'')

-- `err` as it is handed on: nil, or the error.
abbrev pub error_of : Result (Unit {0}) → Option Error
error_of (ok _) = none
error_of (err e) = some e

-- Every request is answered with `response`, and Write returns it.
unfoldable pub answer :
    Option Error → List WriteRequest → Output → Outcome (Option Error × List WriteRequest × Output)
answer response requests out =
    notification response requests out.channels >>= λ (requests', channels).
    done (response, requests', record out { channels = channels })

unfoldable pub after_encoding :
    Gob
    → Os
    → Option Error × Encoder
    → List WriteRequest
    → Output
    → Outcome (Option Error × List WriteRequest × Output)
after_encoding gob os (some e, encoder) requests out = answer (some e) requests out
after_encoding gob os (none, encoder) requests out =
    let (r, segment, disk) = Segment.write gob os encoder.buffer out.segment out.disk in
    answer (error_of r) requests (record out { segment = segment; disk = disk })

-- WalWriter.Write
unfoldable pub write :
    Gob → Os → List WriteRequest → Output → Outcome (Option Error × List WriteRequest × Output)
unfolding after_encoding answer
write gob os requests out =
    after_encoding gob os (encode_requests gob requests new_encoder) requests out
