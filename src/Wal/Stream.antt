-- ===== src/Wal/Stream.antt =====
-- Streams of records (wal_log.go): what is encoded is decoded, and what two encoders wrote to one
-- file is not.
use in_memory_base.Base.Errors.{io}
use in_memory_base.Base.{
  Bool-cases, inl, inr, ◌≡◌, refl, true, false, List, [], ◌∷◌, ◌++◌, map, none, some, append_assoc,
  append-nil, All,
}
use in_memory_base.Wal.Log.{
  Log, Message, type_definition, value, Gob, Encoder, new_encoder, encode_to, decode_all,
}
use in_memory_base.Wal.Request.{WriteRequest}
use in_memory_base.Wal.Writer.{encode_requests}

abbrev pub logs_of : List WriteRequest → List Log
logs_of = map (λ (r : WriteRequest). r.log)

abbrev pub values : List Log → List Message
values = map value

-- The stream that one encoder makes of some records.
abbrev pub stream : List Log → List Message
stream [] = []
stream (log ∷ logs) = type_definition ∷ values (log ∷ logs)

abbrev pub Fits : Gob → List Log → Type 0
Fits gob = All (λ log. gob.fits log ≡ true)

encode_to-sent :
    (gob : Gob) (log : Log) (buffer : List Message)
    → gob.fits log ≡ true
    → encode_to gob log (record { sent = true; buffer = buffer })
      ≡ (none, record { sent = true; buffer = buffer ++ (value log ∷ []) })
unfolding encode_to
encode_to-sent gob log buffer h = rw h

encode_to-first :
    (gob : Gob) (log : Log)
    → gob.fits log ≡ true
    → encode_to gob log new_encoder
      ≡ (none, record { sent = true; buffer = type_definition ∷ value log ∷ [] })
unfolding encode_to
encode_to-first gob log h = rw h

encode_requests-sent :
    (gob : Gob) (requests : List WriteRequest) (buffer : List Message)
    → Fits gob (logs_of requests)
    → encode_requests gob requests (record { sent = true; buffer = buffer })
      ≡ (none, record { sent = true; buffer = buffer ++ values (logs_of requests) })
unfolding encode_requests
encode_requests-sent gob [] buffer h = rw append-nil
encode_requests-sent gob (r ∷ requests) buffer h = rw (
  encode_to-sent gob r.log buffer h.0,
  encode_requests-sent gob requests (buffer ++ (value r.log ∷ [])) h.1,
  append_assoc,
)

-- What WalWriter.Write hands to the segment, where gob takes every record.
pub encode_requests-stream :
    (gob : Gob) (requests : List WriteRequest)
    → Fits gob (logs_of requests)
    → ((encode_requests gob requests new_encoder).0 ≡ none)
      × ((encode_requests gob requests new_encoder).1.buffer ≡ stream (logs_of requests))
unfolding encode_requests
encode_requests-stream gob [] h = (refl, refl)
encode_requests-stream gob (r ∷ requests) h =
    rw
      (
        encode_to-first gob r.log h.0,
        encode_requests-sent gob requests (type_definition ∷ value r.log ∷ []) h.1,
      )
      (refl, refl)

encode_to-refused :
    (gob : Gob) (log : Log) (encoder : Encoder)
    → gob.fits log ≡ false
    → (encode_to gob log encoder).0 ≡ some io
unfolding encode_to
encode_to-refused gob log encoder h = rw h

encode_to-accepted :
    (gob : Gob) (log : Log) (encoder : Encoder)
    → gob.fits log ≡ true
    → (encode_to gob log encoder).0 ≡ none
unfolding encode_to
encode_to-accepted gob log encoder h = rw h

-- Where the loop meets no error, gob takes every record.
pub encode_requests-Fits :
    (gob : Gob) (requests : List WriteRequest) (encoder : Encoder)
    → (encode_requests gob requests encoder).0 ≡ none
    → Fits gob (logs_of requests)
unfolding encode_requests
encode_requests-Fits gob [] encoder h = tt
encode_requests-Fits gob (r ∷ requests) encoder h = elim (Bool-cases (gob.fits r.log)) [
  | inl e ↦ (
    e,
    encode_requests-Fits gob requests (encode_to gob r.log encoder).1
        (rw (encode_to-accepted gob r.log encoder e) at h),
  )
  | inr e ↦ cc (rw (encode_to-refused gob r.log encoder e) at h)
]

decode_all-values : (logs : List Log) → decode_all true (values logs) ≡ some logs
unfolding decode_all
decode_all-values [] = refl
decode_all-values (log ∷ logs) = rw (decode_all-values logs)

-- The records of one stream are read back, in their order.
pub decode_all-stream : (logs : List Log) → decode_all false (stream logs) ≡ some logs
unfolding decode_all
decode_all-stream [] = refl
decode_all-stream (log ∷ logs) = decode_all-values (log ∷ logs)

-- What the encoder of one WalWriter.Write puts into its buffer, the decoder of Recovery reads back:
-- where no record is refused, all records, in the order of the requests.
pub decode_all-encode_requests :
    (gob : Gob) (requests : List WriteRequest)
    → (encode_requests gob requests new_encoder).0 ≡ none
    → decode_all false (encode_requests gob requests new_encoder).1.buffer ≡ some (logs_of requests)
decode_all-encode_requests gob requests h =
    let fits = encode_requests-Fits gob requests new_encoder h in
    rw (encode_requests-stream gob requests fits).1 (decode_all-stream (logs_of requests))

decode_all-again :
    (logs : List Log) (rest : List Message)
    → decode_all true (values logs ++ (type_definition ∷ rest)) ≡ none
unfolding decode_all
decode_all-again [] rest = refl
decode_all-again (log ∷ logs) rest = rw (decode_all-again logs rest)

-- A file with a second stream in it is not read.
pub decode_all-two_streams :
    (first second : Log) (logs more : List Log) (rest : List Message)
    → decode_all false (stream (first ∷ logs) ++ (stream (second ∷ more) ++ rest)) ≡ none
unfolding decode_all
decode_all-two_streams first second logs more rest = rw (decode_all-again logs _)
