-- ===== src/Wal/Log.antt =====
-- wal_log.go, and what it uses of encoding/gob. A stream is a sequence of messages: an encoder
-- sends the definition of the type before the first value, and a decoder keeps the definitions it
-- has read, and fails on one that comes twice, on a value of a type that it does not know, and on
-- bytes that are no message.
use in_memory_base.Base.{
  ℕ, ◌+◌, Bool, true, false, List, [], ◌∷◌, ◌++◌, Option, none, some, if◌then◌else◌,
}
use mathlib.Core.Option
use in_memory_base.Base.Int.{ℤ}
use in_memory_base.Base.Text.{Text}
use in_memory_base.Base.Errors.{Error, io}

pub record Log : Type 0 where
  pub lsn : ℤ
  pub command_id : ℤ
  pub arguments : List Text

pub data Message : Type 0 where
  type_definition : Message
  value : Log → Message
  garbage : Message

-- What the model leaves open of gob: the bytes that a message takes, and whether the encoder
-- takes a record (it refuses a message that is too long).
pub record Gob : Type 0 where
  pub size : Message → ℕ
  pub fits : Log → Bool

-- An encoder: whether it has sent the type, and what it has written to its buffer.
pub record Encoder : Type 0 where
  pub sent : Bool
  pub buffer : List Message

-- gob.NewEncoder on an empty buffer.
abbrev pub new_encoder : Encoder
new_encoder = record { sent = false; buffer = [] }

module _ (gob : Gob) where
  -- The type is sent before the first value, also if the value is then refused.
  unfoldable pub send_type : Encoder → Encoder
  send_type encoder =
      if encoder.sent
      then encoder
      else record { sent = true; buffer = encoder.buffer ++ (type_definition ∷ []) }

  -- Log.EncodeTo: the error, if any, and the encoder after it.
  unfoldable pub encode_to : Log → Encoder → Option Error × Encoder
  unfolding send_type
  encode_to log encoder =
      let ready = send_type encoder in
      if gob.fits log
      then (none, record ready { buffer = ready.buffer ++ (value log ∷ []) })
      else (some io, ready)

  -- Log.Encode: a fresh encoder for one record.
  unfoldable pub encode : Log → Option Error × Encoder
  unfolding encode_to
  encode log = encode_to log new_encoder

  -- `buffer.Len()`
  unfoldable pub bytes_of : List Message → ℕ
  bytes_of [] = 0
  bytes_of (m ∷ ms) = gob.size m + bytes_of ms

-- The loop of Decode calls in Wal.Recovery over one file, with one decoder: `none` is its return
-- of ErrFailedDecode. `known` says whether the decoder has read the type.
unfoldable pub decode_all : Bool → List Message → Option (List Log)
decode_all known [] = some []
decode_all true (type_definition ∷ ms) = none
decode_all false (type_definition ∷ ms) = decode_all true ms
decode_all true (value log ∷ ms) = Option.map (λ logs. log ∷ logs) (decode_all true ms)
decode_all false (value log ∷ ms) = none
decode_all known (garbage ∷ ms) = none
