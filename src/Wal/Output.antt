-- ===== src/Wal/Output.antt =====
-- WalWriter.Write (wal_writer.go): what it has done, on every branch.
use mathlib.Core.Path.{subst}
use in_memory_base.Base.{ap, ◌≡◌, refl, List, map, Option, none, some, Option-cases, inl, inr}
use in_memory_base.Base.Errors.{Error, Result, ok, err}
use in_memory_base.Concurrency.Promise.{done}
use in_memory_base.Filesystem.Disk.{Disk, Os}
use in_memory_base.Filesystem.Segment.{Segment}
use in_memory_base.Filesystem.Segment
use in_memory_base.Filesystem.Contents.{Extends, Extends-refl}
use in_memory_base.Filesystem.Write.{write-Extends}
use in_memory_base.Filesystem.Ready.{IsThere}
use in_memory_base.Filesystem.Append.{HasWritten, write-HasWritten}
use in_memory_base.Filesystem.There.{write-IsThere}
use in_memory_base.Wal.Log.{Message, Gob, Encoder, new_encoder, bytes_of}
use in_memory_base.Wal.Stream.{logs_of, stream, encode_requests-Fits, encode_requests-stream}
use in_memory_base.Wal.Request.{WriteRequest}
use in_memory_base.Wal.Writer.{
  Output, encode_requests, notification, error_of, answer, after_encoding,
}
use in_memory_base.Wal.Writer
use in_memory_base.Wal.Pending.{IsPending, mark, resolve_all, notification-IsPending}

-- The disk after is that of a Segment.Write that returned nil.
pub record IsWriteOf (gob : Gob) (data_in : List Message) (before after : Output) : Type 0 where
  pub os : Os
  pub success : (Segment.write gob os data_in before.segment before.disk).0 ≡ ok tt
  pub same : after.disk ≡ (Segment.write gob os data_in before.segment before.disk).2

-- What WalWriter.Write leaves, where it returns `e` for some pending requests: each of them is
-- answered with `e`, no file loses anything, and if `e` is nil, their records stand, as one
-- stream, at the end of the segment's file.
pub record HasOutput (gob : Gob) (requests : List WriteRequest) (e : Option Error)
    (before after : Output) : Type 0 where
  pub answered : after.channels ≡ resolve_all e requests before.channels
  pub extends : Extends before.disk after.disk
  pub there : IsThere before.segment.file before.disk → IsThere after.segment.file after.disk
  pub durable :
      IsThere before.segment.file before.disk
      → e ≡ none
      → HasWritten
          (bytes_of gob (stream (logs_of requests)))
          (stream (logs_of requests))
          before.segment.max_segment_size
          before.disk
          after.segment
          after.disk
  pub written : e ≡ none → IsWriteOf gob (stream (logs_of requests)) before after

-- The result of Write.
pub record HasWrittenAll (gob : Gob) (os : Os) (requests : List WriteRequest) (before : Output)
    : Type 0 where
  pub error : Option Error
  pub after : Output
  pub result : Writer.write gob os requests before ≡ done (error, map mark requests, after)
  pub output : HasOutput gob requests error before after

error_of-none : (r : Result (Unit {0})) → error_of r ≡ none → r ≡ ok tt
error_of-none (ok _) h = refl
error_of-none (err e) h = cc

answer-IsPending :
    (e : Option Error) (requests : List WriteRequest) (out : Output)
    → IsPending requests out.channels
    → answer e requests out
      ≡ done (e, map mark requests, record out { channels = resolve_all e requests out.channels })
unfolding answer
answer-IsPending e requests out h = rw (notification-IsPending e requests out.channels h)

module _ (gob : Gob) (os : Os) (requests : List WriteRequest) (out : Output)
    (pending : IsPending requests out.channels) where
  abbrev encoded : Option Error × Encoder
  encoded = encode_requests gob requests new_encoder

  write_refused : (x : Error) → encoded.0 ≡ some x → HasWrittenAll gob os requests out
  unfolding Writer.write
  write_refused x e = record {
    error = some x;
    after = record out { channels = resolve_all (some x) requests out.channels };
    result = rw (e, after_encoding) (answer-IsPending (some x) requests out pending);
    output = record {
      answered = refl;
      extends = Extends-refl out.disk;
      there = λ h. h;
      durable = λ h n. cc;
      written = λ n. cc;
    };
  }

  module _ (ready : encoded.0 ≡ none) where
    -- What Segment.Write answers, and leaves.
    abbrev stored : Result (Unit {0}) × Segment × Disk
    stored = Segment.write gob os encoded.1.buffer out.segment out.disk

    buffer-stream : encoded.1.buffer ≡ stream (logs_of requests)
    buffer-stream =
        (encode_requests-stream gob requests
          (encode_requests-Fits gob requests new_encoder ready)).1

    write_stored : HasWrittenAll gob os requests out
    unfolding Writer.write
    write_stored = record {
      error = error_of stored.0;
      after = record {
        segment = stored.1;
        disk = stored.2;
        channels = resolve_all (error_of stored.0) requests out.channels;
      };
      result = rw (ready, after_encoding) (answer-IsPending (error_of stored.0) requests _ pending);
      output = record {
        answered = refl;
        extends = write-Extends gob os encoded.1.buffer out.segment out.disk;
        there = write-IsThere gob os encoded.1.buffer out.segment out.disk;
        durable = λ h n.
            subst
              (λ (data_in : List Message).
                HasWritten (bytes_of gob data_in) data_in out.segment.max_segment_size out.disk
                  stored.1 stored.2)
              buffer-stream
              (write-HasWritten gob os encoded.1.buffer out.segment out.disk h
                (error_of-none stored.0 n));
        written = λ n. record {
          os = os;
          success =
              subst (λ data_in. (Segment.write gob os data_in out.segment out.disk).0 ≡ ok tt)
                buffer-stream (error_of-none stored.0 n);
          same =
              ap (λ data_in. (Segment.write gob os data_in out.segment out.disk).2) buffer-stream;
        };
      };
    }

  -- WalWriter.Write of pending requests returns, and leaves what HasOutput says.
  pub write-HasWrittenAll : HasWrittenAll gob os requests out
  write-HasWrittenAll = elim (Option-cases encoded.0) [
    | inl ready ↦ write_stored ready
    | inr (x, e) ↦ write_refused x e
  ]
