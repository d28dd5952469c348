-- ===== src/Wal/System/Flushing.antt =====
-- What the writing of one batch has done (Wal.flushBatch of wal.go, up to its loop).
use mathlib.Core.Path.{subst}
use in_memory_base.Base.{
  ◌≡◌, refl, sym, ap, ◌∙◌, List, [], ◌∷◌, ◌++◌, map, Option, none, some, append-nil,
}
use in_memory_base.Base.Text.{Text, text_eq_refl}
use in_memory_base.Base.Sort.{sort_by}
use in_memory_base.Base.Errors.{Error}
use in_memory_base.Concurrency.Promise.{Outcome, ◌>>=◌, done, blocked, panics}
use in_memory_base.Filesystem.Disk.{Disk, Os}
use in_memory_base.Filesystem.Contents.{contents, Extends, Extends-refl}
use in_memory_base.Filesystem.Ready.{IsThere}
use in_memory_base.Filesystem.Append.{HasWritten}
use in_memory_base.Wal.Log.{Log, Message, Gob}
use in_memory_base.Wal.Stream.{logs_of, stream}
use in_memory_base.Wal.Request.{WriteRequest}
use in_memory_base.Wal.Writer.{Output}
use in_memory_base.Wal.Writer
use in_memory_base.Wal.Apply.{apply_logged}
use in_memory_base.Wal.Batch.{Wal, flush_batch, after_write, apply_batch}
use in_memory_base.Wal.Recovery.{by_lsn}
use in_memory_base.Wal.Pending.{IsPending, mark, resolve_all}
use in_memory_base.Wal.Output.{write-HasWrittenAll}
use in_memory_base.Wal.Flush.{logs_sorted}
use in_memory_base.Wal.System.{to_apply, begin_flush}

-- The messages stand together in some file.
pub record Stands (messages : List Message) (disk : Disk) : Type 0 where
  pub path : Text
  pub before : List Message
  pub after : List Message
  pub holds : contents path disk ≡ before ++ (messages ++ after)

-- The records of a batch in the order in which they are applied; none of a batch whose Write failed.
abbrev pub applied_logs : Option Error → List WriteRequest → List Log
applied_logs none requests = sort_by by_lsn (logs_of requests)
applied_logs (some e) requests = []

pub record IsBegun (batch : List WriteRequest) (wal : Wal) (e : Option Error) (logs : List Log)
    (wal' : Wal) : Type 0 where
  pub answered : wal'.output.channels ≡ resolve_all e batch wal.output.channels
  pub extends : Extends wal.output.disk wal'.output.disk
  pub there :
      IsThere wal.output.segment.file wal.output.disk
      → IsThere wal'.output.segment.file wal'.output.disk
  pub stands :
      IsThere wal.output.segment.file wal.output.disk
      → e ≡ none
      → Stands (stream (logs_of batch)) wal'.output.disk
  pub records : logs ≡ applied_logs e batch
  pub same : wal' ≡ record wal { output = wal'.output }

-- A beginning of a flush that returned.
pub record Begun (gob : Gob) (os : Os) (batch : List WriteRequest) (wal : Wal) : Type 0 where
  pub error : Option Error
  pub logs : List Log
  pub after : Wal
  pub result : begin_flush gob os batch wal ≡ done (error, logs, after)
  pub begun : IsBegun batch wal error logs after

to_apply-applied_logs :
    (e : Option Error) (requests : List WriteRequest)
    → to_apply e (map mark requests) ≡ applied_logs e requests
to_apply-applied_logs none requests = logs_sorted requests
to_apply-applied_logs (some e) requests = refl

HasWritten-Stands :
    {len : _} {limit : _} {segment : _} {messages : List Message} {before after : Disk}
    → HasWritten len messages limit before segment after
    → Stands messages after
HasWritten-Stands {messages = messages} {before} w = record {
  path = w.file.path;
  before = contents w.file.path before;
  after = [];
  holds = rw (w.holds w.file.path, text_eq_refl w.file.path, append-nil messages) refl;
}

-- Where the callers of a batch wait, its Write returns, whatever the system answers, and leaves what
-- IsBegun says.
pub begin_flush-Begun :
    (gob : Gob) (os : Os) (batch : List WriteRequest) (wal : Wal)
    → IsPending batch wal.output.channels
    → Begun gob os batch wal
unfolding begin_flush sort_by
begin_flush-Begun gob os [] wal h = record {
  error = none;
  logs = [];
  after = wal;
  result = refl;
  begun = record {
    answered = refl;
    extends = Extends-refl wal.output.disk;
    there = λ t. t;
    stands = λ t e. record {
      path = [];
      before = contents [] wal.output.disk;
      after = [];
      holds = sym (append-nil (contents [] wal.output.disk));
    };
    records = refl;
    same = refl;
  };
}
begin_flush-Begun gob os (r ∷ rs) wal h =
    let w = write-HasWrittenAll gob os (r ∷ rs) wal.output h in
    record {
      error = w.error;
      logs = to_apply w.error (map mark (r ∷ rs));
      after = record wal { output = w.after };
      result = rw w.result;
      begun = record {
        answered = w.output.answered;
        extends = w.output.extends;
        there = w.output.there;
        stands = λ t e. HasWritten-Stands (w.output.durable t e);
        records = to_apply-applied_logs w.error (r ∷ rs);
        same = refl;
      };
    }

same_result :
    {x y : Option Error × List Log × Wal}
    → done x ≡ done y
    → (x.0 ≡ y.0) × (x.1 ≡ y.1) × (x.2 ≡ y.2)
same_result h = (cc, cc, cc)

pub begin_flush-IsBegun :
    (gob : Gob) (os : Os) (batch : List WriteRequest) (wal : Wal) (e : Option Error)
    (logs : List Log) (wal' : Wal)
    → IsPending batch wal.output.channels
    → begin_flush gob os batch wal ≡ done (e, logs, wal')
    → IsBegun batch wal e logs wal'
begin_flush-IsBegun gob os batch wal e logs wal' h r =
    let b = begin_flush-Begun gob os batch wal h in
    let (p, q, s) = same_result (sym b.result ∙ r) in
    subst (λ x. IsBegun batch wal x logs wal') p
      (subst (λ x. IsBegun batch wal b.error x wal') q
        (subst (λ x. IsBegun batch wal b.error b.logs x) s b.begun))

-- The loop over all the records that are left.
abbrev pub finish : Option Error × List Log × Wal → Option Error × Wal
finish (e, logs, wal) =
    (e, record wal { command_hash_table = apply_logged logs wal.command_hash_table })

apply_all :
    (e : Option Error) (requests : List WriteRequest) (wal : Wal)
    → after_write e requests wal ≡ finish (e, to_apply e requests, wal)
unfolding after_write apply_batch apply_logged
apply_all none requests wal = refl
apply_all (some e) requests wal = refl

after_both :
    (wal : Wal) (o : Outcome (Option Error × List WriteRequest × Output))
    → (o >>= λ (e, requests, output).
        done (after_write e requests (record wal { output = output })))
      ≡ (o
          >>= (λ (e, requests, output).
              done (e, to_apply e requests, record wal { output = output }))
          >>= λ x. done (finish x))
after_both wal (done (e, requests, output)) =
    ap done (apply_all e requests (record wal { output = output }))
after_both wal blocked = refl
after_both wal panics = refl

-- A flush of flushBatch is the steps of the flusher one after the other: the Write, and then the
-- application of all the records that it left to apply.
pub flush_batch-begin_flush :
    (gob : Gob) (os : Os) (batch : List WriteRequest) (wal : Wal)
    → flush_batch gob os batch wal ≡ (begin_flush gob os batch wal >>= λ x. done (finish x))
unfolding flush_batch begin_flush apply_logged
flush_batch-begin_flush gob os [] wal = refl
flush_batch-begin_flush gob os (r ∷ rs) wal =
    after_both wal (Writer.write gob os (r ∷ rs) wal.output)
