-- ===== src/Service/DelGet.antt =====
-- What a client that sends DEL sees afterwards, through all layers of the program.
use mathlib.Core.Path.{subst}
use in_memory_base.Base.{
  ℕ, ◌+◌, ◌<◌, ◌≡◌, refl, ap, sym, Bool, true, false, ◌&&◌, List, [], ◌∷◌, Option, none, some,
  if◌then◌else◌, arith, Bool-cases, Option-cases, ◌⊎◌, inl, inr,
}
use in_memory_base.Base.Int.{pos, max_int64}
use in_memory_base.Base.Text.{Text, runes, text_eq}
use in_memory_base.Base.Errors.{Error, ok}
use in_memory_base.Compute.Chars.{command_del}
use in_memory_base.Compute.Parse.{parse_and_validate}
use in_memory_base.Concurrency.Promise.{◌>>=◌, done}
use in_memory_base.Database.Handler.{database_handler, handle_del}
use in_memory_base.Database.Answers.{dispatch-del}
use in_memory_base.Engine.Calls
use in_memory_base.Engine.Context.{get_tx_id-with_tx_id}
use in_memory_base.Engine.IdGenerator.{new_id_generator}
use in_memory_base.Filesystem.Disk.{Os}
use in_memory_base.Filesystem.Ready.{IsThere}
use in_memory_base.Filesystem.Append.{HasWritten}
use in_memory_base.Filesystem.Contents.{Extends}
use in_memory_base.HashTable.{HashTable, get-del}
use in_memory_base.Storage.{storage}
use in_memory_base.Storage
use in_memory_base.Wal.Log.{Log, Gob, bytes_of}
use in_memory_base.Wal.Stream.{stream}
use in_memory_base.Wal.Writer.{Output}
use in_memory_base.Wal.Apply.{command_del_id, apply_logged, apply, apply_del}
use in_memory_base.Wal.Batch.{WalConfig}
use in_memory_base.Service.Call.{IsCalled, call-IsCalled}
use in_memory_base.Service.Served.{
  wal_engine, engine_layer, serve, idle, read_at, get_answer, not_zero, fresh_lsn,
}
use in_memory_base.Service.SetGet.{Answers, answers, Answers-nothing_left}

-- A DEL of a fresh LSN.
abbrev pub del_log : ℕ → Text → Log
del_log n key = record { lsn = pos (n + 1); command_id = command_del_id; arguments = key ∷ [] }

-- The answer to DEL, by the error of the call.
abbrev pub del_answer : Option Error → Text
del_answer none = runes "DELETED"
del_answer (some e) = runes "failed DEL"

-- The program answers DEL. The table has then what the flusher had to apply before.
pub record IsDeleted (gob : Gob) (os : Os) (applied : Bool) (upper : ℕ → ℕ) (raw key : Text)
    (config : WalConfig) (n : ℕ) (before : Output) (table : HashTable) (remaining : List Log)
    : Type 0 where
  pub answer : Text
  pub output : Output
  pub remaining' : List Log
  pub result :
      serve gob os applied upper raw (idle config n before table remaining)
      ≡ done (answer, idle config (n + 1) output (apply_logged remaining table) remaining')
  pub either : (answer ≡ runes "DELETED") ⊎ (answer ≡ runes "failed DEL")
  pub acknowledged :
      answer ≡ runes "DELETED"
      → Answers gob upper config
          (n + 1)
          output
          (apply_logged remaining table)
          remaining'
          (λ later k.
            if later && text_eq key k
            then runes "NOT_FOUND"
            else get_answer k (apply_logged remaining table))
  pub refused :
      answer ≡ runes "failed DEL"
      → Answers gob upper config
          (n + 1)
          output
          (apply_logged remaining table)
          remaining'
          (λ later k. get_answer k (apply_logged remaining table))
  pub extends : Extends before.disk output.disk
  pub durable :
      IsThere before.segment.file before.disk
      → answer ≡ runes "DELETED"
      → HasWritten
          (bytes_of gob (stream (del_log n key ∷ [])))
          (stream (del_log n key ∷ []))
          before.segment.max_segment_size
          before.disk
          output.segment
          output.disk

del_answer-ok : (e : Option Error) → del_answer e ≡ runes "DELETED" → e ≡ none
del_answer-ok none h = refl
del_answer-ok (some x) h = cc

del_answer-failed :
    (e : Option Error) → del_answer e ≡ runes "failed DEL" → (x : Error) × (e ≡ some x)
del_answer-failed none h = cc
del_answer-failed (some x) h = (x, refl)

del_answer-either :
    (e : Option Error) → (del_answer e ≡ runes "DELETED") ⊎ (del_answer e ≡ runes "failed DEL")
del_answer-either none = inl refl
del_answer-either (some x) = inr refl

get_answer-del :
    (key k : Text) (n : ℕ) (table : HashTable)
    → get_answer k (apply_logged (del_log n key ∷ []) table)
      ≡ (if text_eq key k then runes "NOT_FOUND" else get_answer k table)
unfolding apply_logged apply apply_del
get_answer-del key k n table = elim (Bool-cases (text_eq key k)) [
  | inl e ↦ rw (get-del key k table, e) refl
  | inr e ↦ rw (get-del key k table, e) refl
]

del_seen :
    (config : WalConfig) (n m : ℕ) (output : Output) (table : HashTable) (key k : Text)
    (later : Bool)
    → get_answer k
        (read_at later
          (idle config n output table (del_log m key ∷ []))).backend.wal.command_hash_table
      ≡ (if later && text_eq key k then runes "NOT_FOUND" else get_answer k table)
del_seen config n m output table key k true = get_answer-del key k m table
del_seen config n m output table key k false = refl

module _ (gob : Gob) (os : Os) (applied : Bool) (upper : ℕ → ℕ) where
  engine_del :
      (key : Text) (config : WalConfig) (n : ℕ) (output : Output) (table : HashTable)
      (remaining : List Log)
      → n < max_int64
      → (c : IsCalled gob os config table remaining (del_log n key) output)
      → Calls.del (wal_engine gob os applied) key (idle config n output table remaining)
        ≡ done (c.error, idle config (n + 1) c.output (apply_logged remaining table) c.remaining')
  unfolding Calls.del
  engine_del key config n output table remaining h c =
      rw (fresh_lsn n h, not_zero n, get_tx_id-with_tx_id (pos (n + 1)) (omega arith))
        (ap
          (λ o. o >>= λ (e, backend).
            done (e, record { current_lsn = new_id_generator (pos (n + 1)); backend = backend }))
          c.result)

  pub serve-del :
      (raw key : Text) (config : WalConfig) (n : ℕ) (output : Output) (table : HashTable)
      (remaining : List Log)
      → parse_and_validate upper raw ≡ ok (command_del ∷ key ∷ [])
      → n < max_int64
      → (c : IsCalled gob os config table remaining (del_log n key) output)
      → serve gob os applied upper raw (idle config n output table remaining)
        ≡ done (
          del_answer c.error,
          idle config (n + 1) c.output (apply_logged remaining table) c.remaining',
        )
  unfolding database_handler
  serve-del raw key config n output table remaining p h c =
      rw
        (
          p,
          dispatch-del (storage (engine_layer gob os applied)) (key ∷ [])
              (idle config n output table remaining),
        )
        (unfold handle_del Storage.del in
          rw (engine_del key config n output table remaining h c)
            (elim (Option-cases c.error) [ inl e ↦ rw e refl | inr (x, e) ↦ rw e refl ]))

  -- With one client, and fewer than MaxInt64 calls so far, DEL is answered with DELETED or with
  -- `failed DEL`, whatever the system answers, whether the key is there, and whatever the flusher has
  -- left to apply. After DELETED the record stands on the disk, if the segment's file was in the
  -- directory, and a GET answers by the writes before it until the flusher has applied the record; from
  -- then on a GET of that key answers NOT_FOUND, and a GET of another key as before. After `failed DEL`
  -- every GET answers by the writes before it. No file has lost anything in either case.
  pub serve-IsDeleted :
      (raw key : Text) (config : WalConfig) (n : ℕ) (output : Output) (table : HashTable)
      (remaining : List Log)
      → parse_and_validate upper raw ≡ ok (command_del ∷ key ∷ [])
      → n < max_int64
      → IsDeleted gob os applied upper raw key config n output table remaining
  serve-IsDeleted raw key config n output table remaining p h =
      let c = call-IsCalled gob os config table remaining (del_log n key) output in
      record {
        answer = del_answer c.error;
        output = c.output;
        remaining' = c.remaining';
        result = serve-del raw key config n output table remaining p h c;
        either = del_answer-either c.error;
        acknowledged = λ a.
            answers gob upper config (n + 1) c.output (apply_logged remaining table) c.remaining' _
              (λ later k.
                subst
                  (λ logs.
                    get_answer k
                      (read_at later (
                        idle config (n + 1) c.output (apply_logged remaining table)
                          logs)).backend.wal.command_hash_table
                    ≡ (if later && text_eq key k
                        then runes "NOT_FOUND"
                        else get_answer k (apply_logged remaining table)))
                  (sym (c.applied (del_answer-ok c.error a)))
                  (del_seen config (n + 1) n c.output (apply_logged remaining table) key k later));
        refused = λ a.
            let (x, e) = del_answer-failed c.error a in
            Answers-nothing_left gob upper config (n + 1) c.output (apply_logged remaining table)
              c.remaining' (c.skipped x e);
        extends = c.extends;
        durable = λ t a. c.durable t (del_answer-ok c.error a);
      }
