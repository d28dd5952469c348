-- ===== src/Service/SetGet.antt =====
-- What a client that sends SET sees afterwards, through all layers of the program.
use mathlib.Core.Logic.{◌⊎◌}
use mathlib.Core.Path.{subst}
use in_memory_base.Base.{
  ℕ, ◌+◌, ◌<◌, ◌≡◌, refl, ap, ◌∙◌, sym, Bool, true, false, ◌&&◌, List, [], ◌∷◌, ◌++◌, Option, none,
  some, if◌then◌else◌, Bool-cases, inl, inr,
}
use in_memory_base.Base.Int.{max_int64}
use in_memory_base.Base.Text.{Text, runes, text_eq}
use in_memory_base.Base.Errors.{Error, ok}
use in_memory_base.Compute.Chars.{command_set, command_get}
use in_memory_base.Compute.Parse.{parse_and_validate}
use in_memory_base.Concurrency.Promise.{done}
use in_memory_base.Filesystem.Disk.{Os}
use in_memory_base.Filesystem.Ready.{IsThere}
use in_memory_base.Filesystem.Append.{HasWritten}
use in_memory_base.Filesystem.Contents.{Extends}
use in_memory_base.HashTable.{HashTable, get-set}
use in_memory_base.Wal.Log.{Log, Gob, bytes_of}
use in_memory_base.Wal.Stream.{stream}
use in_memory_base.Wal.Writer.{Output}
use in_memory_base.Wal.Apply.{apply_logged, apply, apply_set}
use in_memory_base.Wal.Batch.{WalConfig}
use in_memory_base.Service.Call.{call-IsCalled}
use in_memory_base.Service.Served.{
  serve, idle, read_at, get_answer, log_of, set_answer, serve-get, serve-set,
}

-- What the next GET answers, whether the flusher has applied what it had or not: the line is any that
-- ParseAndValidate takes for `GET k`.
abbrev pub Answers :
    Gob → (ℕ → ℕ) → WalConfig → ℕ → Output → HashTable → List Log → (Bool → Text → Text) → Type 0
Answers gob upper config n output table remaining says =
    (os : Os) (applied : Bool) (raw k : Text)
    → parse_and_validate upper raw ≡ ok (command_get ∷ k ∷ [])
    → serve gob os applied upper raw (idle config n output table remaining)
      ≡ done (says applied k, read_at applied (idle config n output table remaining))

-- The program answers SET. The table has then what the flusher had to apply before.
pub record IsServed (gob : Gob) (os : Os) (applied : Bool) (upper : ℕ → ℕ) (raw key value : Text)
    (config : WalConfig) (n : ℕ) (before : Output) (table : HashTable) (remaining : List Log)
    : Type 0 where
  pub answer : Text
  pub output : Output
  pub remaining' : List Log
  pub result :
      serve gob os applied upper raw (idle config n before table remaining)
      ≡ done (answer, idle config (n + 1) output (apply_logged remaining table) remaining')
  pub either : (answer ≡ runes "OK") ⊎ (answer ≡ runes "failed SET")
  pub acknowledged :
      answer ≡ runes "OK"
      → Answers gob upper config
          (n + 1)
          output
          (apply_logged remaining table)
          remaining'
          (λ later k.
            if later && text_eq key k
            then runes "VALUE " ++ value
            else get_answer k (apply_logged remaining table))
  pub refused :
      answer ≡ runes "failed SET"
      → Answers gob upper config
          (n + 1)
          output
          (apply_logged remaining table)
          remaining'
          (λ later k. get_answer k (apply_logged remaining table))
  pub extends : Extends before.disk output.disk
  pub durable :
      IsThere before.segment.file before.disk
      → answer ≡ runes "OK"
      → HasWritten
          (bytes_of gob (stream (log_of n key value ∷ [])))
          (stream (log_of n key value ∷ []))
          before.segment.max_segment_size
          before.disk
          output.segment
          output.disk

set_answer-ok : (e : Option Error) → set_answer e ≡ runes "OK" → e ≡ none
set_answer-ok none h = refl
set_answer-ok (some x) h = cc

set_answer-failed :
    (e : Option Error) → set_answer e ≡ runes "failed SET" → (x : Error) × (e ≡ some x)
set_answer-failed none h = cc
set_answer-failed (some x) h = (x, refl)

set_answer-either :
    (e : Option Error) → (set_answer e ≡ runes "OK") ⊎ (set_answer e ≡ runes "failed SET")
set_answer-either none = inl refl
set_answer-either (some x) = inr refl

get_answer-set :
    (key value k : Text) (n : ℕ) (table : HashTable)
    → get_answer k (apply_logged (log_of n key value ∷ []) table)
      ≡ (if text_eq key k then runes "VALUE " ++ value else get_answer k table)
unfolding apply_logged apply apply_set
get_answer-set key value k n table = elim (Bool-cases (text_eq key k)) [
  | inl e ↦ rw (get-set key k value table, e) refl
  | inr e ↦ rw (get-set key k value table, e) refl
]

pub answers :
    (gob : Gob) (upper : ℕ → ℕ) (config : WalConfig) (n : ℕ) (output : Output) (table : HashTable)
    (remaining : List Log) (says : Bool → Text → Text)
    → ((later : Bool) (k : Text)
        → get_answer k
            (read_at later (idle config n output table remaining)).backend.wal.command_hash_table
          ≡ says later k)
    → Answers gob upper config n output table remaining says
answers gob upper config n output table remaining says h os later raw k p =
    serve-get gob os later upper raw k config n output table remaining p
    ∙ ap (λ t. done (t, read_at later (idle config n output table remaining))) (h later k)

nothing_left :
    (config : WalConfig) (n : ℕ) (output : Output) (table : HashTable) (k : Text) (later : Bool)
    → get_answer k (read_at later (idle config n output table [])).backend.wal.command_hash_table
      ≡ get_answer k table
unfolding apply_logged
nothing_left config n output table k true = refl
nothing_left config n output table k false = refl

-- With nothing left to apply, it does not matter where the flusher is.
pub Answers-nothing_left :
    (gob : Gob) (upper : ℕ → ℕ) (config : WalConfig) (n : ℕ) (output : Output) (table : HashTable)
    (remaining : List Log)
    → remaining ≡ []
    → Answers gob upper config n output table remaining (λ later k. get_answer k table)
Answers-nothing_left gob upper config n output table remaining e =
    answers gob upper config n output table remaining _ (λ later k.
      subst
        (λ logs.
          get_answer k
            (read_at later (idle config n output table logs)).backend.wal.command_hash_table
          ≡ get_answer k table)
        (sym e) (nothing_left config n output table k later))

set_seen :
    (config : WalConfig) (n m : ℕ) (output : Output) (table : HashTable) (key value k : Text)
    (later : Bool)
    → get_answer k
        (read_at later
          (idle config n output table (log_of m key value ∷ []))).backend.wal.command_hash_table
      ≡ (if later && text_eq key k then runes "VALUE " ++ value else get_answer k table)
set_seen config n m output table key value k true = get_answer-set key value k m table
set_seen config n m output table key value k false = refl

module _ (gob : Gob) (os : Os) (applied : Bool) (upper : ℕ → ℕ) where
  -- With one client, and fewer than MaxInt64 calls so far, SET is answered with OK or with
  -- `failed SET`, whatever the system answers and the flusher has left to apply. After OK the record
  -- stands on the disk, if the segment's file was in the directory, and a GET answers by the writes
  -- before it until the flusher has applied the record; from then on a GET of that key answers with
  -- that value, and a GET of another key as before. After `failed SET` every GET answers by the writes
  -- before it. No file has lost anything in either case.
  pub serve-IsServed :
      (raw key value : Text) (config : WalConfig) (n : ℕ) (output : Output) (table : HashTable)
      (remaining : List Log)
      → parse_and_validate upper raw ≡ ok (command_set ∷ key ∷ value ∷ [])
      → n < max_int64
      → IsServed gob os applied upper raw key value config n output table remaining
  serve-IsServed raw key value config n output table remaining p h =
      let c = call-IsCalled gob os config table remaining (log_of n key value) output in
      record {
        answer = set_answer c.error;
        output = c.output;
        remaining' = c.remaining';
        result = serve-set gob os applied upper raw key value config n output table remaining p h c;
        either = set_answer-either c.error;
        acknowledged = λ a.
            answers gob upper config (n + 1) c.output (apply_logged remaining table) c.remaining' _
              (λ later k.
                subst
                  (λ logs.
                    get_answer k
                      (read_at later (
                        idle config (n + 1) c.output (apply_logged remaining table)
                          logs)).backend.wal.command_hash_table
                    ≡ (if later && text_eq key k
                        then runes "VALUE " ++ value
                        else get_answer k (apply_logged remaining table)))
                  (sym (c.applied (set_answer-ok c.error a)))
                  (set_seen config (n + 1) n c.output (apply_logged remaining table) key value k
                    later));
        refused = λ a.
            let (x, e) = set_answer-failed c.error a in
            Answers-nothing_left gob upper config (n + 1) c.output (apply_logged remaining table)
              c.remaining' (c.skipped x e);
        extends = c.extends;
        durable = λ t a. c.durable t (set_answer-ok c.error a);
      }
