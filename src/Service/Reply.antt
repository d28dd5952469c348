-- ===== src/Service/Reply.antt =====
-- One line through the program, against the specification: whatever the line is.
use mathlib.Core.Path.{subst}
use in_memory_base.Base.{
  ℕ, ◌+◌, ◌<◌, ◌≤◌, ◌≡◌, refl, sym, Bool, true, false, List, [], ◌∷◌, ◌++◌, Option, none, some,
  arith, Option-cases, inl, inr,
}
use in_memory_base.Base.Int.{max_int64}
use in_memory_base.Base.Text.{Text, runes}
use in_memory_base.Base.Errors.{Error, Result, ok}
use in_memory_base.Compute.Chars.{command_set, command_get, command_del}
use in_memory_base.Compute.Parse.{parse_and_validate}
use in_memory_base.Concurrency.Promise.{done}
use in_memory_base.Database.Handler.{database_handler, dispatch}
use in_memory_base.Engine.Calls.{Engine}
use in_memory_base.Filesystem.Disk.{Os}
use in_memory_base.Filesystem.Contents.{Extends, Extends-refl}
use in_memory_base.HashTable.{HashTable}
use in_memory_base.HashTable
use in_memory_base.Storage.{storage}
use in_memory_base.Wal.Log.{Log, Gob}
use in_memory_base.Wal.Writer.{Output}
use in_memory_base.Wal.Apply.{apply_logged, apply, apply_set, apply_del}
use in_memory_base.Wal.Batch.{WalConfig}
use in_memory_base.Service.Call.{Running, call-IsCalled}
use in_memory_base.Service.Served.{
  serve, idle, engine_layer, log_of, serve-set, serve-get, get_answer, set_answer,
}
use in_memory_base.Service.DelGet.{del_log, serve-del, del_answer}
use in_memory_base.Service.Spec.{
  Replies, View, catches_up, set_done, set_failed, del_done, del_failed, get_found, get_missing,
  wrong_set, wrong_get, wrong_del, unknown, not_parsed, Store, Line, sets, gets, dels, sets_wrongly,
  gets_wrongly, dels_wrongly, asks_else, fails,
}
use in_memory_base.Service.Refused.{Says-set, Says-get, Says-del, Says-other, Says-failed}

-- What a reader sees, and what it will see once the flusher is through with its loop.
abbrev pub view_of : HashTable → List Log → View
view_of table remaining = record {
  seen = table.entries;
  latest = (apply_logged remaining table).entries;
}

-- The program answers one line as the specification says, and waits for the next.
pub record IsAnswered (gob : Gob) (os : Os) (applied : Bool) (upper : ℕ → ℕ) (raw : Text)
    (parsed : Result (List Text)) (config : WalConfig) (n : ℕ) (before : Output) (table : HashTable)
    (remaining : List Log) : Type 0 where
  pub answer : Text
  pub m : ℕ
  pub output : Output
  pub table' : HashTable
  pub remaining' : List Log
  pub result :
      serve gob os applied upper raw (idle config n before table remaining)
      ≡ done (answer, idle config m output table' remaining')
  pub counted : m ≤ n + 1
  pub replies : Replies parsed (view_of table remaining) answer (view_of table' remaining')
  pub extends : Extends before.disk output.disk

get_answer-some :
    (key value : Text) (table : HashTable)
    → table.entries key ≡ some value
    → get_answer key table ≡ runes "VALUE " ++ value
unfolding HashTable.get
get_answer-some key value table e = rw e refl

get_answer-none :
    (key : Text) (table : HashTable)
    → table.entries key ≡ none
    → get_answer key table ≡ runes "NOT_FOUND"
unfolding HashTable.get
get_answer-none key table e = rw e refl

set-Replies :
    (n : ℕ) (key value : Text) (table : HashTable) (remaining remaining' : List Log)
    (e : Option Error)
    → (e ≡ none → remaining' ≡ log_of n key value ∷ [])
    → ((x : Error) → e ≡ some x → remaining' ≡ [])
    → Replies
        (ok (command_set ∷ key ∷ value ∷ []))
        (view_of table remaining)
        (set_answer e)
        (view_of (apply_logged remaining table) remaining')
unfolding apply_logged apply apply_set HashTable.set
set-Replies n key value table remaining remaining' none applied skipped =
    subst
      (λ logs.
        Replies (ok (command_set ∷ key ∷ value ∷ [])) (view_of table remaining) (runes "OK")
          (view_of (apply_logged remaining table) logs))
      (sym (applied refl)) (set_done key value (view_of table remaining))
set-Replies n key value table remaining remaining' (some x) applied skipped =
    subst
      (λ logs.
        Replies (ok (command_set ∷ key ∷ value ∷ [])) (view_of table remaining) (runes "failed SET")
          (view_of (apply_logged remaining table) logs))
      (sym (skipped x refl)) (set_failed key value (view_of table remaining))

del-Replies :
    (n : ℕ) (key : Text) (table : HashTable) (remaining remaining' : List Log) (e : Option Error)
    → (e ≡ none → remaining' ≡ del_log n key ∷ [])
    → ((x : Error) → e ≡ some x → remaining' ≡ [])
    → Replies
        (ok (command_del ∷ key ∷ []))
        (view_of table remaining)
        (del_answer e)
        (view_of (apply_logged remaining table) remaining')
unfolding apply_logged apply apply_del HashTable.del
del-Replies n key table remaining remaining' none applied skipped =
    subst
      (λ logs.
        Replies (ok (command_del ∷ key ∷ [])) (view_of table remaining) (runes "DELETED")
          (view_of (apply_logged remaining table) logs))
      (sym (applied refl)) (del_done key (view_of table remaining))
del-Replies n key table remaining remaining' (some x) applied skipped =
    subst
      (λ logs.
        Replies (ok (command_del ∷ key ∷ [])) (view_of table remaining) (runes "failed DEL")
          (view_of (apply_logged remaining table) logs))
      (sym (skipped x refl)) (del_failed key (view_of table remaining))

get-Replies :
    (key : Text) (table : HashTable) (latest : Store)
    → Replies
        (ok (command_get ∷ key ∷ []))
        (record { seen = table.entries; latest = latest })
        (get_answer key table)
        (record { seen = table.entries; latest = latest })
get-Replies key table latest =
    let view : View = record { seen = table.entries; latest = latest } in
    elim (Option-cases (table.entries key)) [
      | inl e ↦
          subst (λ t. Replies (ok (command_get ∷ key ∷ [])) view t view)
            (sym (get_answer-none key table e)) (get_missing key view e)
      | inr (value, e) ↦
          subst (λ t. Replies (ok (command_get ∷ key ∷ [])) view t view)
            (sym (get_answer-some key value table e)) (get_found key value view e)
    ]

module _ (gob : Gob) (os : Os) (applied : Bool) (upper : ℕ → ℕ) (raw : Text) (config : WalConfig)
    (n : ℕ) (before : Output) (table : HashTable) (remaining : List Log) where
  abbrev Goal : Result (List Text) → Type 0
  Goal parsed = IsAnswered gob os applied upper raw parsed config n before table remaining

  refused :
      (parsed : Result (List Text)) (answer : Text)
      → parse_and_validate upper raw ≡ parsed
      → ((s : Engine Running)
          → dispatch (storage (engine_layer gob os applied)) parsed s ≡ done (answer, s))
      → Replies parsed (view_of table remaining) answer (view_of table remaining)
      → Goal parsed
  refused parsed answer p h replies = record {
    answer = answer;
    m = n;
    output = before;
    table' = table;
    remaining' = remaining;
    result = unfold database_handler in rw p (h (idle config n before table remaining));
    counted = omega arith;
    replies = replies;
    extends = Extends-refl before.disk;
  }

  set-IsAnswered :
      (key value : Text)
      → parse_and_validate upper raw ≡ ok (command_set ∷ key ∷ value ∷ [])
      → n < max_int64
      → Goal (ok (command_set ∷ key ∷ value ∷ []))
  set-IsAnswered key value p h =
      let c = call-IsCalled gob os config table remaining (log_of n key value) before in
      record {
        answer = set_answer c.error;
        m = n + 1;
        output = c.output;
        table' = apply_logged remaining table;
        remaining' = c.remaining';
        result = serve-set gob os applied upper raw key value config n before table remaining p h c;
        counted = omega arith;
        replies = set-Replies n key value table remaining c.remaining' c.error c.applied c.skipped;
        extends = c.extends;
      }

  del-IsAnswered :
      (key : Text)
      → parse_and_validate upper raw ≡ ok (command_del ∷ key ∷ [])
      → n < max_int64
      → Goal (ok (command_del ∷ key ∷ []))
  del-IsAnswered key p h =
      let c = call-IsCalled gob os config table remaining (del_log n key) before in
      record {
        answer = del_answer c.error;
        m = n + 1;
        output = c.output;
        table' = apply_logged remaining table;
        remaining' = c.remaining';
        result = serve-del gob os applied upper raw key config n before table remaining p h c;
        counted = omega arith;
        replies = del-Replies n key table remaining c.remaining' c.error c.applied c.skipped;
        extends = c.extends;
      }

-- GET, before the flusher is through with its loop, and after that.
get-IsAnswered :
    (gob : Gob) (os : Os) (applied : Bool) (upper : ℕ → ℕ) (raw : Text) (config : WalConfig) (n : ℕ)
    (before : Output) (table : HashTable) (remaining : List Log) (key : Text)
    → parse_and_validate upper raw ≡ ok (command_get ∷ key ∷ [])
    → IsAnswered gob os applied upper raw
        (ok (command_get ∷ key ∷ []))
        config
        n
        before
        table
        remaining
unfolding apply_logged
get-IsAnswered gob os false upper raw config n before table remaining key p = record {
  answer = get_answer key table;
  m = n;
  output = before;
  table' = table;
  remaining' = remaining;
  result = serve-get gob os false upper raw key config n before table remaining p;
  counted = omega arith;
  replies = get-Replies key table (apply_logged remaining table).entries;
  extends = Extends-refl before.disk;
}
get-IsAnswered gob os true upper raw config n before table remaining key p = record {
  answer = get_answer key (apply_logged remaining table);
  m = n;
  output = before;
  table' = apply_logged remaining table;
  remaining' = [];
  result = serve-get gob os true upper raw key config n before table remaining p;
  counted = omega arith;
  replies =
      catches_up _ (view_of table remaining) _ _
        (get-Replies key (apply_logged remaining table) (apply_logged remaining table).entries);
  extends = Extends-refl before.disk;
}

module _ (gob : Gob) (os : Os) (applied : Bool) (upper : ℕ → ℕ) (raw : Text) (config : WalConfig)
    (n : ℕ) (before : Output) (table : HashTable) (remaining : List Log) where
  -- Every kind of line.
  pub Line-IsAnswered :
      (parsed : Result (List Text))
      → Line parsed
      → parse_and_validate upper raw ≡ parsed
      → n < max_int64
      → IsAnswered gob os applied upper raw parsed config n before table remaining
  Line-IsAnswered _ (sets key value) p h =
      set-IsAnswered gob os applied upper raw config n before table remaining key value p h
  Line-IsAnswered _ (gets key) p h =
      get-IsAnswered gob os applied upper raw config n before table remaining key p
  Line-IsAnswered _ (dels key) p h =
      del-IsAnswered gob os applied upper raw config n before table remaining key p h
  Line-IsAnswered _ (sets_wrongly arguments wrong) p h =
      refused gob os applied upper raw config n before table remaining _ _ p
        (Says-set _ arguments wrong) (wrong_set arguments (view_of table remaining) wrong)
  Line-IsAnswered _ (gets_wrongly arguments wrong) p h =
      refused gob os applied upper raw config n before table remaining _ _ p
        (Says-get _ arguments wrong) (wrong_get arguments (view_of table remaining) wrong)
  Line-IsAnswered _ (dels_wrongly arguments wrong) p h =
      refused gob os applied upper raw config n before table remaining _ _ p
        (Says-del _ arguments wrong) (wrong_del arguments (view_of table remaining) wrong)
  Line-IsAnswered _ (asks_else name arguments a b c) p h =
      refused gob os applied upper raw config n before table remaining _ _ p
        (Says-other _ name arguments a b c) (unknown name arguments (view_of table remaining) a b c)
  Line-IsAnswered _ (fails e) p h =
      refused gob os applied upper raw config n before table remaining _ _ p (Says-failed _ e)
        (not_parsed e (view_of table remaining))
