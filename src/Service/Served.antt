-- ===== src/Service/Served.antt =====
-- The program's layers put together, as internal/initialization does: the database over Storage,
-- over the Engine, over the WAL, whose hash table is also the one that Engine.Get reads. What the
-- flusher has still to apply, it applies at any time: whether before a Get reads is a parameter.
use in_memory_base.Base.{
  ℕ, ◌+◌, ◌<◌, ◌≡◌, refl, ap, Bool, true, false, List, [], ◌∷◌, ◌++◌, Option, none, some,
  if◌then◌else◌, arith, Option-cases, ◌==◌, inl, inr,
}
use in_memory_base.Base.Int.{pos, max_int64, eq_ℤ}
use in_memory_base.Base.Text.{Text, runes}
use in_memory_base.Base.Errors.{Error, ok}
use in_memory_base.Compute.Chars.{command_set, command_get}
use in_memory_base.Compute.Parse.{parse_and_validate}
use in_memory_base.Concurrency.Promise.{Outcome, ◌>>=◌, done}
use in_memory_base.Database.Handler.{database_handler, handle_set, handle_get}
use in_memory_base.Database.Answers.{dispatch-set, dispatch-get}
use in_memory_base.Engine.Calls.{CommandEngine, Engine, new_engine}
use in_memory_base.Engine.Calls
use in_memory_base.Engine.Context.{get_tx_id_from_context, get_tx_id-with_tx_id}
use in_memory_base.Engine.IdGenerator.{new_id_generator, generate}
use in_memory_base.Engine.Ids.{generate-next}
use in_memory_base.Filesystem.Disk.{Os}
use in_memory_base.HashTable.{HashTable, get-set, get-found}
use in_memory_base.HashTable
use in_memory_base.Storage.{StorageLayer, storage}
use in_memory_base.Storage
use in_memory_base.Wal.Log.{Log, Gob}
use in_memory_base.Wal.Writer.{Output}
use in_memory_base.Wal.Apply.{command_set_id, apply_logged}
use in_memory_base.Wal.Batch.{WalConfig}
use in_memory_base.Service.Call.{Running, apply_rest, waiting, set_call, del_call, IsCalled}

-- Whether the flusher is through with its loop when Engine.Get reads the table.
abbrev pub read_at : Bool → Engine Running → Engine Running
read_at false s = s
read_at true s = record s {
  backend = record { wal = apply_rest s.backend.remaining s.backend.wal; remaining = [] };
}

module _ (gob : Gob) (os : Os) (applied : Bool) where
  -- Wal.Set and Wal.Del take the LSN out of the context.
  abbrev pub wal_engine : CommandEngine Running
  wal_engine = record {
    set = λ ctx key value running. set_call gob os (get_tx_id_from_context ctx) key value running;
    del = λ ctx key running. del_call gob os (get_tx_id_from_context ctx) key running;
  }

  -- Get reads the table as it is at that moment.
  abbrev pub engine_layer : StorageLayer (Engine Running)
  engine_layer = record {
    set = λ key value. Calls.set wal_engine key value;
    del = λ key. Calls.del wal_engine key;
    get = λ key s.
        let s' = read_at applied s in
        done (Calls.get (λ (r : Running). r.wal.command_hash_table) key s', s');
  }

  -- A line from a client, and the answer to it.
  abbrev pub serve : (ℕ → ℕ) → Text → Engine Running → Outcome (Text × Engine Running)
  serve upper raw = database_handler (storage engine_layer) upper raw

-- The program between two calls: n identifiers are out, no request waits, and the flusher has the
-- records to apply of the batch that it wrote last.
abbrev pub idle : WalConfig → ℕ → Output → HashTable → List Log → Engine Running
idle config n output table remaining = record {
  current_lsn = new_id_generator (pos n);
  backend = waiting config output table remaining;
}

-- The answer to GET, by what the table has.
abbrev pub get_answer : Text → HashTable → Text
get_answer key table =
    let (result, found) = HashTable.get key table in
    if found then runes "VALUE " ++ result else runes "NOT_FOUND"

-- A SET of a fresh LSN: what becomes of it in each layer down to the WAL.
abbrev pub log_of : ℕ → Text → Text → Log
log_of n key value = record {
  lsn = pos (n + 1);
  command_id = command_set_id;
  arguments = key ∷ value ∷ [];
}

-- The answer to SET, by the error of the call.
abbrev pub set_answer : Option Error → Text
set_answer none = runes "OK"
set_answer (some e) = runes "failed SET"

not_max : (n : ℕ) → n < max_int64 → (n == max_int64) ≡ false
not_max n h = ground arith

pub not_zero : (n : ℕ) → eq_ℤ (pos (n + 1)) (pos 0) ≡ false
not_zero n = ground arith

pub fresh_lsn :
    (n : ℕ)
    → n < max_int64
    → generate (new_id_generator (pos n)) ≡ (pos (n + 1), new_id_generator (pos (n + 1)))
fresh_lsn n h = rw (generate-next n (omega arith), not_max n h) refl

module _ (gob : Gob) (os : Os) (applied : Bool) (upper : ℕ → ℕ) where
  pub serve-get :
      (raw key : Text) (config : WalConfig) (n : ℕ) (output : Output) (table : HashTable)
      (remaining : List Log)
      → parse_and_validate upper raw ≡ ok (command_get ∷ key ∷ [])
      → serve gob os applied upper raw (idle config n output table remaining)
        ≡ done (
          get_answer key
              (read_at applied
                (idle config n output table remaining)).backend.wal.command_hash_table,
          read_at applied (idle config n output table remaining),
        )
  unfolding database_handler
  serve-get raw key config n output table remaining h =
      rw
        (
          h,
          dispatch-get (storage (engine_layer gob os applied)) (key ∷ [])
              (idle config n output table remaining),
        )
        (unfold handle_get Storage.get Calls.get in
          elim (get-found key
            (read_at applied
              (idle config n output table remaining)).backend.wal.command_hash_table) [
                | inl e ↦ rw e refl
                | inr (value, e) ↦ rw e refl
              ])

  engine_set :
      (key value : Text) (config : WalConfig) (n : ℕ) (output : Output) (table : HashTable)
      (remaining : List Log)
      → n < max_int64
      → (c : IsCalled gob os config table remaining (log_of n key value) output)
      → Calls.set (wal_engine gob os applied) key value (idle config n output table remaining)
        ≡ done (c.error, idle config (n + 1) c.output (apply_logged remaining table) c.remaining')
  unfolding Calls.set
  engine_set key value config n output table remaining h c =
      rw (fresh_lsn n h, not_zero n, get_tx_id-with_tx_id (pos (n + 1)) (omega arith))
        (ap
          (λ o. o >>= λ (e, backend).
            done (e, record { current_lsn = new_id_generator (pos (n + 1)); backend = backend }))
          c.result)

  pub serve-set :
      (raw key value : Text) (config : WalConfig) (n : ℕ) (output : Output) (table : HashTable)
      (remaining : List Log)
      → parse_and_validate upper raw ≡ ok (command_set ∷ key ∷ value ∷ [])
      → n < max_int64
      → (c : IsCalled gob os config table remaining (log_of n key value) output)
      → serve gob os applied upper raw (idle config n output table remaining)
        ≡ done (
          set_answer c.error,
          idle config (n + 1) c.output (apply_logged remaining table) c.remaining',
        )
  unfolding database_handler
  serve-set raw key value config n output table remaining p h c =
      rw
        (
          p,
          dispatch-set (storage (engine_layer gob os applied)) (key ∷ value ∷ [])
              (idle config n output table remaining),
        )
        (unfold handle_set Storage.set in
          rw (engine_set key value config n output table remaining h c)
            (elim (Option-cases c.error) [ inl e ↦ rw e refl | inr (x, e) ↦ rw e refl ]))
