-- ===== src/Initialization/Layers.antt =====
-- The constructors that StartDatabase (initializer.go) calls, and StartDatabase itself: what each refuses.
-- `has_log`, `has_compute` and the like say that an argument is not nil.
use in_memory_base.Base.{ℕ, ◌≡◌, refl, Bool, true, if◌then◌else◌}
use in_memory_base.Base.Text.{Text}
use in_memory_base.Base.Errors.{Result, ok, err, ◌>>=◌, invalid_logger, create_wal, formatted}
use in_memory_base.Concurrency.Promise.{Outcome}
use in_memory_base.Database.Handler.{database_handler}
use in_memory_base.Engine.Calls.{Engine, new_engine}
use in_memory_base.Filesystem.Disk.{Os}
use in_memory_base.Storage.{StorageLayer, storage}
use in_memory_base.Service.Call.{Running}
use in_memory_base.Service.Served.{serve, engine_layer}
use in_memory_base.Wal.Log.{Gob}
use in_memory_base.Wal.Batch.{Wal}

-- NewCompute
unfoldable pub new_compute : Bool → Result (Unit {0})
new_compute has_log = if has_log then ok tt else err formatted

-- NewStorage over an engine
unfoldable pub new_storage : {S : Type 0} → Bool → StorageLayer S → Result (StorageLayer S)
new_storage has_log engine = if has_log then ok (storage engine) else err invalid_logger

-- NewDatabase
unfoldable pub new_database : Bool → Bool → Bool → Result (Unit {0})
new_database has_log has_compute has_storage =
    if has_compute
    then (if has_storage then (if has_log then ok tt else err formatted) else err formatted)
    else err formatted

-- NewEngine, with its three checks
unfoldable pub checked_engine : Bool → Bool → Bool → Wal → Result (Engine Wal)
checked_engine has_log has_wal has_table wal =
    if has_log
    then (if has_wal
        then (if has_table then ok (new_engine wal) else err create_wal)
        else err create_wal)
    else err invalid_logger

-- `return errors.New(...)` in place of the error of a constructor.
or_formatted : {A : Type 0} → Result A → Result A
or_formatted (ok a) = ok a
or_formatted (err e) = err formatted

-- StartDatabase up to its group: the handler of the connections.
unfoldable pub start_database :
    Gob
    → Os
    → Bool
    → (ℕ → ℕ)
    → Bool
    → Result (Text → Engine Running → Outcome (Text × Engine Running))
unfolding or_formatted new_compute new_storage new_database
start_database gob os applied upper has_log = or_formatted (new_compute has_log) >>= λ _.
    or_formatted (new_storage has_log (engine_layer gob os applied)) >>= λ layer.
    or_formatted (new_database has_log true true) >>= λ _. ok (database_handler layer upper)

-- With the logger of CreateLogger StartDatabase does not fail, and its handler is `serve`.
start_database-serve :
    (gob : Gob) (os : Os) (applied : Bool) (upper : ℕ → ℕ)
    → start_database gob os applied upper true ≡ ok (serve gob os applied upper)
unfolding start_database
start_database-serve gob os applied upper = refl
