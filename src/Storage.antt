-- ===== src/Storage.antt =====
-- internal/database/storage/storage.go. Storage passes every call on to the engine, and logs.
use in_memory_base.Base.{Option, none, some}
use in_memory_base.Base.Text.{Text}
use in_memory_base.Base.Errors.{Error, Result}
use in_memory_base.Concurrency.Promise.{Outcome, ◌>>=◌, done}

-- The interfaces CommandStorage and QueryStorage, over the state of the engine. They are also what
-- Storage itself offers, to StorageLayer of database.go.
pub record StorageLayer (S : Type 0) : Type 0 where
  pub set : Text → Text → S → Outcome (Option Error × S)
  pub del : Text → S → Outcome (Option Error × S)
  pub get : Text → S → Outcome (Result Text × S)

module _ {S : Type 0} (engine : StorageLayer S) where
  -- `if err != nil { log; return err }; return nil`
  passed_on : Option Error → Option Error
  passed_on none = none
  passed_on (some e) = some e

  -- Storage.Set
  unfoldable pub set : Text → Text → S → Outcome (Option Error × S)
  unfolding passed_on
  set key value s = engine.set key value s >>= λ (e, s'). done (passed_on e, s')

  -- Storage.Del
  unfoldable pub del : Text → S → Outcome (Option Error × S)
  unfolding passed_on
  del key s = engine.del key s >>= λ (e, s'). done (passed_on e, s')

  -- Storage.Get: on an error the value is the empty string.
  unfoldable pub get : Text → S → Outcome (Result Text × S)
  get key s = engine.get key s

  -- Storage as a StorageLayer.
  abbrev pub storage : StorageLayer S
  storage = record { set = set; del = del; get = get }
