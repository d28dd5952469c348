-- ===== src/Database/Handler.antt =====
-- database.go: DatabaseHandler over the two layers. The logger only writes, and is left out.
use in_memory_base.Base.{ℕ, List, [], ◌∷◌, ◌++◌, Option, none, some, if◌then◌else◌}
use in_memory_base.Base.Text.{Text, runes, text_eq}
use in_memory_base.Base.Errors.{Error, Result, ok, err, key_not_found}
use in_memory_base.Compute.Chars.{command_set, command_get, command_del}
use in_memory_base.Compute.Parse.{parse_and_validate}
use in_memory_base.Concurrency.Promise.{Outcome, ◌>>=◌, done, panics}
use in_memory_base.Storage.{StorageLayer}

module _ {S : Type 0} (layer : StorageLayer S) where
  -- `failed` if there is an error.
  reply : Text → Text → Option Error → Text
  reply success failed none = success
  reply success failed (some e) = failed

  -- Database.handleSet. The tests on `len(tokens)` are the patterns.
  unfoldable pub handle_set : List Text → S → Outcome (Text × S)
  unfolding reply
  handle_set (command ∷ key ∷ value ∷ []) s =
      layer.set key value s >>= λ (e, s'). done (reply (runes "OK") (runes "failed SET") e, s')
  handle_set _ s = done (runes "must be two arguments", s)

  -- `errors.Is(err, storage.ErrKeyNotFound)`
  get_reply : Result Text → Text
  get_reply (ok result) = runes "VALUE " ++ result
  get_reply (err key_not_found) = runes "NOT_FOUND"
  get_reply (err e) = runes "failed GET"

  -- Database.handleGet
  unfoldable pub handle_get : List Text → S → Outcome (Text × S)
  unfolding get_reply
  handle_get (command ∷ key ∷ []) s = layer.get key s >>= λ (r, s'). done (get_reply r, s')
  handle_get _ s = done (runes "must be one argument", s)

  -- Database.handleDel
  unfoldable pub handle_del : List Text → S → Outcome (Text × S)
  unfolding reply
  handle_del (command ∷ key ∷ []) s =
      layer.del key s >>= λ (e, s'). done (reply (runes "DELETED") (runes "failed DEL") e, s')
  handle_del _ s = done (runes "must be one argument", s)

  -- The switch on `tokens[0]`, which panics where there is no token.
  unfoldable pub dispatch : Result (List Text) → S → Outcome (Text × S)
  dispatch (err e) s = done (runes "failed to parse command", s)
  dispatch (ok []) s = panics
  dispatch (ok (name ∷ arguments)) s =
      if text_eq name command_set
      then handle_set (name ∷ arguments) s
      else if text_eq name command_get
      then handle_get (name ∷ arguments) s
      else if text_eq name command_del
      then handle_del (name ∷ arguments) s
      else done (runes "invalid command", s)

  -- Database.DatabaseHandler
  unfoldable pub database_handler : (ℕ → ℕ) → Text → S → Outcome (Text × S)
  database_handler upper raw s = dispatch (parse_and_validate upper raw) s
