-- ===== src/Engine/Calls.antt =====
-- engine.go: Engine over its two sides, the CommandEngine interface and the hash table.
use in_memory_base.Base.{Option, some, if◌then◌else◌}
use in_memory_base.Base.Int.{pos, eq_ℤ}
use in_memory_base.Base.Text.{Text}
use in_memory_base.Base.Errors.{Error, Result, ok, err, failed_generate_lsn, key_not_found}
use in_memory_base.Concurrency.Promise.{Outcome, ◌>>=◌, done}
use in_memory_base.HashTable.{HashTable}
use in_memory_base.HashTable
use in_memory_base.Engine.IdGenerator.{IdGenerator, new_id_generator, generate}
use in_memory_base.Engine.Context.{Context, with_tx_id}

-- The CommandEngine interface, over the state of what implements it. A call may wait for good.
pub record CommandEngine (S : Type 0) : Type 0 where
  pub set : Context → Text → Text → S → Outcome (Option Error × S)
  pub del : Context → Text → S → Outcome (Option Error × S)

pub record Engine (S : Type 0) : Type 0 where
  pub current_lsn : IdGenerator
  pub backend : S

-- NewEngine
abbrev pub new_engine : {S : Type 0} → S → Engine S
new_engine backend = record { current_lsn = new_id_generator (pos 0); backend = backend }

module _ {S : Type 0} where
  -- What Set and Del share: a fresh LSN, which is refused if it is 0, goes into the context of the
  -- call on the command side.
  with_lsn :
      (Context → S → Outcome (Option Error × S)) → Engine S → Outcome (Option Error × Engine S)
  with_lsn call engine =
      let (tx_id, gen) = generate engine.current_lsn in
      if eq_ℤ tx_id (pos 0)
      then done (some failed_generate_lsn, record engine { current_lsn = gen })
      else call (with_tx_id tx_id) engine.backend >>= λ (e, backend).
          done (e, record { current_lsn = gen; backend = backend })

  -- Engine.Set
  unfoldable pub set : CommandEngine S → Text → Text → Engine S → Outcome (Option Error × Engine S)
  unfolding with_lsn
  set command_engine key value = with_lsn (λ ctx. command_engine.set ctx key value)

  -- Engine.Del
  unfoldable pub del : CommandEngine S → Text → Engine S → Outcome (Option Error × Engine S)
  unfolding with_lsn
  del command_engine key = with_lsn (λ ctx. command_engine.del ctx key)

  -- Engine.Get, where `table` is the hash table of the query side.
  unfoldable pub get : (S → HashTable) → Text → Engine S → Result Text
  get table key engine =
      let (result, found) = HashTable.get key (table engine.backend) in
      if found then ok result else err key_not_found
