-- ===== src/Tests/Engine.antt =====
-- The theorems of the engine and of the promises at concrete inputs.
use in_memory_base.Base.{◌≡◌, refl, false, [], ◌∷◌, none, some, arith}
use in_memory_base.Base.Int.{pos}
use in_memory_base.Base.Errors.{io}
use in_memory_base.Concurrency.Promise.{done, Promise}
use in_memory_base.Concurrency.OneShot.{set_twice_get_twice, get-set_first}
use in_memory_base.Engine.Context.{get_tx_id_from_context, with_tx_id, get_tx_id-with_tx_id}
use in_memory_base.Engine.IdGenerator.{new_id_generator}
use in_memory_base.Engine.Ids.{generate_times, generate_times-numbers}
use in_memory_base.Tests.Data.{channels}

get_tx_id-with_tx_id_example : get_tx_id_from_context (with_tx_id (pos 42)) ≡ pos 42
get_tx_id-with_tx_id_example = get_tx_id-with_tx_id (pos 42) (omega arith)

generate_times-numbers_example :
    generate_times 3 (new_id_generator (pos 0)) ≡ pos 1 ∷ pos 2 ∷ pos 3 ∷ []
generate_times-numbers_example = generate_times-numbers 3 0 (omega arith)

abbrev promise : Promise
promise = record { result = 0; promised = false }

get-set_first_example :
    set_twice_get_twice none promise (some io) none channels ≡ done (some io, none)
get-set_first_example = get-set_first none promise (some io) none channels refl refl
