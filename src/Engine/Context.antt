-- ===== src/Engine/Context.antt =====
-- internal/lib/context_util/context_id.go: the LSN goes through the context as a decimal text.
use in_memory_base.Base.{◌≡◌, Option, none, some}
use in_memory_base.Base.Int.{ℤ, pos}
use in_memory_base.Base.Text.{Text}
use in_memory_base.Base.Decimal.{format_int, parse_int, parse_int-format_int, IsInt64}

-- What a context has under TxIDKey: nothing, a string, or a value of another type.
pub data Context : Type 0 where
  absent : Context
  text : Text → Context
  other : Context

or_zero : Option ℤ → ℤ
or_zero none = pos 0
or_zero (some id) = id

-- GetTxIDFromContext
unfoldable pub get_tx_id_from_context : Context → ℤ
unfolding or_zero
get_tx_id_from_context absent = pos 0
get_tx_id_from_context (text id_str) = or_zero (parse_int id_str)
get_tx_id_from_context other = pos 0

-- `context.WithValue(ctx, contextid.TxIDKey, strconv.FormatInt(txID, 10))`
unfoldable pub with_tx_id : ℤ → Context
with_tx_id tx_id = text (format_int tx_id)

-- The LSN that the engine puts into the context is the one that the WAL takes out, for every int64.
pub get_tx_id-with_tx_id :
    (tx_id : ℤ) → IsInt64 tx_id → get_tx_id_from_context (with_tx_id tx_id) ≡ tx_id
unfolding get_tx_id_from_context with_tx_id
get_tx_id-with_tx_id tx_id h = rw (parse_int-format_int tx_id h)
