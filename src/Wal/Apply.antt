-- ===== src/Wal/Apply.antt =====
-- Wal.apply of wal.go, and the two loops that call it.
use in_memory_base.Base.{Option, none, some, List, [], ◌∷◌, if◌then◌else◌}
use in_memory_base.Base.Int.{ℤ, pos, eq_ℤ}
use in_memory_base.Base.Text.{Text}
use in_memory_base.Base.Errors.{Error, Result, ok, err, apply_record}
use in_memory_base.HashTable.{HashTable, set, del}
use in_memory_base.Wal.Log.{Log}

-- compute.CommandSetID and compute.CommandDelID
abbrev pub command_set_id : ℤ
command_set_id = pos 1

abbrev pub command_del_id : ℤ
command_del_id = pos 2

unfoldable pub apply_set : List Text → HashTable → Result HashTable
apply_set (key ∷ value ∷ rest) table = ok (set key value table)
apply_set (key ∷ []) table = err apply_record
apply_set [] table = err apply_record

unfoldable pub apply_del : List Text → HashTable → Result HashTable
apply_del (key ∷ rest) table = ok (del key table)
apply_del [] table = err apply_record

-- Wal.apply: a record with another command changes nothing, and is no error.
unfoldable pub apply : Log → HashTable → Result HashTable
unfolding apply_set apply_del
apply record_ table =
    if eq_ℤ record_.command_id command_set_id
    then apply_set record_.arguments table
    else if eq_ℤ record_.command_id command_del_id
    then apply_del record_.arguments table
    else ok table

-- An error leaves the table as it was.
abbrev pub or_same : Result HashTable → HashTable → HashTable
or_same (ok table') table = table'
or_same (err e) table = table

-- The loop of flushBatch: an error is logged, and the loop goes on.
unfoldable pub apply_logged : List Log → HashTable → HashTable
apply_logged [] table = table
apply_logged (log ∷ logs) table = apply_logged logs (or_same (apply log table) table)

abbrev go_on :
    Result HashTable → HashTable → (HashTable → Option Error × HashTable) → Option Error × HashTable
go_on (ok table') table next = next table'
go_on (err e) table next = (some e, table)

-- The loop of Recovery: an error ends it, and what was applied before stays applied.
unfoldable pub apply_or_fail : List Log → HashTable → Option Error × HashTable
apply_or_fail [] table = (none, table)
apply_or_fail (log ∷ logs) table = go_on (apply log table) table (apply_or_fail logs)
