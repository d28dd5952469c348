-- ===== src/HashTable.antt =====
-- hash_table.go of internal/database/storage/engine/in_memory: the map behind its mutex. Each
-- method holds the lock from its first line to its return, so a method is one atomic step.
use mathlib.Core.Logic.{◌⊎◌}
use in_memory_base.Base.{
  ◌≡◌, refl, inl, inr, Bool, true, false, Option, none, some, [], if◌then◌else◌, arith,
}
use in_memory_base.Base.Text.{Text, text_eq}

-- `map[string]string`: what each key is mapped to.
pub record HashTable : Type 0 where
  pub entries : Text → Option Text

-- NewHashTable
unfoldable pub new_hash_table : HashTable
new_hash_table = record { entries = λ key. none }

-- HashTable.Set
unfoldable pub set : Text → Text → HashTable → HashTable
set key value h = record { entries = λ k. if text_eq key k then some value else h.entries k }

-- The two results of a read of the map: the zero value on a miss.
found : (o : Option Text) → Text × Bool
found none = ([], false)
found (some result) = (result, true)

-- HashTable.Get
unfoldable pub get : Text → HashTable → Text × Bool
unfolding found
get key h = found (h.entries key)

-- HashTable.Del
unfoldable pub del : Text → HashTable → HashTable
del key h = record { entries = λ k. if text_eq key k then none else h.entries k }

-- A read after a write to `key`: the value at `key`, and elsewhere what was there.
pub get-set :
    (key k value : Text) (h : HashTable)
    → get k (set key value h) ≡ (if text_eq key k then (value, true) else get k h)
unfolding get set
get-set key k value h = ground arith

-- A read after a deletion of `key`: a miss at `key`, and elsewhere what was there.
pub get-del :
    (key k : Text) (h : HashTable)
    → get k (del key h) ≡ (if text_eq key k then ([], false) else get k h)
unfolding get del
get-del key k h = ground arith

found-cases :
    (o : Option Text) → (found o ≡ ([], false)) ⊎ ((value : Text) × (found o ≡ (value, true)))
unfolding found
found-cases none = inl refl
found-cases (some value) = inr (value, refl)

-- A read gives the empty text and a miss, or a value.
pub get-found :
    (key : Text) (h : HashTable)
    → (get key h ≡ ([], false)) ⊎ ((value : Text) × (get key h ≡ (value, true)))
unfolding get found
get-found key h = found-cases (h.entries key)
