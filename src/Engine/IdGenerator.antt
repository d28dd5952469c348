-- ===== src/Engine/IdGenerator.antt =====
-- id_generator.go: an atomic int64. Each method of atomic.Int64 is one step.
use in_memory_base.Base.{if◌then◌else◌}
use in_memory_base.Base.Int.{ℤ, pos, eq_ℤ, max_int64, add_int64}

pub record IdGenerator : Type 0 where
  pub counter : ℤ

-- NewIDGenerator
abbrev pub new_id_generator : ℤ → IdGenerator
new_id_generator previous_id = record { counter = previous_id }

-- `gen.counter.CompareAndSwap(math.MaxInt64, 0)`
unfoldable pub compare_and_swap : IdGenerator → IdGenerator
compare_and_swap gen = if eq_ℤ gen.counter (pos max_int64) then record { counter = pos 0 } else gen

-- `gen.counter.Add(1)`, which returns the new value.
unfoldable pub add_one : IdGenerator → ℤ × IdGenerator
add_one gen = let next = add_int64 gen.counter (pos 1) in (next, record { counter = next })

-- IDGenerator.Generate
unfoldable pub generate : IdGenerator → ℤ × IdGenerator
unfolding compare_and_swap add_one
generate gen = add_one (compare_and_swap gen)
