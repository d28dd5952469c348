-- ===== src/Engine/Ids.antt =====
-- The identifiers that Generate (id_generator.go) returns, to one caller and to several at once.
use in_memory_base.Base.{
  ℕ, zero, suc, ◌+◌, ◌≤◌, ◌<◌, ◌≡◌, refl, ap, ◌∙◌, List, [], ◌∷◌, arith, if◌then◌else◌, false,
  Bool-cases, inl, inr, ◌==◌, ==_iff,
}
use in_memory_base.Base.Int.{ℤ, pos, max_int64, add_int64}
use in_memory_base.Engine.IdGenerator.{
  IdGenerator, new_id_generator, compare_and_swap, add_one, generate,
}

-- The counter is a number from 0 to MaxInt64.
abbrev pub IsValid : IdGenerator → Type 0
IsValid gen = (n : ℕ) × (gen.counter ≡ pos n) × (n ≤ max_int64)

add_one_pos :
    (n : ℕ)
    → n < max_int64
    → add_one (new_id_generator (pos n)) ≡ (pos (n + 1), new_id_generator (pos (n + 1)))
unfolding add_one add_int64
add_one_pos n h = ground arith

compare_and_swap_below :
    (n : ℕ)
    → (n == max_int64) ≡ false
    → compare_and_swap (new_id_generator (pos n)) ≡ new_id_generator (pos n)
unfolding compare_and_swap
compare_and_swap_below n e = ground arith

-- One call after another: the identifier is the next number, and 1 after MaxInt64.
pub generate-next :
    (n : ℕ)
    → n ≤ max_int64
    → generate (new_id_generator (pos n)) ≡ (
        if n == max_int64
        then (pos 1, new_id_generator (pos 1))
        else (pos (n + 1), new_id_generator (pos (n + 1))))
unfolding generate
generate-next n h = elim (Bool-cases (n == max_int64)) [
  | inl e ↦ rw ((==_iff n max_int64).0 e) (unfold add_int64 in refl)
  | inr e ↦ rw e (ap add_one (compare_and_swap_below n e) ∙ add_one_pos n (ground arith))
]

-- The identifiers of some calls, one after another.
unfoldable pub generate_times : ℕ → IdGenerator → List ℤ
generate_times zero gen = []
generate_times (suc k) gen = let (id, gen') = generate gen in id ∷ generate_times k gen'

abbrev pub numbers_from : ℕ → ℕ → List ℤ
numbers_from zero n = []
numbers_from (suc k) n = pos (n + 1) ∷ numbers_from k (n + 1)

not_last : (n k : ℕ) → n + suc k ≤ max_int64 → (n == max_int64) ≡ false
not_last n k h = ground arith

-- While they do not reach past MaxInt64, k calls return the k numbers after the counter, in order:
-- no identifier comes twice, and none is 0.
pub generate_times-numbers :
    (k n : ℕ) → n + k ≤ max_int64 → generate_times k (new_id_generator (pos n)) ≡ numbers_from k n
unfolding generate_times
generate_times-numbers zero n h = refl
generate_times-numbers (suc k) n h =
    rw (generate-next n (omega arith), not_last n k h)
      (ap (λ l. pos (n + 1) ∷ l) (generate_times-numbers k (n + 1) (omega arith)))

-- Calls of Generate at once: the counter, how many calls are past their CompareAndSwap and before their
-- Add, and the identifiers that the others have returned, the last one first.
pub record Race : Type 0 where
  pub generator : IdGenerator
  pub between : ℕ
  pub returned : List ℤ

-- One atomic step of one call.
pub data RaceStep : Race → Race → Type 0 where
  swaps :
      (s : Race)
      → RaceStep s (record s { generator = compare_and_swap s.generator; between = suc s.between })
  adds :
      (s : Race) (rest : ℕ)
      → s.between ≡ suc rest
      → RaceStep s (record {
        generator = (add_one s.generator).1;
        between = rest;
        returned = (add_one s.generator).0 ∷ s.returned;
      })

pub data Races (s : Race) : Race → Type 0 where
  begun : Races s s
  goes_on : {t u : Race} → Races s t → RaceStep t u → Races s u

abbrev pub race : ℕ → ℕ → List ℤ → Race
race n between returned = record {
  generator = new_id_generator (pos n);
  between = between;
  returned = returned;
}
