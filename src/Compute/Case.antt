-- ===== src/Compute/Case.antt =====
-- The case of a command name in ParseAndValidate (compute.go), and names outside ASCII.
use in_memory_base.Base.{ℕ, ◌+◌, ◌≤◌, ◌≡◌, refl, true, List, [], ◌∷◌, ◌++◌, arith, every, All}
use in_memory_base.Base.Text.{Text}
use in_memory_base.Base.Errors.{ok}
use in_memory_base.Compute.Chars.{is_any_letter, is_upper_letter, is_argument_symbol}
use in_memory_base.Compute.Fields.{upper_rune, to_upper}
use in_memory_base.Compute.Layout.{AllSpace, IsToken, Item, IsItem, lay_out, tokens_of}
use in_memory_base.Compute.Parse.{parse_and_validate}
use in_memory_base.Compute.Grammar.{parse_and_validate-lay_out}

letter_to_upper :
    (upper : ℕ → ℕ) (c : ℕ) → is_any_letter c ≡ true → is_upper_letter (upper_rune upper c) ≡ true
unfolding is_any_letter is_upper_letter upper_rune
letter_to_upper upper c h = ground arith

letters_to_upper :
    (upper : ℕ → ℕ) (w : Text)
    → every is_any_letter w ≡ true
    → every is_upper_letter (to_upper upper w) ≡ true
letters_to_upper upper [] h = refl
letters_to_upper upper (c ∷ w) h = ground (arith, letters_to_upper upper w, letter_to_upper upper c)

-- The same symbol, or the two cases of one ASCII letter.
pub data SameLetter : ℕ → ℕ → Type 0 where
  same : (c : ℕ) → SameLetter c c
  lowered : (c : ℕ) → b'A' ≤ c → c ≤ b'Z' → SameLetter c (c + 32)
  raised : (c : ℕ) → b'A' ≤ c → c ≤ b'Z' → SameLetter (c + 32) c

-- Texts of one length that differ in the case of ASCII letters only.
abbrev pub SameName : Text → Text → Type 0
SameName [] [] = Unit
SameName [] (d ∷ v) = ⊥
SameName (c ∷ w) [] = ⊥
SameName (c ∷ w) (d ∷ v) = SameLetter c d × SameName w v

upper_rune-SameLetter :
    (upper : ℕ → ℕ) (c d : ℕ) → SameLetter c d → upper_rune upper c ≡ upper_rune upper d
unfolding upper_rune
upper_rune-SameLetter upper _ _ (same c) = refl
upper_rune-SameLetter upper _ _ (lowered c low high) = ground arith
upper_rune-SameLetter upper _ _ (raised c low high) = ground arith

to_upper-SameName :
    (upper : ℕ → ℕ) (w v : Text) → SameName w v → to_upper upper w ≡ to_upper upper v
to_upper-SameName upper [] [] h = refl
to_upper-SameName upper [] (d ∷ v) h = absurd h
to_upper-SameName upper (c ∷ w) [] h = absurd h
to_upper-SameName upper (c ∷ w) (d ∷ v) h =
    cc (upper_rune-SameLetter upper c d h.0, to_upper-SameName upper w v h.1)

-- The command name is case-insensitive: two lines whose names differ in the case of ASCII letters only,
-- with the same arguments and the same spacing, get the same answer.
pub parse_and_validate_case :
    (upper : ℕ → ℕ) (lead name name' : Text) (items : List Item) (trail : Text)
    → AllSpace lead
    → IsToken name
    → IsToken name'
    → All IsItem items
    → AllSpace trail
    → SameName name name'
    → parse_and_validate upper (lead ++ (name ++ lay_out items trail))
      ≡ parse_and_validate upper (lead ++ (name' ++ lay_out items trail))
parse_and_validate_case upper lead name name' items trail l n n' hs t e = rw (
  parse_and_validate-lay_out upper lead name items trail l n hs t,
  parse_and_validate-lay_out upper lead name' items trail l n' hs t,
  to_upper-SameName upper name name' e,
)

outside_ascii :
    (upper : ℕ → ℕ) (c : ℕ) (name : Text)
    → 128 ≤ c
    → is_upper_letter (upper c) ≡ true
    → every is_any_letter name ≡ true
    → every is_upper_letter (to_upper upper (c ∷ name)) ≡ true
unfolding upper_rune
outside_ascii upper c name big u letters = ground (arith, letters_to_upper upper name letters)

-- A name that begins with a symbol outside ASCII is accepted all the same if the upper-case table
-- takes that symbol to a capital and capitals follow, though ErrInvalidCommand is documented for
-- any name with characters other than ASCII letters.
pub parse_and_validate_outside_ascii :
    (upper : ℕ → ℕ) (lead : Text) (c : ℕ) (name : Text) (items : List Item) (trail : Text)
    → AllSpace lead
    → IsToken (c ∷ name)
    → All IsItem items
    → AllSpace trail
    → 128 ≤ c
    → is_upper_letter (upper c) ≡ true
    → every is_any_letter name ≡ true
    → every (every is_argument_symbol) (tokens_of items) ≡ true
    → parse_and_validate upper (lead ++ (c ∷ (name ++ lay_out items trail)))
      ≡ ok (to_upper upper (c ∷ name) ∷ tokens_of items)
parse_and_validate_outside_ascii upper lead c name items trail l n hs t big u letters args = rw (
  parse_and_validate-lay_out upper lead (c ∷ name) items trail l n hs t,
  outside_ascii upper c name big u letters,
  args,
)
