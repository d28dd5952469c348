-- ===== src/Compute/Chars.antt =====
-- internal/database/compute/validation.go, with the ranges and the limits of command.go.
use in_memory_base.Base.{
  ℕ, ◌≤◌, ◌≡◌, Bool, true, false, ◌&&◌, ◌||◌, List, [], ◌∷◌, arith, leb, ◌==◌, every, if◌then◌else◌,
}
use in_memory_base.Base.Text.{Text, runes}

abbrev pub command_set : Text
command_set = runes "SET"

abbrev pub command_get : Text
command_get = runes "GET"

abbrev pub command_del : Text
command_del = runes "DEL"

-- LetterRangeLower, LetterRangeUpper and DigitRange, as the tests of their two ends.
abbrev in_range : ℕ → ℕ → ℕ → Bool
in_range low high symbol = leb low symbol && leb symbol high

abbrev pub punctuation : List ℕ
punctuation = b'*' ∷ b'/' ∷ b'_' ∷ b'.' ∷ []

-- IsAnyLetter
unfoldable pub is_any_letter : ℕ → Bool
is_any_letter symbol = in_range b'a' b'z' symbol || in_range b'A' b'Z' symbol

-- IsUpperLetter
unfoldable pub is_upper_letter : ℕ → Bool
is_upper_letter symbol = in_range b'A' b'Z' symbol

-- IsDigit
unfoldable pub is_digit : ℕ → Bool
is_digit symbol = in_range b'0' b'9' symbol

-- The loop of IsPunctuation.
is_one_of : List ℕ → ℕ → Bool
is_one_of [] symbol = false
is_one_of (pct ∷ rest) symbol = if symbol == pct then true else is_one_of rest symbol

-- IsPunctuation
unfoldable pub is_punctuation : ℕ → Bool
unfolding is_one_of
is_punctuation symbol = is_one_of punctuation symbol

-- ValidateCommand
unfoldable pub validate_command : Text → Bool
validate_command [] = true
validate_command (symbol ∷ raw) = if is_upper_letter symbol then validate_command raw else false

abbrev pub is_argument_symbol : ℕ → Bool
is_argument_symbol symbol = is_any_letter symbol || is_digit symbol || is_punctuation symbol

-- ValidateArgument
unfoldable pub validate_argument : Text → Bool
validate_argument [] = true
validate_argument (symbol ∷ raw) =
    if is_argument_symbol symbol then validate_argument raw else false

pub validate_command-every : (raw : Text) → validate_command raw ≡ every is_upper_letter raw
unfolding validate_command
validate_command-every [] = ground arith
validate_command-every (c ∷ raw) = ground (arith, validate_command-every raw)

pub validate_argument-every : (raw : Text) → validate_argument raw ≡ every is_argument_symbol raw
unfolding validate_argument
validate_argument-every [] = ground arith
validate_argument-every (c ∷ raw) = ground (arith, validate_argument-every raw)

-- A symbol that an argument may hold is below 128, and no white space.
pub argument_symbol_bounds : (c : ℕ) → is_argument_symbol c ≡ true → (b'*' ≤ c) × (c ≤ b'z')
unfolding is_any_letter is_digit is_punctuation
argument_symbol_bounds c h = ground arith

pub upper_letter_argument : (c : ℕ) → is_upper_letter c ≡ true → is_argument_symbol c ≡ true
unfolding is_any_letter is_upper_letter is_digit is_punctuation
upper_letter_argument c h = ground arith
