-- ===== src/Compute/Parse.antt =====
-- internal/database/compute/compute.go. The logger only writes, and is left out.
use in_memory_base.Base.{ℕ, Bool, true, false, List, [], ◌∷◌, if◌then◌else◌}
use in_memory_base.Base.Text.{Text}
use in_memory_base.Base.Errors.{Result, ok, err, invalid_command, invalid_argument, empty_command}
use in_memory_base.Compute.Chars.{validate_command, validate_argument}
use in_memory_base.Compute.Fields.{to_upper, trim_space, fields}

-- The loop `for _, token := range tokens`: the first token that fails ends it.
unfoldable pub validate_tokens : List Text → Bool
validate_tokens [] = true
validate_tokens (token ∷ rest) = if validate_argument token then validate_tokens rest else false

-- What follows `strings.Fields`.
unfoldable pub validate : (ℕ → ℕ) → List Text → Result (List Text)
unfolding validate_tokens
validate upper [] = err empty_command
validate upper (name ∷ arguments) =
    let tokens = to_upper upper name ∷ arguments in
    if validate_command (to_upper upper name)
    then (if validate_tokens tokens then ok tokens else err invalid_argument)
    else err invalid_command

-- Compute.ParseAndValidate
unfoldable pub parse_and_validate : (ℕ → ℕ) → Text → Result (List Text)
parse_and_validate upper raw = validate upper (fields (trim_space raw))
