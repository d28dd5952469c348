-- ===== src/Tests/Compute.antt =====
-- The theorems of the parser at concrete lines.
use in_memory_base.Base.{ℕ, ◌≡◌, refl, List, [], ◌∷◌, All, arith, ◌==◌, if◌then◌else◌}
use in_memory_base.Base.Text.{Text, runes}
use in_memory_base.Base.Errors.{ok}
use in_memory_base.Compute.Chars.{is_upper_letter, is_any_letter, is_digit, is_punctuation}
use in_memory_base.Compute.Fields.{is_space, upper_rune, fields}
use in_memory_base.Compute.Layout.{AllSpace, IsToken, Item, IsItem, fields-lay_out}
use in_memory_base.Compute.Parse.{parse_and_validate}
use in_memory_base.Compute.Grammar.{
  IsCommand, parse_and_validate-lay_out, parse_and_validate-IsCommand,
}
use in_memory_base.Compute.Case.{
  same, raised, parse_and_validate_case, parse_and_validate_outside_ascii,
}

-- U+017F, the long s, has the upper case S.
abbrev upper : ℕ → ℕ
upper c = if c == 383 then b'S' else c

abbrev items : List Item
items =
    record { gap = b' '; more = runes " "; token = runes "a" }
    ∷ record { gap = b' '; more = []; token = runes "1" }
    ∷ []

abbrev parsed : List Text
parsed = runes "SET" ∷ runes "a" ∷ runes "1" ∷ []

lead-AllSpace : AllSpace (runes " ")
unfolding is_space
lead-AllSpace = refl

trail-AllSpace : AllSpace []
trail-AllSpace = refl

name-IsToken : IsToken (runes "set")
unfolding is_space
name-IsToken = refl

name'-IsToken : IsToken (runes "Set")
unfolding is_space
name'-IsToken = refl

items-IsItem : All IsItem items
unfolding is_space
items-IsItem = ((refl, refl, refl), ((refl, refl, refl), tt))

parse_and_validate-lay_out_example : parse_and_validate upper (runes " set  a 1") ≡ ok parsed
unfolding upper_rune is_upper_letter is_any_letter is_digit is_punctuation
parse_and_validate-lay_out_example =
    parse_and_validate-lay_out upper (runes " ") (runes "set") items [] lead-AllSpace name-IsToken
      items-IsItem trail-AllSpace

fields-lay_out_example : fields (runes " set  a 1") ≡ runes "set" ∷ runes "a" ∷ runes "1" ∷ []
fields-lay_out_example =
    fields-lay_out (runes " ") (runes "set") items [] lead-AllSpace name-IsToken items-IsItem
      trail-AllSpace

parsed_ok : parse_and_validate upper (runes " set  a 1") ≡ ok parsed
unfolding upper_rune is_upper_letter is_any_letter is_digit is_punctuation
parsed_ok =
    parse_and_validate-lay_out upper (runes " ") (runes "set") items [] lead-AllSpace name-IsToken
      items-IsItem trail-AllSpace

parse_and_validate-IsCommand_example : IsCommand parsed
parse_and_validate-IsCommand_example =
    parse_and_validate-IsCommand upper (runes " set  a 1") parsed parsed_ok

parse_and_validate_case_example :
    parse_and_validate upper (runes " set  a 1") ≡ parse_and_validate upper (runes " Set  a 1")
parse_and_validate_case_example =
    parse_and_validate_case upper (runes " ") (runes "set") (runes "Set") items [] lead-AllSpace
      name-IsToken name'-IsToken items-IsItem trail-AllSpace
      (raised b'S' (omega arith) (omega arith), (same b'e', (same b't', tt)))

outside-IsToken : IsToken (383 ∷ runes "et")
unfolding is_space
outside-IsToken = refl

-- The name is the long s and "et".
parse_and_validate_outside_ascii_example :
    parse_and_validate upper (383 ∷ runes "et  a 1") ≡ ok parsed
unfolding upper_rune is_upper_letter is_any_letter is_digit is_punctuation
parse_and_validate_outside_ascii_example =
    parse_and_validate_outside_ascii upper [] 383 (runes "et") items [] trail-AllSpace
      outside-IsToken items-IsItem trail-AllSpace (omega arith) refl refl refl
