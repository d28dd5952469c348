-- ===== src/Compute/Grammar.antt =====
-- What ParseAndValidate (compute.go) accepts, and with which error it refuses the rest.
use in_memory_base.Base.{
  ℕ, ◌≡◌, refl, ◌↔◌, inl, inr, Bool-cases, true, not, List, [], ◌∷◌, ◌++◌, arith, every, All,
  if◌then◌else◌,
}
use mathlib.Core.Path.{subst}
use in_memory_base.Base.Text.{Text}
use in_memory_base.Base.Errors.{Result, ok, err, invalid_command, invalid_argument, empty_command}
use in_memory_base.Compute.Chars.{
  is_upper_letter, is_argument_symbol, validate_command, validate_argument, validate_command-every,
  validate_argument-every, argument_symbol_bounds, upper_letter_argument,
}
use in_memory_base.Compute.Fields.{is_space, to_upper, trim_space, fields, fields-trim_space}
use in_memory_base.Compute.Layout.{
  AllSpace, IsToken, Item, IsItem, lay_out, tokens_of, fields-lay_out, fields-IsToken, fields-nil,
  AllSpace-fields,
}
use in_memory_base.Compute.Parse.{validate_tokens, validate, parse_and_validate}

-- A name in capitals, and an argument of allowed symbols: neither is empty.
abbrev pub IsName : Text → Type 0
IsName [] = ⊥
IsName (c ∷ w) = every is_upper_letter (c ∷ w) ≡ true

abbrev pub IsArgument : Text → Type 0
IsArgument [] = ⊥
IsArgument (c ∷ w) = every is_argument_symbol (c ∷ w) ≡ true

abbrev pub IsCommand : List Text → Type 0
IsCommand [] = ⊥
IsCommand (name ∷ arguments) = IsName name × All IsArgument arguments

argument_not_space : (c : ℕ) → is_argument_symbol c ≡ true → not (is_space c) ≡ true
unfolding is_space
argument_not_space c h = ground (arith, argument_symbol_bounds c h)

IsArgument-of : (w : Text) → IsToken w → validate_argument w ≡ true → IsArgument w
IsArgument-of [] t h = t
IsArgument-of (c ∷ w) t h = rw (validate_argument-every (c ∷ w)) at h

IsName-of :
    (upper : ℕ → ℕ) (w : Text)
    → IsToken w
    → validate_command (to_upper upper w) ≡ true
    → IsName (to_upper upper w)
IsName-of upper [] t h = t
IsName-of upper (c ∷ w) t h = rw (validate_command-every (to_upper upper (c ∷ w))) at h

arguments_of : (ws : List Text) → All IsToken ws → validate_tokens ws ≡ true → All IsArgument ws
unfolding validate_tokens
arguments_of [] t h = tt
arguments_of (w ∷ ws) t h = elim (Bool-cases (validate_argument w)) [
  | inl e ↦ (IsArgument-of w t.0 e, arguments_of ws t.1 (rw e at h))
  | inr e ↦ cc
]

validate-ok :
    (upper : ℕ → ℕ) (name : Text) (arguments tokens : List Text)
    → validate upper (name ∷ arguments) ≡ ok tokens
    → (to_upper upper name ∷ arguments ≡ tokens)
      × (validate_command (to_upper upper name) ≡ true)
      × (validate_tokens (to_upper upper name ∷ arguments) ≡ true)
unfolding validate
validate-ok upper name arguments tokens h = ground arith

validate_tokens-tail :
    (w : Text) (ws : List Text) → validate_tokens (w ∷ ws) ≡ true → validate_tokens ws ≡ true
unfolding validate_tokens
validate_tokens-tail w ws h = ground arith

validate-IsCommand :
    (upper : ℕ → ℕ) (ws tokens : List Text)
    → All IsToken ws
    → validate upper ws ≡ ok tokens
    → IsCommand tokens
validate-IsCommand upper [] tokens t h = unfold validate in cc
validate-IsCommand upper (name ∷ arguments) tokens t h =
    let (e, valid, rest) = validate-ok upper name arguments tokens h in
    subst IsCommand e (
      IsName-of upper name t.0 valid,
      arguments_of arguments t.1 (validate_tokens-tail _ arguments rest),
    )

-- Whatever is accepted is a name in capitals, followed by arguments of allowed symbols, and none
-- of these is empty.
pub parse_and_validate-IsCommand :
    (upper : ℕ → ℕ) (raw : Text) (tokens : List Text)
    → parse_and_validate upper raw ≡ ok tokens
    → IsCommand tokens
unfolding parse_and_validate
parse_and_validate-IsCommand upper raw tokens h =
    validate-IsCommand upper (fields (trim_space raw)) tokens (fields-IsToken (trim_space raw)) h

-- The answer on the tokens of a line, by the symbols in them alone.
abbrev pub verdict : Text → List Text → Result (List Text)
verdict name arguments =
    if every is_upper_letter name
    then (if every (every is_argument_symbol) arguments
        then ok (name ∷ arguments)
        else err invalid_argument)
    else err invalid_command

validate_tokens-every : (ws : List Text) → validate_tokens ws ≡ every (every is_argument_symbol) ws
unfolding validate_tokens
validate_tokens-every [] = refl
validate_tokens-every (w ∷ ws) = ground (arith, validate_tokens-every ws, validate_argument-every w)

letters_are_arguments :
    (w : Text) → every is_upper_letter w ≡ true → every is_argument_symbol w ≡ true
letters_are_arguments [] h = refl
letters_are_arguments (c ∷ w) h = ground (arith, letters_are_arguments w, upper_letter_argument c)

validate-verdict :
    (upper : ℕ → ℕ) (name : Text) (arguments : List Text)
    → validate upper (name ∷ arguments) ≡ verdict (to_upper upper name) arguments
unfolding validate
validate-verdict upper name arguments = ground (
  arith,
  validate_command-every (to_upper upper name),
  validate_tokens-every (to_upper upper name ∷ arguments),
  letters_are_arguments (to_upper upper name),
)

module _ (upper : ℕ → ℕ) (lead name : Text) (items : List Item) (trail : Text) (l : AllSpace lead)
    (n : IsToken name) (hs : All IsItem items) (t : AllSpace trail) where
  -- A line with a name and arguments, however they are spaced, is accepted if the name in upper
  -- case is all capitals and the arguments hold allowed symbols only, and the answer is then the
  -- name in upper case and the arguments as they were; it is refused with ErrInvalidCommand if the
  -- name fails, whatever the arguments are, and else with ErrInvalidArgument.
  pub parse_and_validate-lay_out :
      parse_and_validate upper (lead ++ (name ++ lay_out items trail))
      ≡ verdict (to_upper upper name) (tokens_of items)
  unfolding parse_and_validate
  parse_and_validate-lay_out =
      rw
        (
          fields-trim_space (lead ++ (name ++ lay_out items trail)),
          fields-lay_out lead name items trail l n hs t,
        )
        (validate-verdict upper name (tokens_of items))

validate_empty : (upper : ℕ → ℕ) (ws : List Text) → validate upper ws ≡ err empty_command → ws ≡ []
unfolding validate
validate_empty upper [] h = refl
validate_empty upper (name ∷ arguments) h = ground arith

-- A line is refused with ErrEmptyCommand exactly if it is white space throughout.
parse_and_validate_empty :
    (upper : ℕ → ℕ) (raw : Text) → (parse_and_validate upper raw ≡ err empty_command) ↔ AllSpace raw
unfolding parse_and_validate
parse_and_validate_empty upper raw = (
  λ h. fields-nil raw (rw fields-trim_space at (validate_empty upper (fields (trim_space raw)) h)),
  λ h. rw (fields-trim_space raw, AllSpace-fields raw h) (unfold validate in refl),
)
