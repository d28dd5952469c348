-- ===== src/Base/Decimal.antt =====
-- What the program uses of strconv: FormatInt and ParseInt in base 10, for int64.
use in_memory_base.Base.{
  ℕ, zero, suc, ◌+◌, ◌-◌, ◌*◌, ◌/◌, ◌%◌, ◌^◌, ◌≤◌, ◌<◌, ◌≡◌, refl, ap, ◌∙◌, Bool, true, false, ◌&&◌,
  [], ◌∷◌, ◌++◌, Option, none, some, arith, ltb, leb, ◌==◌, if◌then◌else◌,
}
use native.Mathlib.Decide.{dec_lt}
use native.Mathlib.Nat.{pow-suc}
use native.Mathlib.Numerals.{add-one}
use in_memory_base.Base.Int.{ℤ, pos, negsuc}
use in_memory_base.Base.Text.{Text}

-- The decimal digits of a number below 10 ^ fuel.
unfoldable pub digits : ℕ → ℕ → Text
digits zero n = []
digits (suc fuel) n =
    let rest = digits fuel (n / 10) in
    if ltb n 10 then (48 + n) ∷ [] else rest ++ ((48 + n % 10) ∷ [])

-- Twenty digits are enough for 64 bits.
abbrev pub format_uint : ℕ → Text
format_uint = digits 20

-- strconv.FormatInt(i, 10)
unfoldable pub format_int : ℤ → Text
unfolding digits
format_int (pos n) = format_uint n
format_int (negsuc n) = b'-' ∷ format_uint (n + 1)

-- The digits of ParseUint. (It stops at the first digit past the range; the error is the same.)
parse_digits : ℕ → Text → Option ℕ
parse_digits acc [] = some acc
parse_digits acc (c ∷ s) =
    let rest = parse_digits (acc * 10 + (c - 48)) s in if leb 48 c && leb c 57 then rest else none

parse_uint : Text → Option ℕ
parse_uint [] = none
parse_uint (c ∷ s) = parse_digits 0 (c ∷ s)

in_int64 : Bool → Option ℕ → Option ℤ
in_int64 negative none = none
in_int64 false (some n) = if ltb n (2 ^ 63) then some (pos n) else none
in_int64 true (some zero) = some (pos 0)
in_int64 true (some (suc n)) = if ltb n (2 ^ 63) then some (negsuc n) else none

-- strconv.ParseInt(s, 10, 64), `none` for an error.
unfoldable pub parse_int : Text → Option ℤ
unfolding parse_uint parse_digits in_int64
parse_int [] = none
parse_int (c ∷ s) =
    if c == b'+'
    then in_int64 false (parse_uint s)
    else if c == b'-'
    then in_int64 true (parse_uint s)
    else in_int64 false (parse_uint (c ∷ s))

-- The values of an int64.
abbrev pub IsInt64 : ℤ → Type 0
IsInt64 (pos n) = n < 2 ^ 63
IsInt64 (negsuc n) = n < 2 ^ 63

parse_digits-snoc :
    (acc n d : ℕ) (s : Text)
    → parse_digits acc s ≡ some n
    → d < 10
    → parse_digits acc (s ++ ((48 + d) ∷ [])) ≡ some (n * 10 + d)
unfolding parse_digits
parse_digits-snoc acc n d [] h b = ground arith
parse_digits-snoc acc n d (c ∷ s) h b =
    ground (arith, parse_digits-snoc (acc * 10 + (c - 48)) n d s)

pub digits_small : (fuel n : ℕ) → n < 10 → digits (suc fuel) n ≡ (48 + n) ∷ []
unfolding digits
digits_small fuel n h = ground arith

pub digits_large :
    (fuel n : ℕ) → 10 ≤ n → digits (suc fuel) n ≡ digits fuel (n / 10) ++ ((48 + n % 10) ∷ [])
unfolding digits
digits_large fuel n h = ground arith

parse_digit : (n : ℕ) → n < 10 → parse_digits 0 ((48 + n) ∷ []) ≡ some n
unfolding parse_digits
parse_digit n h = ground arith

-- A number that the fuel is enough for is read back from its digits.
parse-digits : (fuel n : ℕ) → n < 10 ^ suc fuel → parse_digits 0 (digits (suc fuel) n) ≡ some n
parse-digits zero n h = rw (digits_small zero n h) (parse_digit n h)
parse-digits (suc fuel) n h = elim (dec_lt n 10) [
  | yes small ↦ rw (digits_small (suc fuel) n small) (parse_digit n small)
  | no large ↦ rw (digits_large (suc fuel) n (omega arith)) (
      parse_digits-snoc 0 (n / 10) (n % 10) (digits (suc fuel) (n / 10))
        (parse-digits fuel (n / 10) (omega (arith, pow-suc 10 (suc fuel)))) (omega arith)
      ∙ ap some (omega arith))
]

-- The text begins with a digit.
abbrev StartsDigit : Text → Type 0
StartsDigit [] = ⊥
StartsDigit (c ∷ r) = 48 ≤ c

StartsDigit-append : (s r : Text) → StartsDigit s → StartsDigit (s ++ r)
StartsDigit-append [] r h = absurd h
StartsDigit-append (c ∷ s) r h = h

digits-StartsDigit : (fuel n : ℕ) → StartsDigit (digits (suc fuel) n)
digits-StartsDigit zero n = elim (dec_lt n 10) [
  | yes small ↦ rw (digits_small zero n small) (omega arith)
  | no large ↦ unfold digits in ground arith
]
digits-StartsDigit (suc fuel) n = elim (dec_lt n 10) [
  | yes small ↦ rw (digits_small (suc fuel) n small) (omega arith)
  | no large ↦
      rw (digits_large (suc fuel) n (omega arith))
        (StartsDigit-append (digits (suc fuel) (n / 10)) _ (digits-StartsDigit fuel (n / 10)))
]

parse_int_unsigned : (s : Text) → StartsDigit s → parse_int s ≡ in_int64 false (parse_digits 0 s)
unfolding parse_int
parse_int_unsigned [] h = absurd h
parse_int_unsigned (c ∷ s) h = ground arith

parse_int_minus :
    (s : Text) → StartsDigit s → parse_int (b'-' ∷ s) ≡ in_int64 true (parse_digits 0 s)
unfolding parse_int
parse_int_minus [] h = absurd h
parse_int_minus (c ∷ s) h = refl

-- ParseInt reads back what FormatInt wrote, for every int64.
pub parse_int-format_int : (i : ℤ) → IsInt64 i → parse_int (format_int i) ≡ some i
unfolding format_int in_int64
parse_int-format_int (pos n) h =
    rw (parse_int_unsigned (digits 20 n) (digits-StartsDigit 19 n), parse-digits 19 n (omega arith))
      (ground arith)
parse_int-format_int (negsuc n) h =
    rw
      (
        parse_int_minus (digits 20 (n + 1)) (digits-StartsDigit 19 (n + 1)),
        parse-digits 19 (n + 1) (omega arith),
        add-one,
      )
      (ground arith)
