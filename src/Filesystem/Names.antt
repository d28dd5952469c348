-- ===== src/Filesystem/Names.antt =====
-- The names that CreateFile (segment_utils.go) gives to segments, in the order of sort.Strings.
use native.Mathlib.Decide.{dec_lt}
use native.Mathlib.Nat.{pow-suc}
use in_memory_base.Base.{
  ℕ, zero, suc, ◌+◌, ◌/◌, ◌%◌, ◌^◌, ◌≤◌, ◌<◌, ◌≡◌, refl, sym, ap, ◌∙◌, true, false, [], ◌∷◌, ◌++◌,
  arith, length, length-append,
}
use in_memory_base.Base.Int.{pos, ltb_ℤ}
use in_memory_base.Base.Text.{Text}
use in_memory_base.Base.Decimal.{digits, format_uint, digits_small, digits_large}
use in_memory_base.Filesystem.Disk.{join_path, file_name, text_ltb}

text_ltb-prefix : (p s t : Text) → text_ltb (p ++ s) (p ++ t) ≡ text_ltb s t
unfolding text_ltb
text_ltb-prefix [] s t = refl
text_ltb-prefix (c ∷ p) s t = ground (arith, text_ltb-prefix p s t)

-- Of texts of one length, the first difference decides, whatever follows.
text_ltb-append :
    (a b s t : Text) → length a ≡ length b → text_ltb a b ≡ true → text_ltb (a ++ s) (b ++ t) ≡ true
unfolding text_ltb
text_ltb-append [] [] s t same h = cc
text_ltb-append [] (d ∷ b) s t same h = ground arith
text_ltb-append (c ∷ a) [] s t same h = ground arith
text_ltb-append (c ∷ a) (d ∷ b) s t same h = ground (arith, text_ltb-append a b s t (omega arith))

text_ltb_asym : (s t : Text) → text_ltb s t ≡ true → text_ltb t s ≡ false
unfolding text_ltb
text_ltb_asym [] [] h = refl
text_ltb_asym [] (d ∷ t) h = refl
text_ltb_asym (c ∷ s) [] h = cc
text_ltb_asym (c ∷ s) (d ∷ t) h = ground (arith, text_ltb_asym s t)

text_ltb_irrefl : (s : Text) → text_ltb s s ≡ false
unfolding text_ltb
text_ltb_irrefl [] = refl
text_ltb_irrefl (c ∷ s) = ground (arith, text_ltb_irrefl s)

-- The numbers with j + 1 digits.
abbrev HasDigits : ℕ → ℕ → Type 0
HasDigits zero n = n < 10
HasDigits (suc j) n = (10 ≤ n) × HasDigits j (n / 10)

length-digits : (j fuel n : ℕ) → j ≤ fuel → HasDigits j n → length (digits (suc fuel) n) ≡ suc j
length-digits zero fuel n f h = rw (digits_small fuel n h) (omega arith)
length-digits (suc j) zero n f h = omega arith
length-digits (suc j) (suc fuel) n f h =
    rw
      (
        digits_large (suc fuel) n h.0,
        length-append (digits (suc fuel) (n / 10)) ((48 + n % 10) ∷ []),
      )
      (omega (arith, length-digits j fuel (n / 10) (omega arith) h.1))

last_digit : (c d : ℕ) → c < d → text_ltb ((48 + c) ∷ []) ((48 + d) ∷ []) ≡ true
unfolding text_ltb
last_digit c d h = ground arith

digits_mono :
    (j fuel m n : ℕ)
    → j ≤ fuel
    → HasDigits j m
    → HasDigits j n
    → m < n
    → text_ltb (digits (suc fuel) m) (digits (suc fuel) n) ≡ true
digits_mono zero fuel m n f hm hn h =
    rw (digits_small fuel m hm, digits_small fuel n hn) (last_digit m n h)
digits_mono (suc j) zero m n f hm hn h = ground arith
digits_mono (suc j) (suc fuel) m n f hm hn h = elim (dec_lt (m / 10) (n / 10)) [
  | yes less ↦
      rw (digits_large (suc fuel) m hm.0, digits_large (suc fuel) n hn.0)
        (text_ltb-append (digits (suc fuel) (m / 10)) (digits (suc fuel) (n / 10)) _ _
          (length-digits j fuel (m / 10) (omega arith) hm.1
            ∙ sym (length-digits j fuel (n / 10) (omega arith) hn.1))
          (digits_mono j fuel (m / 10) (n / 10) (omega arith) hm.1 hn.1 less))
  | no more ↦
      let equal_tens : m / 10 ≡ n / 10 = omega arith in
      rw
        (
          digits_large (suc fuel) m hm.0,
          digits_large (suc fuel) n hn.0,
          equal_tens,
          text_ltb-prefix (digits (suc fuel) (n / 10)) ((48 + m % 10) ∷ []) ((48 + n % 10) ∷ []),
        )
        (last_digit (m % 10) (n % 10) (omega arith))
]

-- A time since 1970 in nanoseconds with nineteen digits: from 2001 to 2286.
abbrev pub IsTime : ℕ → Type 0
IsTime n = (10 ^ 18 ≤ n) × (n < 10 ^ 19)

power_pos : (j : ℕ) → 1 ≤ 10 ^ j
power_pos zero = omega arith
power_pos (suc j) = omega (arith, pow-suc 10 j, power_pos j)

HasDigits-range : (j n : ℕ) → 10 ^ j ≤ n → n < 10 ^ suc j → HasDigits j n
HasDigits-range zero n low high = omega arith
HasDigits-range (suc j) n low high = (
  omega (arith, pow-suc 10 j, power_pos j),
  HasDigits-range j (n / 10) (omega (arith, pow-suc 10 j)) (omega (arith, pow-suc 10 (suc j))),
)

abbrev pub segment_path : Text → Text → ℕ → Text
segment_path directory mask_name nano = join_path directory (file_name mask_name nano)

module _ (directory mask_name : Text) where
  later_path :
      (m n : ℕ)
      → IsTime m
      → IsTime n
      → m < n
      → text_ltb (segment_path directory mask_name m) (segment_path directory mask_name n) ≡ true
  later_path m n hm hn h =
      text_ltb-prefix directory _ _
      ∙ text_ltb-prefix (b'/' ∷ []) _ _
      ∙ text_ltb-prefix mask_name _ _
      ∙ text_ltb-append (format_uint m) (format_uint n) _ _
          (length-digits 18 19 m (omega arith) (HasDigits-range 18 m hm.0 hm.1)
            ∙ sym (length-digits 18 19 n (omega arith) (HasDigits-range 18 n hn.0 hn.1)))
          (digits_mono 18 19 m n (omega arith) (HasDigits-range 18 m hm.0 hm.1)
            (HasDigits-range 18 n hn.0 hn.1) h)

  -- The names are ordered as the times are.
  pub path_order :
      (m n : ℕ)
      → IsTime m
      → IsTime n
      → text_ltb (segment_path directory mask_name m) (segment_path directory mask_name n)
        ≡ ltb_ℤ (pos m) (pos n)
  path_order m n hm hn = elim (dec_lt m n) [
    | yes less ↦ later_path m n hm hn less ∙ ground arith
    | no more ↦ elim (dec_lt n m) [
      | yes greater ↦ text_ltb_asym _ _ (later_path n m hn hm greater) ∙ ground arith
      | no greater ↦
          ap
            (λ k.
              text_ltb (segment_path directory mask_name m) (segment_path directory mask_name k))
            (omega arith)
          ∙ text_ltb_irrefl (segment_path directory mask_name m)
          ∙ ground arith
    ]
  ]
