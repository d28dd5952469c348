-- ===== src/Compute/Fields.antt =====
-- What compute.go uses of the Go packages unicode and strings: IsSpace, TrimSpace, Fields and
-- ToUpper. Above ASCII the upper-case table of the unicode package is the parameter `upper`.
use in_memory_base.Base.{
  ℕ, ◌-◌, ◌≡◌, refl, Bool, true, ◌&&◌, ◌||◌, List, [], ◌∷◌, map, arith, ltb, leb, ◌==◌,
  if◌then◌else◌, Bool-cases, inl, inr,
}
use in_memory_base.Base.Text.{Text}

-- unicode.IsSpace: the code points with the property White_Space.
unfoldable pub is_space : ℕ → Bool
is_space c =
    leb 9 c && leb c 13
    || c == 32
    || c == 0x85
    || c == 0xA0
    || c == 0x1680
    || leb 0x2000 c && leb c 0x200A
    || c == 0x2028
    || c == 0x2029
    || c == 0x202F
    || c == 0x205F
    || c == 0x3000

-- unicode.ToUpper, and strings.ToUpper.
unfoldable pub upper_rune : (ℕ → ℕ) → ℕ → ℕ
upper_rune upper c = if ltb c 128 then (if leb b'a' c && leb c b'z' then c - 32 else c) else upper c

abbrev pub to_upper : (ℕ → ℕ) → Text → Text
to_upper upper = map (upper_rune upper)

-- strings.TrimSpace: the white space at both ends goes.
trim_left : Text → Text
trim_left [] = []
trim_left (c ∷ s) = let rest = trim_left s in if is_space c then rest else c ∷ s

drop_last_space : ℕ → Text → Text
drop_last_space c [] = if is_space c then [] else c ∷ []
drop_last_space c (d ∷ r) = c ∷ d ∷ r

trim_right : Text → Text
trim_right [] = []
trim_right (c ∷ s) = drop_last_space c (trim_right s)

unfoldable pub trim_space : Text → Text
unfolding trim_left trim_right drop_last_space
trim_space s = trim_right (trim_left s)

-- strings.Fields: the maximal runs of symbols that are no white space. `split s` is the run that
-- `s` begins with, which may be empty, and the later ones.
abbrev pub add_word : Text → List Text → List Text
add_word [] words = words
add_word (c ∷ w) words = (c ∷ w) ∷ words

unfoldable pub split : Text → Text × List Text
split [] = ([], [])
split (c ∷ s) =
    let (w, words) = split s in if is_space c then ([], add_word w words) else (c ∷ w, words)

unfoldable pub fields : Text → List Text
unfolding split
fields s = let (w, words) = split s in add_word w words

pub fields-space : (c : ℕ) (s : Text) → is_space c ≡ true → fields (c ∷ s) ≡ fields s
unfolding fields
fields-space c s h = rw h

fields-trim_left : (s : Text) → fields (trim_left s) ≡ fields s
unfolding trim_left
fields-trim_left [] = refl
fields-trim_left (c ∷ s) = elim (Bool-cases (is_space c)) [
  | inl h ↦ rw (h, fields-trim_left s, fields-space c s h)
  | inr h ↦ rw h
]

split-drop_last_space : (c : ℕ) (s : Text) → split (drop_last_space c s) ≡ split (c ∷ s)
unfolding split drop_last_space
split-drop_last_space c [] = ground arith
split-drop_last_space c (d ∷ r) = refl

split-cong : (c : ℕ) (r s : Text) → split r ≡ split s → split (c ∷ r) ≡ split (c ∷ s)
unfolding split
split-cong c r s e = rw e

split-trim_right : (s : Text) → split (trim_right s) ≡ split s
unfolding trim_right
split-trim_right [] = refl
split-trim_right (c ∷ s) =
    rw (split-drop_last_space c (trim_right s)) (split-cong c (trim_right s) s (split-trim_right s))

fields-trim_right : (s : Text) → fields (trim_right s) ≡ fields s
unfolding fields
fields-trim_right s = rw (split-trim_right s)

-- The tokens of a line do not depend on the white space at its ends.
pub fields-trim_space : (s : Text) → fields (trim_space s) ≡ fields s
unfolding trim_space
fields-trim_space s = rw (fields-trim_right (trim_left s), fields-trim_left s)
