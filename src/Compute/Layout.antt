-- ===== src/Compute/Layout.antt =====
-- Lines laid out with any white space between their tokens, and what `fields` makes of them.
use in_memory_base.Base.{
  ℕ, ◌≡◌, refl, inl, inr, Bool-cases, true, not, List, [], ◌∷◌, ◌++◌, map, arith, every, All,
}
use in_memory_base.Base.Text.{Text}
use in_memory_base.Compute.Fields.{is_space, split, add_word, fields, fields-space}

abbrev pub AllSpace : Text → Type 0
AllSpace s = every is_space s ≡ true

-- A token: not empty, and no white space in it.
abbrev pub IsToken : Text → Type 0
IsToken [] = ⊥
IsToken (c ∷ w) = every (λ d. not (is_space d)) (c ∷ w) ≡ true

-- A later token with the white space in front of it, at least one symbol.
pub record Item : Type 0 where
  pub gap : ℕ
  pub more : Text
  pub token : Text

abbrev pub IsItem : Item → Type 0
IsItem i = (is_space i.gap ≡ true) × AllSpace i.more × IsToken i.token

abbrev pub lay_out : List Item → Text → Text
lay_out [] trail = trail
lay_out (i ∷ items) trail = i.gap ∷ (i.more ++ (i.token ++ lay_out items trail))

abbrev pub tokens_of : List Item → List Text
tokens_of = map (λ (i : Item). i.token)

fields-spaces : (s rest : Text) → AllSpace s → fields (s ++ rest) ≡ fields rest
unfolding fields
fields-spaces [] rest h = refl
fields-spaces (c ∷ s) rest h = ground (arith, fields-spaces s rest)

pub AllSpace-fields : (s : Text) → AllSpace s → fields s ≡ []
unfolding fields
AllSpace-fields [] h = refl
AllSpace-fields (c ∷ s) h = ground (arith, AllSpace-fields s)

-- What `split` makes of a run that the rest does not go on with.
split-run :
    (w rest : Text)
    → every (λ d. not (is_space d)) w ≡ true
    → (split rest).0 ≡ []
    → split (w ++ rest) ≡ (w, (split rest).1)
unfolding split
split-run [] rest h e = rw (← e)
split-run (c ∷ w) rest h e = ground (arith, split-run w rest)

-- The rest of a line that starts with white space, or is over.
abbrev StartsGap : Text → Type 0
StartsGap rest = (split rest).0 ≡ []

fields-token : (w rest : Text) → IsToken w → StartsGap rest → fields (w ++ rest) ≡ w ∷ fields rest
unfolding fields
fields-token [] rest h e = absurd h
fields-token (c ∷ w) rest h e = rw (split-run (c ∷ w) rest h e, e)

StartsGap-space : (c : ℕ) (rest : Text) → is_space c ≡ true → StartsGap (c ∷ rest)
unfolding split
StartsGap-space c rest h = rw h

StartsGap-lay_out :
    (items : List Item) (trail : Text)
    → All IsItem items
    → AllSpace trail
    → StartsGap (lay_out items trail)
unfolding split
StartsGap-lay_out [] [] h t = refl
StartsGap-lay_out [] (c ∷ trail) h t = ground arith
StartsGap-lay_out (i ∷ items) trail h t = StartsGap-space i.gap _ h.0.0

fields-lay_out_items :
    (items : List Item) (trail : Text)
    → All IsItem items
    → AllSpace trail
    → fields (lay_out items trail) ≡ tokens_of items
fields-lay_out_items [] trail h t = AllSpace-fields trail t
fields-lay_out_items (i ∷ items) trail h t = rw (
  fields-space i.gap (i.more ++ (i.token ++ lay_out items trail)) h.0.0,
  fields-spaces i.more (i.token ++ lay_out items trail) h.0.1,
  fields-token i.token (lay_out items trail) h.0.2 (StartsGap-lay_out items trail h.1 t),
  fields-lay_out_items items trail h.1 t,
)

-- However the tokens of a line are spaced, `fields` returns them, in order and nothing else.
pub fields-lay_out :
    (lead w : Text) (items : List Item) (trail : Text)
    → AllSpace lead
    → IsToken w
    → All IsItem items
    → AllSpace trail
    → fields (lead ++ (w ++ lay_out items trail)) ≡ w ∷ tokens_of items
fields-lay_out lead w items trail l h hs t = rw (
  fields-spaces lead (w ++ lay_out items trail) l,
  fields-token w (lay_out items trail) h (StartsGap-lay_out items trail hs t),
  fields-lay_out_items items trail hs t,
)

add_word-IsToken :
    (w : Text) (words : List Text)
    → every (λ d. not (is_space d)) w ≡ true
    → All IsToken words
    → All IsToken (add_word w words)
add_word-IsToken [] words h hs = hs
add_word-IsToken (c ∷ w) words h hs = (h, hs)

split-IsToken :
    (s : Text) → (every (λ d. not (is_space d)) (split s).0 ≡ true) × All IsToken (split s).1
unfolding split
split-IsToken [] = (refl, tt)
split-IsToken (c ∷ s) = elim (Bool-cases (is_space c)) [
  | inl h ↦ rw h (refl, add_word-IsToken _ _ (split-IsToken s).0 (split-IsToken s).1)
  | inr h ↦ rw h (rw h (split-IsToken s).0, (split-IsToken s).1)
]

-- Every token that `fields` returns is not empty and holds no white space.
pub fields-IsToken : (s : Text) → All IsToken (fields s)
unfolding fields
fields-IsToken s = add_word-IsToken _ _ (split-IsToken s).0 (split-IsToken s).1

-- A line has no tokens exactly if all of it is white space.
pub fields-nil : (s : Text) → fields s ≡ [] → AllSpace s
unfolding fields
fields-nil [] h = refl
fields-nil (c ∷ s) h = elim (Bool-cases (is_space c)) [
  | inl e ↦ rw e (fields-nil s (rw e at h))
  | inr e ↦ ground arith
]
