-- ===== src/Service/Spec.antt =====
-- What a client can rely on: one map from keys to values, of which an acknowledged write may come to be
-- seen a little later, and a line for each operation on it (internal/database/database.go).
use mathlib.Core.Path.{subst}
use mathlib.Core.Logic.{◌⊎◌}
use in_memory_base.Base.{
  ℕ, ◌≡◌, ◌≢◌, refl, sym, List, [], ◌∷◌, ◌++◌, Option, none, some, if◌then◌else◌, Bool-cases, inl,
  inr,
}
use in_memory_base.Base.Text.{Text, runes, text_eq, text_eq_iff}
use in_memory_base.Base.Errors.{Error, Result, ok, err}
use in_memory_base.Compute.Chars.{command_set, command_get, command_del}
use in_memory_base.Compute.Parse.{parse_and_validate}

-- The abstract store.
abbrev pub Store : Type 0
Store = Text → Option Text

abbrev pub put : Text → Text → Store → Store
put key value store k = if text_eq key k then some value else store k

abbrev pub remove : Text → Store → Store
remove key store k = if text_eq key k then none else store k

abbrev pub IsPair : List Text → Type 0
IsPair arguments = (key : Text) × (value : Text) × (arguments ≡ key ∷ value ∷ [])

abbrev pub IsSingle : List Text → Type 0
IsSingle arguments = (key : Text) × (arguments ≡ key ∷ [])

-- What a reader may see, and what the acknowledged writes make of it: a write is acknowledged before
-- it is seen, and seen before the next one is acknowledged.
pub record View : Type 0 where
  pub seen : Store
  pub latest : Store

abbrev pub settled : Store → View
settled store = record { seen = store; latest = store }

-- A reply to what was parsed, and the view after it. A write that is refused changes nothing; when the
-- disk refuses one is not said. What is acknowledged comes to be seen at any time.
pub data Replies : Result (List Text) → View → Text → View → Type 0 where
  catches_up :
      (parsed : Result (List Text)) (view after : View) (reply : Text)
      → Replies parsed (settled view.latest) reply after
      → Replies parsed view reply after
  set_done :
      (key value : Text) (view : View)
      → Replies
          (ok (command_set ∷ key ∷ value ∷ []))
          view
          (runes "OK")
          (record { seen = view.latest; latest = put key value view.latest })
  set_failed :
      (key value : Text) (view : View)
      → Replies
          (ok (command_set ∷ key ∷ value ∷ []))
          view
          (runes "failed SET")
          (settled view.latest)
  del_done :
      (key : Text) (view : View)
      → Replies
          (ok (command_del ∷ key ∷ []))
          view
          (runes "DELETED")
          (record { seen = view.latest; latest = remove key view.latest })
  del_failed :
      (key : Text) (view : View)
      → Replies (ok (command_del ∷ key ∷ [])) view (runes "failed DEL") (settled view.latest)
  get_found :
      (key value : Text) (view : View)
      → view.seen key ≡ some value
      → Replies (ok (command_get ∷ key ∷ [])) view (runes "VALUE " ++ value) view
  get_missing :
      (key : Text) (view : View)
      → view.seen key ≡ none
      → Replies (ok (command_get ∷ key ∷ [])) view (runes "NOT_FOUND") view
  wrong_set :
      (arguments : List Text) (view : View)
      → ¬ IsPair arguments
      → Replies (ok (command_set ∷ arguments)) view (runes "must be two arguments") view
  wrong_get :
      (arguments : List Text) (view : View)
      → ¬ IsSingle arguments
      → Replies (ok (command_get ∷ arguments)) view (runes "must be one argument") view
  wrong_del :
      (arguments : List Text) (view : View)
      → ¬ IsSingle arguments
      → Replies (ok (command_del ∷ arguments)) view (runes "must be one argument") view
  unknown :
      (name : Text) (arguments : List Text) (view : View)
      → name ≢ command_set
      → name ≢ command_get
      → name ≢ command_del
      → Replies (ok (name ∷ arguments)) view (runes "invalid command") view
  not_parsed :
      (e : Error) (view : View) → Replies (err e) view (runes "failed to parse command") view

-- A conversation of lines and replies.
pub data Conversation (upper : ℕ → ℕ) : List Text → View → List Text → View → Type 0 where
  silence : (view : View) → Conversation upper [] view [] view
  says :
      (line reply : Text) (lines replies : List Text) (view middle after : View)
      → Replies (parse_and_validate upper line) view reply middle
      → Conversation upper lines middle replies after
      → Conversation upper (line ∷ lines) view (reply ∷ replies) after

-- The kinds of lines.
pub data Line : Result (List Text) → Type 0 where
  sets : (key value : Text) → Line (ok (command_set ∷ key ∷ value ∷ []))
  gets : (key : Text) → Line (ok (command_get ∷ key ∷ []))
  dels : (key : Text) → Line (ok (command_del ∷ key ∷ []))
  sets_wrongly : (arguments : List Text) → ¬ IsPair arguments → Line (ok (command_set ∷ arguments))
  gets_wrongly :
      (arguments : List Text) → ¬ IsSingle arguments → Line (ok (command_get ∷ arguments))
  dels_wrongly :
      (arguments : List Text) → ¬ IsSingle arguments → Line (ok (command_del ∷ arguments))
  asks_else :
      (name : Text) (arguments : List Text)
      → name ≢ command_set
      → name ≢ command_get
      → name ≢ command_del
      → Line (ok (name ∷ arguments))
  fails : (e : Error) → Line (err e)

set-Line : (arguments : List Text) → Line (ok (command_set ∷ arguments))
set-Line [] = sets_wrongly [] (λ (k, v, e). cc)
set-Line (a ∷ []) = sets_wrongly (a ∷ []) (λ (k, v, e). cc)
set-Line (a ∷ b ∷ []) = sets a b
set-Line (a ∷ b ∷ c ∷ rest) = sets_wrongly (a ∷ b ∷ c ∷ rest) (λ (k, v, e). cc)

get-Line : (arguments : List Text) → Line (ok (command_get ∷ arguments))
get-Line [] = gets_wrongly [] (λ (k, e). cc)
get-Line (a ∷ []) = gets a
get-Line (a ∷ b ∷ rest) = gets_wrongly (a ∷ b ∷ rest) (λ (k, e). cc)

del-Line : (arguments : List Text) → Line (ok (command_del ∷ arguments))
del-Line [] = dels_wrongly [] (λ (k, e). cc)
del-Line (a ∷ []) = dels a
del-Line (a ∷ b ∷ rest) = dels_wrongly (a ∷ b ∷ rest) (λ (k, e). cc)

text_cases : (a b : Text) → (b ≡ a) ⊎ (a ≢ b)
text_cases a b = elim (Bool-cases (text_eq a b)) [
  | inl e ↦ inl (sym ((text_eq_iff a b).0 e))
  | inr e ↦ inr (λ p. cc (rw ((text_eq_iff a b).1 p) at e))
]

named-Line : (name : Text) (arguments : List Text) → Line (ok (name ∷ arguments))
named-Line name arguments = elim (text_cases name command_set) [
  | inl s ↦ subst (λ w. Line (ok (w ∷ arguments))) s (set-Line arguments)
  | inr s ↦ elim (text_cases name command_get) [
    | inl g ↦ subst (λ w. Line (ok (w ∷ arguments))) g (get-Line arguments)
    | inr g ↦ elim (text_cases name command_del) [
      | inl d ↦ subst (λ w. Line (ok (w ∷ arguments))) d (del-Line arguments)
      | inr d ↦ asks_else name arguments s g d
    ]
  ]
]

-- Every line is of one of these kinds.
pub Line-of : (parsed : Result (List Text)) → parsed ≢ ok [] → Line parsed
Line-of (err e) some_token = fails e
Line-of (ok []) some_token = absurd (some_token refl)
Line-of (ok (name ∷ arguments)) some_token = named-Line name arguments
