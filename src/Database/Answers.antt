-- ===== src/Database/Answers.antt =====
-- What DatabaseHandler (database.go) does with a line, by what ParseAndValidate makes of it.
use mathlib.Core.Path.{subst}
use mathlib.Core.Logic.{◌⊎◌}
use in_memory_base.Base.{
  ℕ, ◌≡◌, ◌≢◌, refl, sym, ap, true, false, List, [], ◌∷◌, Bool-cases, inl, inr,
}
use in_memory_base.Base.Text.{Text, runes, text_eq, text_eq_iff}
use in_memory_base.Base.Errors.{Result, ok, err}
use in_memory_base.Compute.Chars.{command_set, command_get, command_del}
use in_memory_base.Compute.Parse.{parse_and_validate}
use in_memory_base.Compute.Grammar.{parse_and_validate-IsCommand}
use in_memory_base.Concurrency.Promise.{Outcome, ◌>>=◌, done}
use in_memory_base.Database.Handler.{database_handler, dispatch, handle_set, handle_get, handle_del}
use in_memory_base.Storage.{StorageLayer}

-- The outcome is some answer, and the state is as it was.
abbrev pub IsUnchanged : {S : Type 0} → Outcome (Text × S) → S → Type 0
IsUnchanged outcome s = (answer : Text) × (outcome ≡ done (answer, s))

-- Neither `SET key value` nor `DEL key`.
abbrev pub IsNoWrite : Result (List Text) → Type 0
IsNoWrite parsed =
    ((key value : Text) → parsed ≢ ok (command_set ∷ key ∷ value ∷ []))
    × ((key : Text) → parsed ≢ ok (command_del ∷ key ∷ []))

bind-done :
    {A B : Type 0} {o : Outcome A} {a : A} (f : A → Outcome B) → o ≡ done a → (o >>= f) ≡ f a
bind-done f e = ap (λ o. o >>= f) e

module _ {S : Type 0} (layer : StorageLayer S) where
  -- If the line is `GET key`, Get of the layer returns and leaves the state as it is.
  abbrev pub ReadsOnly : Result (List Text) → S → Type 0
  ReadsOnly parsed s =
      (key : Text)
      → parsed ≡ ok (command_get ∷ key ∷ [])
      → (r : Result Text) × (layer.get key s ≡ done (r, s))

  pub dispatch-set :
      (arguments : List Text) (s : S)
      → dispatch layer (ok (command_set ∷ arguments)) s
        ≡ handle_set layer (command_set ∷ arguments) s
  unfolding dispatch text_eq
  dispatch-set arguments s = refl

  pub dispatch-get :
      (arguments : List Text) (s : S)
      → dispatch layer (ok (command_get ∷ arguments)) s
        ≡ handle_get layer (command_get ∷ arguments) s
  unfolding dispatch text_eq
  dispatch-get arguments s = refl

  pub dispatch-del :
      (arguments : List Text) (s : S)
      → dispatch layer (ok (command_del ∷ arguments)) s
        ≡ handle_del layer (command_del ∷ arguments) s
  unfolding dispatch text_eq
  dispatch-del arguments s = refl

  handle_set-IsUnchanged :
      (arguments : List Text) (s : S)
      → IsNoWrite (ok (command_set ∷ arguments))
      → IsUnchanged (handle_set layer (command_set ∷ arguments) s) s
  unfolding handle_set
  handle_set-IsUnchanged [] s h = (_, refl)
  handle_set-IsUnchanged (key ∷ []) s h = (_, refl)
  handle_set-IsUnchanged (key ∷ value ∷ []) s h = absurd (h.0 key value refl)
  handle_set-IsUnchanged (a ∷ b ∷ c ∷ rest) s h = (_, refl)

  handle_del-IsUnchanged :
      (arguments : List Text) (s : S)
      → IsNoWrite (ok (command_del ∷ arguments))
      → IsUnchanged (handle_del layer (command_del ∷ arguments) s) s
  unfolding handle_del
  handle_del-IsUnchanged [] s h = (_, refl)
  handle_del-IsUnchanged (key ∷ []) s h = absurd (h.1 key refl)
  handle_del-IsUnchanged (a ∷ b ∷ rest) s h = (_, refl)

  handle_get-IsUnchanged :
      (arguments : List Text) (s : S)
      → ReadsOnly (ok (command_get ∷ arguments)) s
      → IsUnchanged (handle_get layer (command_get ∷ arguments) s) s
  unfolding handle_get
  handle_get-IsUnchanged [] s g = (_, refl)
  handle_get-IsUnchanged (key ∷ []) s g = let (r, e) = g key refl in (_, bind-done _ e)
  handle_get-IsUnchanged (a ∷ b ∷ rest) s g = (_, refl)

  pub dispatch_other :
      (name : Text) (arguments : List Text) (s : S)
      → text_eq name command_set ≡ false
      → text_eq name command_get ≡ false
      → text_eq name command_del ≡ false
      → dispatch layer (ok (name ∷ arguments)) s ≡ done (runes "invalid command", s)
  unfolding dispatch
  dispatch_other name arguments s a b c = rw (a, b, c) refl

  abbrev Keeps : List Text → S → Type 0
  Keeps tokens s =
      IsNoWrite (ok tokens) → ReadsOnly (ok tokens) s → IsUnchanged (dispatch layer (ok tokens) s) s

  dispatch_name :
      (name : Text) (arguments : List Text) (s : S)
      → (text_eq name command_set ≡ true) ⊎ (text_eq name command_set ≡ false)
      → (text_eq name command_get ≡ true) ⊎ (text_eq name command_get ≡ false)
      → (text_eq name command_del ≡ true) ⊎ (text_eq name command_del ≡ false)
      → Keeps (name ∷ arguments) s
  dispatch_name name arguments s (inl a) g d =
      subst (λ w. Keeps (w ∷ arguments) s) (sym ((text_eq_iff name command_set).0 a))
        (λ h g. rw (dispatch-set arguments s) (handle_set-IsUnchanged arguments s h))
  dispatch_name name arguments s (inr a) (inl g) d =
      subst (λ w. Keeps (w ∷ arguments) s) (sym ((text_eq_iff name command_get).0 g))
        (λ h g. rw (dispatch-get arguments s) (handle_get-IsUnchanged arguments s g))
  dispatch_name name arguments s (inr a) (inr g) (inl d) =
      subst (λ w. Keeps (w ∷ arguments) s) (sym ((text_eq_iff name command_del).0 d))
        (λ h g. rw (dispatch-del arguments s) (handle_del-IsUnchanged arguments s h))
  dispatch_name name arguments s (inr a) (inr g) (inr d) =
      λ h r. (runes "invalid command", dispatch_other name arguments s a g d)

  dispatch-IsUnchanged :
      (parsed : Result (List Text)) (s : S)
      → parsed ≢ ok []
      → IsNoWrite parsed
      → ReadsOnly parsed s
      → IsUnchanged (dispatch layer parsed s) s
  dispatch-IsUnchanged (err e) s some_token h =
      λ g. (runes "failed to parse command", unfold dispatch in refl)
  dispatch-IsUnchanged (ok []) s some_token h = absurd (some_token refl)
  dispatch-IsUnchanged (ok (name ∷ arguments)) s some_token h =
      dispatch_name name arguments s (Bool-cases (text_eq name command_set))
        (Bool-cases (text_eq name command_get)) (Bool-cases (text_eq name command_del)) h

  -- A line that ParseAndValidate takes neither for SET with a key and a value, nor for DEL with a key,
  -- is answered, without waiting or a panic, and leaves the state as it was: where it is GET with a
  -- key, if Get of the layer under the database returns and leaves the state; and else, a wrong number
  -- of arguments and an unknown command included, whatever the layer does.
  pub database_handler-IsUnchanged :
      (upper : ℕ → ℕ) (raw : Text) (s : S)
      → IsNoWrite (parse_and_validate upper raw)
      → ReadsOnly (parse_and_validate upper raw) s
      → IsUnchanged (database_handler layer upper raw s) s
  unfolding database_handler
  database_handler-IsUnchanged upper raw s =
      dispatch-IsUnchanged (parse_and_validate upper raw) s
        (parse_and_validate-IsCommand upper raw [])
