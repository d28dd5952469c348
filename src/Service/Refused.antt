-- ===== src/Service/Refused.antt =====
-- The lines that DatabaseHandler (database.go) answers on its own: a wrong number of arguments, an
-- unknown command, and what ParseAndValidate refuses.
use in_memory_base.Base.{◌≡◌, ◌≢◌, refl, ◌∙◌, false, List, [], ◌∷◌, Bool-cases, inl, inr}
use in_memory_base.Base.Text.{Text, runes, text_eq, text_eq_iff}
use in_memory_base.Base.Errors.{Error, Result, ok, err}
use in_memory_base.Compute.Chars.{command_set, command_get, command_del}
use in_memory_base.Concurrency.Promise.{done}
use in_memory_base.Database.Handler.{dispatch, handle_set, handle_get, handle_del}
use in_memory_base.Database.Answers.{dispatch-set, dispatch-get, dispatch-del, dispatch_other}
use in_memory_base.Storage.{StorageLayer}
use in_memory_base.Service.Spec.{IsPair, IsSingle}

differ : (a b : Text) → a ≢ b → text_eq a b ≡ false
differ a b h = elim (Bool-cases (text_eq a b)) [
  | inl e ↦ absurd (h ((text_eq_iff a b).0 e))
  | inr e ↦ e
]

module _ {S : Type 0} (layer : StorageLayer S) where
  abbrev Says : Result (List Text) → Text → Type 0
  Says parsed answer = (s : S) → dispatch layer parsed s ≡ done (answer, s)

  handle_set_wrong :
      (arguments : List Text) (s : S)
      → ¬ IsPair arguments
      → handle_set layer (command_set ∷ arguments) s ≡ done (runes "must be two arguments", s)
  unfolding handle_set
  handle_set_wrong [] s h = refl
  handle_set_wrong (a ∷ []) s h = refl
  handle_set_wrong (a ∷ b ∷ []) s h = absurd (h (a, b, refl))
  handle_set_wrong (a ∷ b ∷ c ∷ rest) s h = refl

  handle_get_wrong :
      (arguments : List Text) (s : S)
      → ¬ IsSingle arguments
      → handle_get layer (command_get ∷ arguments) s ≡ done (runes "must be one argument", s)
  unfolding handle_get
  handle_get_wrong [] s h = refl
  handle_get_wrong (a ∷ []) s h = absurd (h (a, refl))
  handle_get_wrong (a ∷ b ∷ rest) s h = refl

  handle_del_wrong :
      (arguments : List Text) (s : S)
      → ¬ IsSingle arguments
      → handle_del layer (command_del ∷ arguments) s ≡ done (runes "must be one argument", s)
  unfolding handle_del
  handle_del_wrong [] s h = refl
  handle_del_wrong (a ∷ []) s h = absurd (h (a, refl))
  handle_del_wrong (a ∷ b ∷ rest) s h = refl

  pub Says-set :
      (arguments : List Text)
      → ¬ IsPair arguments
      → Says (ok (command_set ∷ arguments)) (runes "must be two arguments")
  Says-set arguments h s = dispatch-set layer arguments s ∙ handle_set_wrong arguments s h

  pub Says-get :
      (arguments : List Text)
      → ¬ IsSingle arguments
      → Says (ok (command_get ∷ arguments)) (runes "must be one argument")
  Says-get arguments h s = dispatch-get layer arguments s ∙ handle_get_wrong arguments s h

  pub Says-del :
      (arguments : List Text)
      → ¬ IsSingle arguments
      → Says (ok (command_del ∷ arguments)) (runes "must be one argument")
  Says-del arguments h s = dispatch-del layer arguments s ∙ handle_del_wrong arguments s h

  pub Says-other :
      (name : Text) (arguments : List Text)
      → name ≢ command_set
      → name ≢ command_get
      → name ≢ command_del
      → Says (ok (name ∷ arguments)) (runes "invalid command")
  Says-other name arguments a b c s =
      dispatch_other layer name arguments s (differ name command_set a) (differ name command_get b)
        (differ name command_del c)

  pub Says-failed : (e : Error) → Says (err e) (runes "failed to parse command")
  unfolding dispatch
  Says-failed e s = refl
