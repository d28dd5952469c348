-- ===== src/Tests/Service.antt =====
-- The program as a whole at concrete inputs.
use in_memory_base.Base.{◌≡◌, ◌≢◌, refl, ap, true, false, List, [], ◌∷◌, arith}
use in_memory_base.Base.Text.{Text, runes, text_eq, text_eq_iff}
use in_memory_base.Base.Errors.{Result, ok}
use in_memory_base.Compute.Chars.{
  is_upper_letter, is_any_letter, is_digit, is_punctuation, validate_command, validate_argument,
}
use in_memory_base.Compute.Fields.{is_space, upper_rune, fields, trim_space, split}
use in_memory_base.Compute.Parse.{parse_and_validate, validate, validate_tokens}
use in_memory_base.Database.Answers.{
  IsNoWrite, ReadsOnly, IsUnchanged, database_handler-IsUnchanged,
}
use in_memory_base.Database.Handler.{database_handler}
use in_memory_base.HashTable.{new_hash_table}
use in_memory_base.Service.Served.{idle, engine_layer}
use in_memory_base.Service.DelGet.{IsDeleted, serve-IsDeleted}
use in_memory_base.Service.SetGet.{IsServed, serve-IsServed}
use in_memory_base.Storage.{storage}
use in_memory_base.Storage
use in_memory_base.Tests.Data.{gob, os, config, output}

set_parsed :
    parse_and_validate (λ c. c) (runes "set a x") ≡ ok (runes "SET" ∷ runes "a" ∷ runes "x" ∷ [])
unfolding parse_and_validate validate validate_tokens validate_command validate_argument
    is_upper_letter is_any_letter is_digit is_punctuation is_space upper_rune fields trim_space
    split
set_parsed = refl

get_parsed : parse_and_validate (λ c. c) (runes "get a") ≡ ok (runes "GET" ∷ runes "a" ∷ [])
unfolding parse_and_validate validate validate_tokens validate_command validate_argument
    is_upper_letter is_any_letter is_digit is_punctuation is_space upper_rune fields trim_space
    split
get_parsed = refl

serve-IsServed_example :
    IsServed gob os false
      (λ c. c)
      (runes "set a x")
      (runes "a")
      (runes "x")
      config
      0
      output
      new_hash_table
      []
serve-IsServed_example =
    serve-IsServed gob os false (λ c. c) (runes "set a x") (runes "a") (runes "x") config 0 output
      new_hash_table [] set_parsed (omega arith)

name_of : Result (List Text) → Text
name_of (ok (name ∷ arguments)) = name
name_of _ = []

names_differ : (a b : List Text) → ok (runes "GET" ∷ a) ≢ ok (runes "DEL" ∷ b)
unfolding name_of text_eq
names_differ a b h =
    let e : false ≡ true = (text_eq_iff (runes "GET") (runes "DEL")).1 (ap name_of h) in cc

get-IsNoWrite : IsNoWrite (parse_and_validate (λ c. c) (runes "get a"))
get-IsNoWrite =
    rw get_parsed ((λ key value h. cc h), λ key. names_differ (runes "a" ∷ []) (key ∷ []))

get-ReadsOnly :
    ReadsOnly
      (storage (engine_layer gob os false))
      (parse_and_validate (λ c. c) (runes "get a"))
      (idle config 0 output new_hash_table [])
unfolding Storage.get
get-ReadsOnly key h = (_, refl)

database_handler-IsUnchanged_example :
    IsUnchanged
      (database_handler
        (storage (engine_layer gob os false))
        (λ c. c)
        (runes "get a")
        (idle config 0 output new_hash_table []))
      (idle config 0 output new_hash_table [])
database_handler-IsUnchanged_example =
    database_handler-IsUnchanged (storage (engine_layer gob os false)) (λ c. c) (runes "get a")
      (idle config 0 output new_hash_table []) get-IsNoWrite get-ReadsOnly

del_parsed : parse_and_validate (λ c. c) (runes "del a") ≡ ok (runes "DEL" ∷ runes "a" ∷ [])
unfolding parse_and_validate validate validate_tokens validate_command validate_argument
    is_upper_letter is_any_letter is_digit is_punctuation is_space upper_rune fields trim_space
    split
del_parsed = refl

serve-IsDeleted_example :
    IsDeleted gob os true (λ c. c) (runes "del a") (runes "a") config 0 output new_hash_table []
serve-IsDeleted_example =
    serve-IsDeleted gob os true (λ c. c) (runes "del a") (runes "a") config 0 output new_hash_table
      [] del_parsed (omega arith)
