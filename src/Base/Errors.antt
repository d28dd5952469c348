-- ===== src/Base/Errors.antt =====
-- The sentinel errors of the packages, as one type: `errors.Is` on them is equality. `io` stands
-- for any error of the operating system or of gob that a function passes on as it got it.
use mathlib.Core.Path.{◌≡◌, refl}
use mathlib.Core.Logic.{◌⊎◌, inl, inr}

pub data Error : Type 0 where
  invalid_command invalid_argument empty_command : Error  -- internal/database/compute/errors.go
  key_not_found : Error  -- internal/database/storage/errors.go
  failed_generate_lsn create_wal : Error  -- storage/engine/in_memory/engine.go
  failed_to_read_directory failed_open_last_segment failed_decode apply_record : Error  -- wal/wal.go
  failed_save_file failed_file_create : Error  -- filesystem/segment.go
  failed_resolve_segment_path invalid_working_folder failed_to_create_directory : Error
  invalid_logger invalid_config invalid_max_conn invalid_buffer_size : Error
  formatted : Error  -- an error that fmt.Errorf or errors.New makes where it is returned
  io : Error

-- `(A, error)` of Go, where the value counts only if the error is nil.
pub data Result {ℓ} (A : Type ℓ) : Type ℓ where
  ok : A → Result A
  err : Error → Result A

infixl 5 ◌>>=◌
abbrev pub ◌>>=◌ {ℓ κ} : {A : Type ℓ} {B : Type κ} → Result A → (A → Result B) → Result B
ok a >>= f = f a
err e >>= f = err e

pub Result-cases {ℓ} :
    {A : Type ℓ} (r : Result A) → ((a : A) × (r ≡ ok a)) ⊎ ((e : Error) × (r ≡ err e))
Result-cases (ok a) = inl (a, refl)
Result-cases (err e) = inr (e, refl)
