-- ===== src/Cli/Requests.antt =====
-- What the command line client sends (cli_app.go).
use in_memory_base.Base.{◌≡◌, refl, List, [], ◌∷◌, if◌then◌else◌, Bool-cases, inl, inr}
use in_memory_base.Base.Text.{Text, text_eq}
use in_memory_base.Base.Errors.{Result, ok, err}
use in_memory_base.Compute.Fields.{trim_space}
use in_memory_base.Cli.Repl.{Transcript, is_exit, after_response, repl_loop}

-- The requests in some lines: trimmed, without the empty ones, up to the first `exit`.
abbrev pub requests_in : List Text → List Text
requests_in [] = []
requests_in (line ∷ lines) =
    let rest = requests_in lines in
    if text_eq (trim_space line) []
    then rest
    else if is_exit (trim_space line)
    then []
    else trim_space line ∷ rest

module _ {S : Type 0} (send_and_receive : Text → S → Result Text × S) where
  after_response_attempted :
      (request : Text) (r : Result Text) (rest : Transcript S)
      → (after_response send_and_receive request r rest).attempted ≡ request ∷ rest.attempted
  unfolding after_response
  after_response_attempted request (ok response) rest = refl
  after_response_attempted request (err e) rest = refl

  repl_loop-line :
      (line : Text) (lines : List Text) (s : S)
      → (repl_loop send_and_receive (line ∷ lines) s).attempted ≡ (
          if text_eq (trim_space line) []
          then (repl_loop send_and_receive lines s).attempted
          else if is_exit (trim_space line)
          then []
          else trim_space line
            ∷ (repl_loop send_and_receive lines (send_and_receive (trim_space line) s).1).attempted)
  repl_loop-line line lines s =
      let response = send_and_receive (trim_space line) s in
      elim (Bool-cases (text_eq (trim_space line) [])) [
        | inl e ↦ unfold repl_loop in rw e refl
        | inr e ↦ elim (Bool-cases (is_exit (trim_space line))) [
          | inl x ↦ unfold repl_loop in rw (e, x) refl
          | inr x ↦
              unfold repl_loop in
              rw (e, x)
                (after_response_attempted (trim_space line) response.0
                  (repl_loop send_and_receive lines response.1))
        ]
      ]

  -- SendAndReceive is called for the trimmed lines of the input that are not empty, in their order, up
  -- to the first one that is `exit` in any case, once for each, whether it succeeds or not.
  pub repl_loop-requests_in :
      (lines : List Text) (s : S)
      → (repl_loop send_and_receive lines s).attempted ≡ requests_in lines
  repl_loop-requests_in [] s = unfold repl_loop in refl
  repl_loop-requests_in (line ∷ lines) s =
      rw
        (
          repl_loop-line line lines s,
          repl_loop-requests_in lines s,
          repl_loop-requests_in lines (send_and_receive (trim_space line) s).1,
        )
        refl
