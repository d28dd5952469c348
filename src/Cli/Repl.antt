-- ===== src/Cli/Repl.antt =====
-- AppCli.replLoop (cli_app.go), which has no context: its cancellation does not end the loop. The lines are those that ReadString gives until it fails.
use in_memory_base.Base.{ℕ, ◌+◌, Bool, ◌&&◌, leb, List, [], ◌∷◌, map, if◌then◌else◌}
use in_memory_base.Base.Text.{Text, runes, text_eq}
use in_memory_base.Base.Errors.{Result, ok, err}
use in_memory_base.Compute.Fields.{trim_space}

-- `strings.EqualFold(request, "exit")`: no rune but the two cases of a letter folds to one of `exit`.
fold_rune : ℕ → ℕ
fold_rune c = if leb b'A' c && leb c b'Z' then c + 32 else c

unfoldable pub is_exit : Text → Bool
unfolding fold_rune
is_exit request = text_eq (map fold_rune request) (runes "exit")

-- What the loop does: the requests it hands to SendAndReceive, whether that succeeds or not, the responses it prints, and what the server side is
-- after it.
pub record Transcript (S : Type 0) : Type 0 where
  pub attempted : List Text
  pub printed : List Text
  pub state : S

module _ {S : Type 0} (send_and_receive : Text → S → Result Text × S) where
  unfoldable pub after_response : Text → Result Text → Transcript S → Transcript S
  after_response request (ok response) rest = record {
    attempted = request ∷ rest.attempted;
    printed = response ∷ rest.printed;
    state = rest.state;
  }
  after_response request (err e) rest = record rest { attempted = request ∷ rest.attempted }

  -- AppCli.replLoop
  unfoldable pub repl_loop : List Text → S → Transcript S
  unfolding after_response
  repl_loop [] s = record { attempted = []; printed = []; state = s }
  repl_loop (line ∷ lines) s =
      let request = trim_space line in
      let same = repl_loop lines s in
      let (response, s') = send_and_receive request s in
      let after = after_response request response (repl_loop lines s') in
      if text_eq request []
      then same
      else if is_exit request
      then record { attempted = []; printed = []; state = s }
      else after
