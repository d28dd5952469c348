-- ===== src/Network/Connection.antt =====
-- TCPServer.HandleConnections (tcp_server.go): the loop over the requests of one connection.
use in_memory_base.Base.{Bool, not, ◌&&◌, List, [], ◌∷◌, Option, none, some, if◌then◌else◌}
use in_memory_base.Base.Int.{pos, eq_ℤ}
use in_memory_base.Base.Text.{Text}
use in_memory_base.Concurrency.Promise.{Outcome, done, blocked, panics}
use in_memory_base.Network.Option.{ServerSettings}

-- How the connection answers in one round of the loop: what Read returned, or `none` for an error. Any
-- text may come here, also those that are longer than the `bufferSize` bytes that one Read can return.
pub record Round : Type 0 where
  pub sets_read_deadline : Bool
  pub received : Option Text
  pub sets_write_deadline : Bool
  pub writes : Bool

-- The connection is closed, or the loop waits in Read, or the handler waits for good.
pub data Ending : Type 0 where
  closed : Ending
  reads : Ending
  waits : Ending

pub record Session (S : Type 0) : Type 0 where
  pub sent : List Text
  pub state : S
  pub ending : Ending

module _ {S : Type 0} (server : ServerSettings) (handler : Text → S → Outcome (Text × S)) where
  ends : Ending → S → Session S
  ends ending s = record { sent = []; state = s; ending = ending }

  sends : Text → Session S → Session S
  sends response session = record session { sent = response ∷ session.sent }

  -- The timeout is on and the deadline is refused.
  no_deadline : Bool → Bool
  no_deadline sets = not (eq_ℤ server.idle_timeout (pos 0)) && not sets

  -- What follows `handler(ctx, query)`. A panic of the handler is recovered, and the deferred function
  -- closes the connection; the state is then taken to be that before the request.
  unfoldable pub after_handler : Round → (S → Session S) → S → Outcome (Text × S) → Session S
  unfolding ends sends no_deadline
  after_handler round rest s (done (response, s')) =
      if no_deadline round.sets_write_deadline
      then ends closed s'
      else if round.writes
      then sends response (rest s')
      else ends closed s'
  after_handler round rest s blocked = ends waits s
  after_handler round rest s panics = ends closed s

  unfoldable pub after_read : Round → (S → Session S) → S → Option Text → Session S
  unfolding ends after_handler
  after_read round rest s none = ends closed s
  after_read round rest s (some query) = after_handler round rest s (handler query s)

  -- TCPServer.HandleConnections, where the rounds so far are given.
  unfoldable pub handle_connections : List Round → S → Session S
  unfolding ends no_deadline after_read after_handler sends
  handle_connections [] s = ends reads s
  handle_connections (round ∷ rounds) s =
      if no_deadline round.sets_read_deadline
      then ends closed s
      else after_read round (handle_connections rounds) s round.received
