-- ===== src/Network/Replies.antt =====
-- What a client of HandleConnections (tcp_server.go) gets: replies in the order of its requests.
use in_memory_base.Base.{
  map, ◌≡◌, refl, ap, Bool, true, false, List, [], ◌∷◌, ◌++◌, Option, none, some, if◌then◌else◌,
  Bool-cases, inl, inr,
}
use in_memory_base.Base.Int.{eq_ℤ, pos}
use in_memory_base.Base.Text.{Text}
use in_memory_base.Concurrency.Promise.{Outcome, done, blocked, panics}
use in_memory_base.Network.Option.{ServerSettings}
use in_memory_base.Network.Connection.{
  Round, Session, reads, after_handler, after_read, handle_connections,
}

abbrev pub from : Option Text → List Text → List Text
from none requests = []
from (some query) requests = query ∷ requests

-- The requests that a connection receives, up to the first error of Read.
abbrev pub received_in : List Round → List Text
received_in [] = []
received_in (round ∷ rounds) = from round.received (received_in rounds)

-- The handler answers some requests, one after the other, with the replies.
pub data Serves {S : Type 0} (handler : Text → S → Outcome (Text × S))
    : List Text → S → List Text → S → Type 0 where
  no_more : (s : S) → Serves handler [] s [] s
  serves :
      (query response : Text) (s middle after : S) (queries responses : List Text)
      → handler query s ≡ done (response, middle)
      → Serves handler queries middle responses after
      → Serves handler (query ∷ queries) s (response ∷ responses) after

-- What was sent are the replies to the first requests, in their order.
pub record HasReplied {S : Type 0} (handler : Text → S → Outcome (Text × S)) (requests : List Text)
    (s : S) (sent : List Text) : Type 0 where
  pub answered : List Text
  pub others : List Text
  pub split : requests ≡ answered ++ others
  pub after : S
  pub served : Serves handler answered s sent after

module _ {S : Type 0} (server : ServerSettings) (handler : Text → S → Outcome (Text × S)) where
  nothing : (requests : List Text) (s : S) → HasReplied handler requests s []
  nothing requests s = record {
    answered = [];
    others = requests;
    split = refl;
    after = s;
    served = no_more s;
  }

  one_more :
      (query response : Text) (s s' : S) (requests sent : List Text)
      → handler query s ≡ done (response, s')
      → HasReplied handler requests s' sent
      → HasReplied handler (query ∷ requests) s (response ∷ sent)
  one_more query response s s' requests sent e h = record {
    answered = query ∷ h.answered;
    others = h.others;
    split = ap (λ l. query ∷ l) h.split;
    after = h.after;
    served = serves query response s s' h.after h.answered sent e h.served;
  }

  if-HasReplied :
      (requests : List Text) (s : S) (b : Bool) (x y : Session S)
      → HasReplied handler requests s x.sent
      → HasReplied handler requests s y.sent
      → HasReplied handler requests s (if b then x else y).sent
  if-HasReplied requests s true x y h k = h
  if-HasReplied requests s false x y h k = k

  abbrev Continues : List Text → (S → Session S) → Type 0
  Continues requests rest = (s : S) → HasReplied handler requests s (rest s).sent

  after_handler-HasReplied :
      (round : Round) (query : Text) (requests : List Text) (rest : S → Session S) (s : S)
      (o : Outcome (Text × S))
      → handler query s ≡ o
      → Continues requests rest
      → HasReplied handler (query ∷ requests) s (after_handler server handler round rest s o).sent
  unfolding after_handler
  after_handler-HasReplied round query requests rest s (done (response, s')) e h =
      if-HasReplied (query ∷ requests) s _ _ _ (nothing _ s) (
        if-HasReplied (query ∷ requests) s round.writes _ _
          (one_more query response s s' requests (rest s').sent e (h s')) (nothing _ s))
  after_handler-HasReplied round query requests rest s blocked e h = nothing _ s
  after_handler-HasReplied round query requests rest s panics e h = nothing _ s

  after_read-HasReplied :
      (round : Round) (requests : List Text) (rest : S → Session S) (s : S) (received : Option Text)
      → Continues requests rest
      → HasReplied handler
          (from received requests)
          s
          (after_read server handler round rest s received).sent
  unfolding after_read
  after_read-HasReplied round requests rest s none h = nothing _ s
  after_read-HasReplied round requests rest s (some query) h =
      after_handler-HasReplied round query requests rest s (handler query s) refl h

  -- Whatever the connection answers, and whatever the handler does, the replies that are sent are
  -- those that the handler gives to the first requests received, one for each, in their order.
  pub handle_connections-HasReplied :
      (rounds : List Round) (s : S)
      → HasReplied handler (received_in rounds) s (handle_connections server handler rounds s).sent
  unfolding handle_connections
  handle_connections-HasReplied [] s = nothing [] s
  handle_connections-HasReplied (round ∷ rounds) s =
      if-HasReplied (received_in (round ∷ rounds)) s _ _ _ (nothing _ s) (
        after_read-HasReplied round (received_in rounds) (handle_connections server handler rounds)
          s round.received (handle_connections-HasReplied rounds))

-- A round in which the connection answers well.
abbrev pub round_of : Text → Round
round_of query = record {
  sets_read_deadline = true;
  received = some query;
  sets_write_deadline = true;
  writes = true;
}

module _ {S : Type 0} (server : ServerSettings) (handler : Text → S → Outcome (Text × S)) where
  -- Where the connection answers well and the handler answers each of the requests, all replies are
  -- sent, in the order of the requests, and the loop then waits for the next one.
  pub handle_connections-Serves :
      {queries : List Text} {s : S} {responses : List Text} {after : S}
      → Serves handler queries s responses after
      → handle_connections server handler (map round_of queries) s
        ≡ record { sent = responses; state = after; ending = reads }
  unfolding handle_connections after_handler
  handle_connections-Serves (no_more s) = refl
  handle_connections-Serves (serves query response s middle after queries responses e h) =
      rw (e, handle_connections-Serves h)
        (elim (Bool-cases (eq_ℤ server.idle_timeout (pos 0))) [
          | inl z ↦ rw z refl
          | inr z ↦ rw z refl
        ])
