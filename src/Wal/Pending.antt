-- ===== src/Wal/Pending.antt =====
-- Requests whose callers wait, and what WalWriter.notification (wal_writer.go) does for them.
use in_memory_base.Base.{
  ℕ, ◌≡◌, ◌≢◌, refl, ◌∙◌, true, false, List, [], ◌∷◌, map, Option, arith, All,
}
use in_memory_base.Base.Errors.{Error}
use in_memory_base.Concurrency.Promise.{Channel, done, update}
use in_memory_base.Concurrency.OneShot.{IsOpen, resolve, set-IsOpen}
use in_memory_base.Wal.Request.{Channels, WriteRequest, set_response}
use in_memory_base.Wal.Writer.{notification}

-- The address of a request's channel.
abbrev pub address : WriteRequest → ℕ
address request = request.promise.result

-- Nobody has answered any of the requests yet, and no two share a channel.
abbrev pub IsPending : List WriteRequest → Channels → Type 0
IsPending [] channels = Unit
IsPending (r ∷ rs) channels =
    (r.promise.promised ≡ false)
    × IsOpen channels (address r)
    × All (λ q. address q ≢ address r) rs
    × IsPending rs channels

-- The request once its promise is resolved, and the channels once those of all requests are.
abbrev pub mark : WriteRequest → WriteRequest
mark r = record r { promise = record r.promise { promised = true } }

abbrev pub resolve_all : Option Error → List WriteRequest → Channels → Channels
resolve_all response [] channels = channels
resolve_all response (r ∷ rs) channels =
    resolve_all response rs (resolve channels (address r) response)

pub update_ne :
    (channels : Channels) (a b : ℕ) (c : Channel (Option Error))
    → b ≢ a
    → update channels.channels a c b ≡ channels.channels b
update_ne channels a b c h = ground arith

-- Answering one request leaves the others as they are.
pub IsPending-resolve :
    (a : ℕ) (response : Option Error) (rs : List WriteRequest) (channels : Channels)
    → All (λ q. address q ≢ a) rs
    → IsPending rs channels
    → IsPending rs (resolve channels a response)
IsPending-resolve a response [] channels others h = tt
IsPending-resolve a response (r ∷ rs) channels others (fresh, op, distinct, more) = (
  fresh,
  update_ne channels a (address r) _ others.0 ∙ op,
  distinct,
  IsPending-resolve a response rs channels others.1 more,
)

set_response-IsOpen :
    (response : Option Error) (r : WriteRequest) (channels : Channels)
    → r.promise.promised ≡ false
    → IsOpen channels (address r)
    → set_response response r channels ≡ done (mark r, resolve channels (address r) response)
unfolding set_response
set_response-IsOpen response r channels fresh op =
    rw (set-IsOpen channels r.promise response fresh op)

-- `notification` answers every pending request with `response`: it neither waits nor panics.
pub notification-IsPending :
    (response : Option Error) (rs : List WriteRequest) (channels : Channels)
    → IsPending rs channels
    → notification response rs channels ≡ done (map mark rs, resolve_all response rs channels)
unfolding notification
notification-IsPending response [] channels h = refl
notification-IsPending response (r ∷ rs) channels (fresh, op, distinct, more) = rw (
  set_response-IsOpen response r channels fresh op,
  notification-IsPending response rs (resolve channels (address r) response)
      (IsPending-resolve (address r) response rs channels distinct more),
)
