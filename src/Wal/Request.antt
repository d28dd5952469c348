-- ===== src/Wal/Request.antt =====
-- write_request.go
use in_memory_base.Base.{List, Option}
use in_memory_base.Base.Int.{ℤ}
use in_memory_base.Base.Text.{Text}
use in_memory_base.Base.Errors.{Error}
use in_memory_base.Concurrency.Promise.{
  Store, Outcome, ◌>>=◌, done, Promise, Future, new_promise, set, get_future,
}
use in_memory_base.Wal.Log.{Log}

-- The channels of the promises: `none` is nil.
abbrev pub Channels : Type 0
Channels = Store (Option Error)

pub record WriteRequest : Type 0 where
  pub log : Log
  pub promise : Promise

-- NewWriteRequest
unfoldable pub new_write_request : ℤ → ℤ → List Text → Channels → WriteRequest × Channels
unfolding new_promise
new_write_request lsn command_id arguments channels =
    let (promise, channels') = new_promise channels in
    (
      record {
        log = record { lsn = lsn; command_id = command_id; arguments = arguments };
        promise = promise;
      },
      channels',
    )

-- WriteRequest.SetResponse, and `requests[idx].promise.Set(response)`.
unfoldable pub set_response :
    Option Error → WriteRequest → Channels → Outcome (WriteRequest × Channels)
unfolding set
set_response response request channels =
    set request.promise response channels >>= λ (promise, channels').
    done (record request { promise = promise }, channels')

-- WriteRequest.FutureResponse
abbrev pub future_response : WriteRequest → Future
future_response request = get_future request.promise
