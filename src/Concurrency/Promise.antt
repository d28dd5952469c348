-- ===== src/Concurrency/Promise.antt =====
-- promise.go and future.go: the two ends of a channel of capacity 1. A Promise is a struct value
-- that code copies, and the copies share the channel, so channels stand in a store under an
-- address, and the flag `promised` stands in the value.
use in_memory_base.Base.{ℕ, ◌+◌, Bool, true, false, List, [], ◌∷◌, ◌==◌, if◌then◌else◌}

pub record Channel (A : Type 0) : Type 0 where
  pub buffer : List A
  pub closed : Bool

-- The channels made so far, and the address of the next one.
pub record Store (A : Type 0) : Type 0 where
  pub next : ℕ
  pub channels : ℕ → Channel A

-- What a goroutine meets: it goes on, it waits for good unless another acts, or it panics.
pub data Outcome (A : Type 0) : Type 0 where
  done : A → Outcome A
  blocked : Outcome A
  panics : Outcome A

infixl 5 ◌>>=◌
abbrev pub ◌>>=◌ : {A B : Type 0} → Outcome A → (A → Outcome B) → Outcome B
done a >>= f = f a
blocked >>= f = blocked
panics >>= f = panics

pub record Promise : Type 0 where
  pub result : ℕ
  pub promised : Bool

pub record Future : Type 0 where
  pub result : ℕ

module _ {A : Type 0} where
  abbrev pub update : (ℕ → Channel A) → ℕ → Channel A → ℕ → Channel A
  update channels a c b = if a == b then c else channels b

  abbrev pub empty_store : A → Store A
  empty_store a = record { next = 0; channels = λ _. record { buffer = []; closed = false } }

  -- NewPromise: `make(chan T, 1)`
  unfoldable pub new_promise : Store A → Promise × Store A
  new_promise s = (
    record { result = s.next; promised = false },
    record {
      next = s.next + 1;
      channels = update s.channels s.next (record { buffer = []; closed = false });
    },
  )

  -- `c <- value` on a channel of capacity 1, and `close(c)` after it.
  send_and_close : Channel A → A → Outcome (Channel A)
  send_and_close c value = if c.closed then panics else elim c.buffer [
    | [] ↦ done (record { buffer = value ∷ []; closed = true })
    | x ∷ xs ↦ blocked
  ]

  -- Promise.Set
  unfoldable pub set : Promise → A → Store A → Outcome (Promise × Store A)
  unfolding send_and_close
  set promise value s =
      if promise.promised
      then done (promise, s)
      else send_and_close (s.channels promise.result) value >>= λ c. done (
        record promise { promised = true },
        record s { channels = update s.channels promise.result c },
      )

  -- Future.Get: a receive, which gives the zero value once the channel is closed and empty.
  receive : A → Channel A → Outcome (A × Channel A)
  receive zero_value c = elim c.buffer [
    | [] ↦ if c.closed then done (zero_value, c) else blocked
    | x ∷ xs ↦ done (x, record c { buffer = xs })
  ]

  unfoldable pub get : A → Future → Store A → Outcome (A × Store A)
  unfolding receive
  get zero_value future s = receive zero_value (s.channels future.result) >>= λ (x, c).
      done (x, record s { channels = update s.channels future.result c })

-- Promise.GetFuture, and NewFuture.
abbrev pub get_future : Promise → Future
get_future promise = record { result = promise.result }
