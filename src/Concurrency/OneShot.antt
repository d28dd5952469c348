-- ===== src/Concurrency/OneShot.antt =====
-- A promise delivers its first value once (promise.go, future.go).
use in_memory_base.Base.{ℕ, ◌≡◌, true, false, [], ◌∷◌, arith, ==_refl}
use in_memory_base.Concurrency.Promise.{
  Store, Outcome, done, blocked, panics, ◌>>=◌, Promise, update, new_promise, set, get, get_future,
}

-- The channel that a new promise is made with: open and empty.
abbrev pub IsOpen : {A : Type 0} → Store A → ℕ → Type 0
IsOpen s a = s.channels a ≡ record { buffer = []; closed = false }

-- The store once the promise at `a` is resolved with `value`.
abbrev pub resolve : {A : Type 0} → Store A → ℕ → A → Store A
resolve s a value = record s {
  channels = update s.channels a (record { buffer = value ∷ []; closed = true });
}

-- A new promise has an open channel of its own.
pub new_promise-IsOpen :
    {A : Type 0} (s : Store A) → IsOpen (new_promise s).1 (new_promise s).0.result
unfolding new_promise
new_promise-IsOpen s = ground arith

-- The first Set of an open promise goes through.
pub set-IsOpen :
    {A : Type 0} (s : Store A) (promise : Promise) (value : A)
    → promise.promised ≡ false
    → IsOpen s promise.result
    → set promise value s
      ≡ done (record promise { promised = true }, resolve s promise.result value)
unfolding set
set-IsOpen s promise value fresh open_channel = rw (fresh, open_channel)

-- The outcome of one Set, a second one through the same promise, and two Gets of its future.
abbrev pub set_twice_get_twice : {A : Type 0} → A → Promise → A → A → Store A → Outcome (A × A)
set_twice_get_twice zero_value promise value later s = set promise value s >>= λ r.
    set r.0 later r.1 >>= λ t. get zero_value (get_future promise) t.1 >>= λ x.
    get zero_value (get_future promise) x.1 >>= λ y. done (x.0, y.0)

-- Of a promise that is set twice the first Get returns the first value, and a later Get returns
-- the zero value: the second Set is ignored, and nothing blocks or panics.
pub get-set_first :
    {A : Type 0} (zero_value : A) (promise : Promise) (value later : A) (s : Store A)
    → promise.promised ≡ false
    → IsOpen s promise.result
    → set_twice_get_twice zero_value promise value later s ≡ done (value, zero_value)
unfolding set get
get-set_first zero_value promise value later s fresh open_channel =
    rw (fresh, open_channel) (simp ==_refl)

-- A Get of a promise that nobody has set waits.
pub get_open :
    {A : Type 0} (zero_value : A) (promise : Promise) (s : Store A)
    → IsOpen s promise.result
    → get zero_value (get_future promise) s ≡ blocked
unfolding get
get_open zero_value promise s open_channel = rw open_channel

-- A copy of a promise that was made before its Set does not know of it: a Set through the copy
-- panics, for it sends on the closed channel.
pub set_stale_copy :
    {A : Type 0} (promise : Promise) (value later : A) (s : Store A)
    → promise.promised ≡ false
    → IsOpen s promise.result
    → (set promise value s >>= λ r. set promise later r.1) ≡ panics
unfolding set
set_stale_copy promise value later s fresh open_channel = rw (fresh, open_channel) (simp ==_refl)
