-- ===== src/Network/Asleep.antt =====
-- What holds HandleClientQueries (tcp_server.go) up: an acceptor that sleeps in Acquire.
use in_memory_base.Base.{◌≡◌, ◌≢◌, arith}
use in_memory_base.Network.Accept.{
  parked, returned, Accepts, AcceptStep, accepts, fails, finishes, acquires, wakes, ends, cancels,
  returns,
}

-- A step that is not the end of a handler.
abbrev pub IsNoEnd : {s t : Accepts} → AcceptStep s t → Type 0
IsNoEnd (accepts s a l) = Unit
IsNoEnd (fails s a) = Unit
IsNoEnd (finishes s a l) = Unit
IsNoEnd (acquires s a) = Unit
IsNoEnd (wakes s a w) = Unit
IsNoEnd (ends s b) = ⊥
IsNoEnd (cancels s c) = Unit
IsNoEnd (returns s c f) = Unit

-- A run in which no handler ends.
pub data Endless : Accepts → Accepts → Type 0 where
  nothing_ends : {s : Accepts} → Endless s s
  goes_on : {s t u : Accepts} (st : AcceptStep s t) → IsNoEnd st → Endless t u → Endless s u

-- The acceptor sleeps in Acquire.
record IsAsleep (s : Accepts) : Type 0 where
  asleep : s.acceptor ≡ parked
  unwoken : s.semaphore.woken ≡ 0
  not_over : s.call ≢ returned

Step-IsAsleep : {s t : Accepts} (st : AcceptStep s t) → IsNoEnd st → IsAsleep s → IsAsleep t
Step-IsAsleep (accepts s a l) n h = absurd (cc (h.asleep, a))
Step-IsAsleep (fails s a) n h = h
Step-IsAsleep (finishes s a l) n h = absurd (cc (h.asleep, a))
Step-IsAsleep (acquires s a) n h = absurd (cc (h.asleep, a))
Step-IsAsleep (wakes s a w) n h = absurd (omega (arith, h.unwoken, w))
Step-IsAsleep (ends s b) n h = absurd n
Step-IsAsleep (cancels s c) n h = record {
  asleep = h.asleep;
  unwoken = h.unwoken;
  not_over = λ r. cc;
}
Step-IsAsleep (returns s c f) n h = absurd (cc (h.asleep, f))

Endless-IsAsleep : {s t : Accepts} → Endless s t → IsAsleep s → IsAsleep t
Endless-IsAsleep nothing_ends h = h
Endless-IsAsleep (goes_on st n more) h = Endless-IsAsleep more (Step-IsAsleep st n h)

-- Where the acceptor sleeps in Acquire, because all slots are taken, HandleClientQueries does not return
-- before a handler ends, though its context is done and its listener closed: whatever other steps are
-- taken, it has not returned.
pub Endless-returned :
    {s t : Accepts}
    → s.acceptor ≡ parked
    → s.semaphore.woken ≡ 0
    → s.call ≢ returned
    → Endless s t
    → t.call ≢ returned
Endless-returned p w n run =
    (Endless-IsAsleep run (record { asleep = p; unwoken = w; not_over = n })).not_over
