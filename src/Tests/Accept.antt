-- ===== src/Tests/Accept.antt =====
-- The theorems on the server's accepting goroutine, at a server with one slot and two connections.
use in_memory_base.Base.{◌≡◌, ◌≢◌, ◌≤◌, refl, arith}
use in_memory_base.Concurrency.Semaphore.{new_semaphore, acquire}
use in_memory_base.Network.Accept.{
  Accepts, acquiring, serving, go_handle, started, parked, waiting, returned, Reach, start, next,
  accepts, acquires, cancels,
}
use in_memory_base.Network.Shutdown.{Reach-handling}
use in_memory_base.Network.Returns.{Returns, Reach-Returns}
use in_memory_base.Network.Asleep.{Endless, nothing_ends, goes_on, Endless-returned}

-- The first connection has the slot, the second one waits for it, and the context is done.
one_waits :
    (s : Accepts) × Reach 1 s × (s.call ≡ waiting) × (s.acceptor ≡ parked) × (s.semaphore.woken ≡ 0)
unfolding acquire
one_waits = (
  _,
  next
      (next (next (next (next start (accepts _ refl refl)) (acquires _ refl)) (accepts _ refl refl))
        (acquires _ refl))
      (cancels _ refl),
  refl,
  refl,
  refl,
)

Reach-handling_example :
    (one_waits.0.handling ≤ 1) × (one_waits.0.semaphore.count ≡ one_waits.0.handling)
Reach-handling_example = Reach-handling one_waits.1

Reach-Returns_example : Returns one_waits.0
Reach-Returns_example = Reach-Returns (omega arith) one_waits.1 one_waits.2

-- Before the context is done.
sleeps : (s : Accepts) × (s.acceptor ≡ parked) × (s.semaphore.woken ≡ 0) × (s.call ≡ serving)
unfolding acquire
sleeps = (
  go_handle (acquire (acquire (new_semaphore 1)).1)
      (record (started 1) { acceptor = acquiring; handling = 1 }),
  refl,
  refl,
  refl,
)

still_serves : {c : _} → c ≡ serving → c ≢ returned
still_serves w r = cc

abbrev shut : (t : Accepts) × Endless sleeps.0 t
shut = (_, goes_on (cancels sleeps.0 sleeps.3) tt nothing_ends)

Endless-returned_example : shut.0.call ≢ returned
Endless-returned_example = Endless-returned sleeps.1 sleeps.2 (still_serves sleeps.3) shut.1
