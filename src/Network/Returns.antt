-- ===== src/Network/Returns.antt =====
-- When HandleClientQueries (tcp_server.go) returns after its context is done.
use in_memory_base.Base.{
  ℕ, zero, suc, ◌+◌, ◌-◌, ◌*◌, ◌<◌, ◌≡◌, refl, ap, ◌∙◌, false, ltb, Bool-cases, inl, inr,
  if◌then◌else◌, arith,
}
use in_memory_base.Concurrency.Semaphore.{Semaphore, acquire, acquire_again, signal, release}
use in_memory_base.Concurrency.Slots.{Reach-IsBounded}
use in_memory_base.Network.Accept.{
  Acceptor, accepting, acquiring, parked, finished, waiting, returned, Accepts, go_handle,
  AcceptStep, accepts, fails, finishes, acquires, wakes, ends, cancels, returns, Reach, start, next,
}
use in_memory_base.Network.Shutdown.{in_wait, Reach-slots, Reach-IsAlone}

-- A step of HandleClientQueries or its acceptor, or the end of a handler while the acceptor is parked;
-- no connection comes or fails.
abbrev pub IsOnTheWay : {s t : Accepts} → AcceptStep s t → Type 0
IsOnTheWay (accepts s a l) = ⊥
IsOnTheWay (fails s a) = ⊥
IsOnTheWay (finishes s a l) = Unit
IsOnTheWay (acquires s a) = Unit
IsOnTheWay (wakes s a w) = Unit
IsOnTheWay (ends s b) = s.acceptor ≡ parked
IsOnTheWay (cancels s c) = ⊥
IsOnTheWay (returns s c f) = Unit

-- A run of such steps.
pub data AcceptSteps : Accepts → Accepts → Type 0 where
  none_taken : {s : Accepts} → AcceptSteps s s
  takes :
      {s t u : Accepts} (st : AcceptStep s t) → IsOnTheWay st → AcceptSteps t u → AcceptSteps s u

-- The listener is closed while the call waits, and the call has only returned after the acceptor.
record IsClosing (s : Accepts) : Type 0 where
  closed : s.call ≡ waiting → s.listening ≡ false
  after : s.call ≡ returned → s.acceptor ≡ finished

Step-IsClosing : {s t : Accepts} → AcceptStep s t → IsClosing s → IsClosing t
Step-IsClosing (accepts s a l) h = record { closed = h.closed; after = λ r. cc (h.after r, a) }
Step-IsClosing (fails s a) h = h
Step-IsClosing (finishes s a l) h = record { closed = h.closed; after = λ r. refl }
Step-IsClosing (acquires s a) h = record { closed = h.closed; after = λ r. cc (h.after r, a) }
Step-IsClosing (wakes s a w) h = record { closed = h.closed; after = λ r. cc (h.after r, a) }
Step-IsClosing (ends s b) h = record { closed = h.closed; after = h.after }
Step-IsClosing (cancels s c) h = record { closed = λ _. refl; after = λ r. cc }
Step-IsClosing (returns s c f) h = record { closed = λ r. cc; after = λ r. f }

Reach-IsClosing : {limit : ℕ} {s : Accepts} → Reach limit s → IsClosing s
Reach-IsClosing start = record { closed = λ r. cc; after = λ r. cc }
Reach-IsClosing (next r st) = Step-IsClosing st (Reach-IsClosing r)

-- The run goes on to the return of the call.
pub record Returns (s : Accepts) : Type 0 where
  pub end : Accepts
  pub run : AcceptSteps s end
  pub over : end.call ≡ returned

first : {s t : Accepts} (st : AcceptStep s t) → IsOnTheWay st → Returns t → Returns s
first st on r = record { end = r.end; run = takes st on r.run; over = r.over }

from_finished : (s : Accepts) → s.call ≡ waiting → s.acceptor ≡ finished → Returns s
from_finished s c f = record { end = _; run = takes (returns s c f) tt none_taken; over = refl }

from_accepting :
    (s : Accepts) → s.call ≡ waiting → s.listening ≡ false → s.acceptor ≡ accepting → Returns s
from_accepting s c l a = first (finishes s a l) tt (from_finished _ c refl)

-- How far a parked acceptor is from its slot: the handlers that are in its way, and its wake-up.
abbrev distance : Accepts → ℕ
distance s = 2 * s.handling + s.semaphore.woken

ends-woken :
    (sem : Semaphore) → sem.waiting + sem.woken ≡ 1 → sem.woken ≡ 0 → (release sem).woken ≡ 1
unfolding release signal
ends-woken sem h w = ground (arith, h, w)

refused-woken : (sem : Semaphore) → (acquire sem).1.woken ≡ sem.woken
unfolding acquire
refused-woken sem = ground arith

again-woken : (sem : Semaphore) → (acquire_again sem).1.woken ≡ sem.woken - 1
unfolding acquire_again
again-woken sem = refused-woken (record sem { woken = sem.woken - 1 })

from_parked :
    (fuel limit : ℕ) (s : Accepts)
    → 0 < limit
    → Reach limit s
    → s.call ≡ waiting
    → s.acceptor ≡ parked
    → distance s < fuel
    → Returns s
from_parked zero limit s pos_limit r c p enough = absurd (omega (arith, enough))
from_parked (suc fuel) limit s pos_limit r c p enough =
    let alone = Reach-IsAlone r ∙ ap in_wait p in
    elim (Bool-cases (ltb 0 s.semaphore.woken)) [
      | inl w ↦
          let woken : 0 < s.semaphore.woken = ground (arith, w) in
          let next_state = next r (wakes s p woken) in
          elim (Bool-cases (acquire_again s.semaphore).0) [
            | inl e ↦ first (wakes s p woken) tt (
                from_accepting (go_handle (acquire_again s.semaphore) s) c
                  ((Reach-IsClosing r).closed c) (ap (λ b. if b then accepting else parked) e))
            | inr e ↦ first (wakes s p woken) tt (
                from_parked fuel limit (go_handle (acquire_again s.semaphore) s) pos_limit
                  next_state c (ap (λ b. if b then accepting else parked) e)
                  (omega (
                    arith,
                    enough,
                    woken,
                    again-woken s.semaphore,
                    ap (λ b. if b then s.handling + 1 else s.handling) e,
                  )))
          ]
      | inr w ↦
          let asleep : s.semaphore.woken ≡ 0 = ground (arith, w) in
          let bounds = Reach-IsBounded (Reach-slots r) in
          let busy : 0 < s.handling =
            omega (arith, bounds.served (omega (arith, alone, asleep)), asleep, pos_limit) in
          first (ends s busy) p (
            from_parked fuel limit
              (record s { semaphore = release s.semaphore; handling = s.handling - 1 }) pos_limit
              (next r (ends s busy)) c p
              (omega (arith, enough, busy, asleep, ends-woken s.semaphore alone asleep)))
    ]

from_acquiring :
    (limit : ℕ) (s : Accepts)
    → 0 < limit
    → Reach limit s
    → s.call ≡ waiting
    → s.acceptor ≡ acquiring
    → Returns s
from_acquiring limit s pos_limit r c a = elim (Bool-cases (acquire s.semaphore).0) [
  | inl e ↦ first (acquires s a) tt (
      from_accepting (go_handle (acquire s.semaphore) s) c ((Reach-IsClosing r).closed c)
        (ap (λ b. if b then accepting else parked) e))
  | inr e ↦ first (acquires s a) tt (
      from_parked (suc (distance (go_handle (acquire s.semaphore) s))) limit
        (go_handle (acquire s.semaphore) s) pos_limit (next r (acquires s a)) c
        (ap (λ b. if b then accepting else parked) e) (omega arith))
]

returns_from :
    (limit : ℕ) (s : Accepts) (where_it_is : Acceptor)
    → s.acceptor ≡ where_it_is
    → 0 < limit
    → Reach limit s
    → s.call ≡ waiting
    → Returns s
returns_from limit s accepting a pos_limit r c = from_accepting s c ((Reach-IsClosing r).closed c) a
returns_from limit s acquiring a pos_limit r c = from_acquiring limit s pos_limit r c a
returns_from limit s parked a pos_limit r c =
    from_parked (suc (distance s)) limit s pos_limit r c a (omega arith)
returns_from limit s finished a pos_limit r c = from_finished s c a

-- Once the context is done HandleClientQueries can come to its return, from every state of every run of a
-- server with at least one slot: by its own steps and those of its accepting goroutine, and by the end of
-- handlers while that goroutine is parked in Acquire. It need not wait for any other handler.
pub Reach-Returns :
    {limit : ℕ} {s : Accepts} → 0 < limit → Reach limit s → s.call ≡ waiting → Returns s
Reach-Returns {limit} {s} pos_limit r c = returns_from limit s s.acceptor refl pos_limit r c
