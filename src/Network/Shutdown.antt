-- ===== src/Network/Shutdown.antt =====
-- What HandleClientQueries (tcp_server.go) keeps, and when it returns.
use in_memory_base.Base.{
  leb, Bool-cases, inl, inr, ℕ, ◌+◌, ◌-◌, ◌≤◌, ◌≡◌, refl, ap, ◌∙◌, if◌then◌else◌, arith,
}
use in_memory_base.Concurrency.Semaphore.{Semaphore, acquire, acquire_again, signal, release}
use in_memory_base.Concurrency.Slots.{IsBounded, Reach-IsBounded}
use in_memory_base.Concurrency.Slots
use in_memory_base.Network.Accept.{
  Acceptor, accepting, acquiring, parked, finished, Accepts, AcceptStep, accepts, fails, finishes,
  acquires, wakes, ends, cancels, returns, Reach, start, next,
}

-- What is seen of the server by its semaphore: its handlers are the callers inside.
abbrev pub slots_of : Accepts → Slots.System
slots_of s = record { sem = s.semaphore; inside = s.handling }

pub Reach-slots : {limit : ℕ} {s : Accepts} → Reach limit s → Slots.Reach limit (slots_of s)
Reach-slots start = Slots.start
Reach-slots (next r (accepts s a l)) = Reach-slots r
Reach-slots (next r (fails s a)) = Reach-slots r
Reach-slots (next r (finishes s a l)) = Reach-slots r
Reach-slots (next r (acquires s a)) = Slots.next (Reach-slots r) (Slots.acquires (slots_of s))
Reach-slots (next r (wakes s a w)) = Slots.next (Reach-slots r) (Slots.wakes (slots_of s) w)
Reach-slots (next r (ends s h)) = Slots.next (Reach-slots r) (Slots.releases (slots_of s) h)
Reach-slots (next r (cancels s c)) = Reach-slots r
Reach-slots (next r (returns s c f)) = Reach-slots r

abbrev pub in_wait : Acceptor → ℕ
in_wait accepting = 0
in_wait acquiring = 0
in_wait parked = 1
in_wait finished = 0

-- The acceptor is the only one that acquires, so the semaphore has it waiting or woken exactly if it is
-- parked.
abbrev pub IsAlone : Accepts → Type 0
IsAlone s = s.semaphore.waiting + s.semaphore.woken ≡ in_wait s.acceptor

acquire-alone :
    (sem : Semaphore)
    → sem.waiting + sem.woken ≡ 0
    → (acquire sem).1.waiting + (acquire sem).1.woken
      ≡ in_wait (if (acquire sem).0 then accepting else parked)
unfolding acquire
acquire-alone sem h = elim (Bool-cases (leb sem.max sem.count)) [
  | inl e ↦ rw e (omega (arith, h))
  | inr e ↦ rw e (omega (arith, h))
]

release-alone :
    (sem : Semaphore) → (release sem).waiting + (release sem).woken ≡ sem.waiting + sem.woken
unfolding release signal
release-alone sem = ground arith

Step-IsAlone : {s t : Accepts} → AcceptStep s t → IsAlone s → IsAlone t
Step-IsAlone (accepts s a l) h = h ∙ ap in_wait a
Step-IsAlone (fails s a) h = h
Step-IsAlone (finishes s a l) h = h ∙ ap in_wait a
Step-IsAlone (acquires s a) h = acquire-alone s.semaphore (h ∙ ap in_wait a)
Step-IsAlone (wakes s a w) h =
    unfold acquire_again in
    acquire-alone (record s.semaphore { woken = s.semaphore.woken - 1 })
      (omega (arith, h, ap in_wait a, w))
Step-IsAlone (ends s b) h = release-alone s.semaphore ∙ h
Step-IsAlone (cancels s c) h = h
Step-IsAlone (returns s c f) h = h

pub Reach-IsAlone : {limit : ℕ} {s : Accepts} → Reach limit s → IsAlone s
Reach-IsAlone start = refl
Reach-IsAlone (next r st) = Step-IsAlone st (Reach-IsAlone r)

-- In every run of the accepting goroutine and its handlers, whatever the order of their steps, at most
-- `limit` handlers have not ended, and the slots that are taken are theirs.
pub Reach-handling :
    {limit : ℕ} {s : Accepts}
    → Reach limit s
    → (s.handling ≤ limit) × (s.semaphore.count ≡ s.handling)
Reach-handling r = let b = Reach-IsBounded (Reach-slots r) in (b.bounded, b.counted)
