-- ===== src/Concurrency/Semaphore.antt =====
-- semaphore.go. A method holds the lock from its start to its end, but for the time in
-- `condition.Wait()`, so the steps are: an Acquire up to its first test, the test again of a waiter
-- that was woken, and a Release.
use in_memory_base.Base.{ℕ, ◌+◌, ◌-◌, Bool, true, false, ltb, leb, if◌then◌else◌}

-- `condition` holds the callers in Wait: those that nobody has signalled, and those that were
-- signalled and do not have the lock yet.
pub record Semaphore : Type 0 where
  pub count : ℕ
  pub max : ℕ
  pub waiting : ℕ
  pub woken : ℕ

-- NewSemaphore
abbrev pub new_semaphore : ℕ → Semaphore
new_semaphore limit = record { count = 0; max = limit; waiting = 0; woken = 0 }

-- The test of the loop in Acquire: the caller goes into Wait, or passes.
unfoldable pub acquire : Semaphore → Bool × Semaphore
acquire sem =
    if leb sem.max sem.count
    then (false, record sem { waiting = sem.waiting + 1 })
    else (true, record sem { count = sem.count + 1 })

-- Wait returns to a caller that was signalled, and the loop tests again.
unfoldable pub acquire_again : Semaphore → Bool × Semaphore
unfolding acquire
acquire_again sem = acquire (record sem { woken = sem.woken - 1 })

-- `condition.Signal()`
unfoldable pub signal : Semaphore → Semaphore
signal sem =
    if ltb 0 sem.waiting
    then record sem { waiting = sem.waiting - 1; woken = sem.woken + 1 }
    else sem

-- Semaphore.Release
unfoldable pub release : Semaphore → Semaphore
unfolding signal
release sem = signal (record sem { count = sem.count - 1 })
