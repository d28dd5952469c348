-- ===== src/Concurrency/Slots.antt =====
-- All runs of callers that acquire and release a semaphore (semaphore.go).
use in_memory_base.Base.{ℕ, ◌+◌, ◌-◌, ◌≤◌, ◌<◌, ◌≡◌, refl, Bool, if◌then◌else◌, arith}
use in_memory_base.Concurrency.Semaphore.{
  Semaphore, new_semaphore, acquire, acquire_again, signal, release,
}

-- The semaphore, and how many callers are past Acquire and have not released.
pub record System : Type 0 where
  pub sem : Semaphore
  pub inside : ℕ

abbrev entered : ℕ → Bool × Semaphore → System
entered inside (passed, sem) = record { sem = sem; inside = if passed then inside + 1 else inside }

-- One step of one caller. Whoever calls Release has passed Acquire.
pub data Step : System → System → Type 0 where
  acquires : (s : System) → Step s (entered s.inside (acquire s.sem))
  wakes : (s : System) → 0 < s.sem.woken → Step s (entered s.inside (acquire_again s.sem))
  releases :
      (s : System) → 0 < s.inside → Step s (record { sem = release s.sem; inside = s.inside - 1 })

pub data Reach (limit : ℕ) : System → Type 0 where
  start : Reach limit (record { sem = new_semaphore limit; inside = 0 })
  next : {s t : System} → Reach limit s → Step s t → Reach limit t

-- At most `limit` callers are inside, and the count is theirs. While somebody waits, every free slot
-- has a caller that was woken for it.
pub record IsBounded (limit : ℕ) (s : System) : Type 0 where
  pub same_limit : s.sem.max ≡ limit
  pub counted : s.sem.count ≡ s.inside
  pub bounded : s.inside ≤ limit
  pub served : 0 < s.sem.waiting → limit ≤ s.inside + s.sem.woken

Step-IsBounded : {limit : ℕ} {s t : System} → Step s t → IsBounded limit s → IsBounded limit t
unfolding acquire acquire_again release signal
Step-IsBounded (acquires s) h = record {
  same_limit = ground (arith, h.same_limit);
  counted = ground (arith, h.counted);
  bounded = ground (arith, h.same_limit, h.counted, h.bounded);
  served = ground (arith, h.same_limit, h.counted, h.bounded, h.served);
}
Step-IsBounded (wakes s w) h = record {
  same_limit = ground (arith, h.same_limit);
  counted = ground (arith, h.counted);
  bounded = ground (arith, h.same_limit, h.counted, h.bounded);
  served = ground (arith, h.same_limit, h.counted, h.bounded, h.served);
}
Step-IsBounded (releases s i) h = record {
  same_limit = ground (arith, h.same_limit);
  counted = ground (arith, h.counted);
  bounded = ground (arith, h.same_limit, h.counted, h.bounded);
  served = ground (arith, h.same_limit, h.counted, h.bounded, h.served);
}

-- In every run from NewSemaphore, whatever the order of the callers' steps, at most `limit` callers
-- are past Acquire at once, and no wake-up is lost: while somebody waits, the callers inside and
-- those that were woken are at least `limit`, so a free slot is always on its way to a caller.
pub Reach-IsBounded : {limit : ℕ} {s : System} → Reach limit s → IsBounded limit s
Reach-IsBounded start = record {
  same_limit = refl;
  counted = refl;
  bounded = omega arith;
  served = λ w. omega arith;
}
Reach-IsBounded (next r st) = Step-IsBounded st (Reach-IsBounded r)
