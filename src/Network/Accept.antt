-- ===== src/Network/Accept.antt =====
-- TCPServer.HandleClientQueries (tcp_server.go): the goroutine that accepts connections, the handlers that
-- it starts, each with a slot of the semaphore, and the call itself, which waits for the context and then
-- for that goroutine. They step in any order.
use in_memory_base.Base.{ℕ, ◌+◌, ◌-◌, ◌<◌, ◌≡◌, Bool, true, false, if◌then◌else◌}
use in_memory_base.Concurrency.Semaphore.{Semaphore, new_semaphore, acquire, acquire_again, release}

-- Where the accepting goroutine is: in Accept, before Acquire with a connection, in the Wait of Acquire,
-- or behind its loop.
pub data Acceptor : Type 0 where
  accepting : Acceptor
  acquiring : Acceptor
  parked : Acceptor
  finished : Acceptor

-- Where HandleClientQueries is: before `<-ctx.Done()`, in `wg.Wait()`, or behind it.
pub data Call : Type 0 where
  serving : Call
  waiting : Call
  returned : Call

-- `listening` is whether the listener is open, `handling` how many handlers have not ended.
pub record Accepts : Type 0 where
  pub semaphore : Semaphore
  pub acceptor : Acceptor
  pub call : Call
  pub listening : Bool
  pub handling : ℕ

-- The start of a handler, if the acceptor got past Acquire.
abbrev pub go_handle : Bool × Semaphore → Accepts → Accepts
go_handle (passed, semaphore) s = record s {
  semaphore = semaphore;
  acceptor = if passed then accepting else parked;
  handling = if passed then s.handling + 1 else s.handling;
}

pub data AcceptStep : Accepts → Accepts → Type 0 where
  -- Accept returns a connection.
  accepts :
      (s : Accepts)
      → s.acceptor ≡ accepting
      → s.listening ≡ true
      → AcceptStep s (record s { acceptor = acquiring })
  -- Accept fails otherwise than by net.ErrClosed: the loop goes on.
  fails : (s : Accepts) → s.acceptor ≡ accepting → AcceptStep s s
  -- Accept fails with net.ErrClosed: the goroutine returns.
  finishes :
      (s : Accepts)
      → s.acceptor ≡ accepting
      → s.listening ≡ false
      → AcceptStep s (record s { acceptor = finished })
  acquires :
      (s : Accepts) → s.acceptor ≡ acquiring → AcceptStep s (go_handle (acquire s.semaphore) s)
  wakes :
      (s : Accepts)
      → s.acceptor ≡ parked
      → 0 < s.semaphore.woken
      → AcceptStep s (go_handle (acquire_again s.semaphore) s)
  -- HandleConnections returns, and its slot is released.
  ends :
      (s : Accepts)
      → 0 < s.handling
      → AcceptStep s (record s { semaphore = release s.semaphore; handling = s.handling - 1 })
  -- The context is done; the listener is closed.
  cancels :
      (s : Accepts)
      → s.call ≡ serving
      → AcceptStep s (record s { call = waiting; listening = false })
  -- wg.Wait returns.
  returns :
      (s : Accepts)
      → s.call ≡ waiting
      → s.acceptor ≡ finished
      → AcceptStep s (record s { call = returned })

-- HandleClientQueries of a server whose semaphore has `limit` slots.
abbrev pub started : ℕ → Accepts
started limit = record {
  semaphore = new_semaphore limit;
  acceptor = accepting;
  call = serving;
  listening = true;
  handling = 0;
}

pub data Reach (limit : ℕ) : Accepts → Type 0 where
  start : Reach limit (started limit)
  next : {s t : Accepts} → Reach limit s → AcceptStep s t → Reach limit t
