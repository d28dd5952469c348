-- ===== src/Wal/System/Stopped.antt =====
-- The flusher of wal.go after its return: whoever waits then waits for good.
use mathlib.Core.Path.{subst}
use in_memory_base.Base.{◌≡◌, ap, ◌∙◌, List, [], ◌∷◌, ◌++◌, none}
use in_memory_base.Base.Arrange.{IsIn, here, later, IsIn-perm, symm}
use in_memory_base.Concurrency.Promise.{blocked}
use in_memory_base.Concurrency.Promise
use in_memory_base.Concurrency.OneShot.{IsOpen, get_open}
use in_memory_base.Wal.Log.{Gob}
use in_memory_base.Wal.Request.{Channels, WriteRequest, future_response}
use in_memory_base.Wal.Batch.{Wal}
use in_memory_base.Wal.Pending.{IsPending, address}
use in_memory_base.Wal.System.{
  System, Phase, stopped, Picks, queued, ticked, drained, Step, Reach, pushes, sends, reads,
  flushes, applies, cancels, caller, flusher, next, channels_of, unwritten, sealed_of,
  queued_or_open, apply_next,
}
use in_memory_base.Wal.System.Moves.{push-unwritten, send-unwritten}
use in_memory_base.Wal.System.Waiting.{sealed_of-without, Reach-IsWaiting}

-- Any steps from one state to another.
pub data Steps (gob : Gob) : System → System → Type 0 where
  none_taken : {s : System} → Steps gob s s
  then : {s t u : System} → Step gob s t → Steps gob t u → Steps gob s u

Reach-Steps :
    {gob : Gob} {wal : Wal} {s t : System} → Reach gob wal s → Steps gob s t → Reach gob wal t
Reach-Steps r none_taken = r
Reach-Steps r (then st more) = Reach-Steps (next r st) more

no_more_flush :
    {phase phase' : Phase} {wal wal' : Wal} {batch : List WriteRequest}
    → phase ≡ stopped
    → ¬ Picks phase wal batch wal' phase'
no_more_flush off (queued phase wal batch rest on e) = on off
no_more_flush off (ticked wal) = cc
no_more_flush off (drained wal e) = cc

-- No step takes a request out of those that wait.
record StillWaits (r : WriteRequest) (s : System) : Type 0 where
  off : s.phase ≡ stopped
  waits : IsIn r (unwritten s.callers s.wal)

Step-StillWaits :
    {gob : Gob} {s t : System} (r : WriteRequest) → Step gob s t → StillWaits r s → StillWaits r t
Step-StillWaits {gob} r (caller (pushes s lsn command_id arguments)) h = record {
  off = h.off;
  waits =
      IsIn-perm (symm (push-unwritten gob lsn command_id arguments s.wal s.callers))
        (later h.waits);
}
Step-StillWaits r (caller (sends s before after c wal listed some_sealed sent)) h = record {
  off = h.off;
  waits =
      IsIn-perm (send-unwritten before after c s.wal wal sent)
        (subst (λ l. IsIn r (unwritten l s.wal)) listed h.waits);
}
Step-StillWaits r (caller (reads s before after c e channels listed none_sealed got)) h = record {
  off = h.off;
  waits =
      subst (λ l. IsIn r (l ++ queued_or_open s.wal))
        (ap sealed_of listed ∙ sealed_of-without before after c none_sealed) h.waits;
}
Step-StillWaits r (flusher (flushes s os batch wal wal' phase e logs idle picks begun)) h =
    absurd (no_more_flush h.off picks)
Step-StillWaits r (flusher (applies s log logs left)) h = record {
  off = h.off;
  waits = unfold apply_next in h.waits;
}
Step-StillWaits r (flusher (cancels s idle runs)) h = absurd cc

Steps-StillWaits :
    {gob : Gob} {s t : System} (r : WriteRequest) → Steps gob s t → StillWaits r s → StillWaits r t
Steps-StillWaits r none_taken h = h
Steps-StillWaits r (then st more) h = Steps-StillWaits r more (Step-StillWaits r st h)

pending-IsOpen :
    (r : WriteRequest) (rs : List WriteRequest) (channels : Channels)
    → IsPending rs channels
    → IsIn r rs
    → IsOpen channels (address r)
pending-IsOpen r [] channels h m = elim m [ ]
pending-IsOpen r (x ∷ rs) channels (fresh, op, distinct, more) (here e) =
    subst (λ (q : WriteRequest). IsOpen channels (address q)) e op
pending-IsOpen r (x ∷ rs) channels (fresh, op, distinct, more) (later m) =
    pending-IsOpen r rs channels more m

-- Once the flusher has returned, a call whose request no Write has had, because its batch was sent or
-- its record pushed after the drain had found the channel empty, never returns: whatever steps are
-- taken from there, its Get still waits.
pub stopped-blocked :
    {gob : Gob} {wal : Wal} {s t : System} (r : WriteRequest)
    → wal.batch ≡ []
    → wal.batches ≡ []
    → Reach gob wal s
    → s.phase ≡ stopped
    → IsIn r (unwritten s.callers s.wal)
    → Steps gob s t
    → Promise.get none (future_response r) (channels_of t) ≡ blocked
stopped-blocked {t = t} r e f run off waits more =
    let still = Steps-StillWaits r more (record { off = off; waits = waits }) in
    get_open none r.promise (channels_of t) (
      pending-IsOpen r (unwritten t.callers t.wal) (channels_of t)
        (Reach-IsWaiting e f (Reach-Steps run more)).all.0 still.waits)
