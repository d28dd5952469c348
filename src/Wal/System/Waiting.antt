-- ===== src/Wal/System/Waiting.antt =====
-- The requests that wait in wal.go, in every run: each still has its open promise to itself, so no
-- step of the flusher waits for good or panics.
use mathlib.Core.Path.{subst, subst₂}
use in_memory_base.Base.{◌≡◌, refl, sym, ap, ◌∙◌, List, [], ◌∷◌, ◌++◌, Option}
use in_memory_base.Base.Arrange.{symm}
use in_memory_base.Base.Errors.{Error}
use in_memory_base.Concurrency.Promise.{done}
use in_memory_base.Filesystem.Disk.{Os}
use in_memory_base.Wal.Log.{Log, Gob}
use in_memory_base.Wal.Request.{WriteRequest}
use in_memory_base.Wal.Writer.{Output}
use in_memory_base.Wal.Batch.{Wal, push}
use in_memory_base.Wal.Answered.{IsPending-left}
use in_memory_base.Wal.System.{
  System, Caller, Phase, Picks, CallerStep, FlusherStep, Step, Reach, channels_of, sealed_of,
  queued_or_open, apply_next, pushes, sends, reads, flushes, applies, cancels, caller, flusher,
  start, next, unwritten, begin_flush,
}
use in_memory_base.Wal.System.Flushing.{IsBegun, begin_flush-IsBegun}
use in_memory_base.Wal.System.Moves.{
  push-unwritten, send-unwritten, send-IsSent, Picks-unwritten, Picks-output,
}
use in_memory_base.Wal.System.Promises.{
  AllWait, AllWait-perm, push-address, push-channels, AllWait-new, get-HasGot, AllWait-got,
  AllWait-resolve_all,
}

-- The requests that no Write has had are pending, and their channels have been made.
pub record IsWaiting (s : System) : Type 0 where
  pub all : AllWait (unwritten s.callers s.wal) (channels_of s)

pub sealed_of-without :
    (before after : List Caller) (c : Caller)
    → c.sealed ≡ []
    → sealed_of (before ++ (c ∷ after)) ≡ sealed_of (before ++ after)
sealed_of-without [] after c e = rw e refl
sealed_of-without (b ∷ before) after c e = rw (sealed_of-without before after c e) refl

pub CallerStep-IsWaiting :
    {gob : Gob} {s t : System} → CallerStep gob s t → IsWaiting s → IsWaiting t
CallerStep-IsWaiting {gob} (pushes s lsn command_id arguments) h = record {
  all =
      let p = push gob lsn command_id arguments s.wal in
      AllWait-perm _ (symm (push-unwritten gob lsn command_id arguments s.wal s.callers)) (
        subst (AllWait (p.0 ∷ unwritten s.callers s.wal))
          (sym (push-channels gob lsn command_id arguments s.wal))
          (AllWait-new p.0 (unwritten s.callers s.wal) (channels_of s)
            (push-address gob lsn command_id arguments s.wal) h.all));
}
CallerStep-IsWaiting (sends s before after c wal listed some_sealed sent) h = record {
  all = AllWait-perm _ (send-unwritten before after c s.wal wal sent) (
      subst₂ (λ callers (o : Output). AllWait (unwritten callers s.wal) o.channels) listed
        (ap (λ (w : Wal). w.output) (sym (send-IsSent c.sealed s.wal wal sent).same)) h.all);
}
CallerStep-IsWaiting (reads s before after c e channels listed none_sealed got) h = record {
  all =
      AllWait-got _ c.request (channels_of s) channels
        (get-HasGot c.request e (channels_of s) channels got)
        (subst (λ l. AllWait (l ++ queued_or_open s.wal) (channels_of s))
          (ap sealed_of listed ∙ sealed_of-without before after c none_sealed) h.all);
}

-- A flush finds a batch whose callers all wait, beside the others that wait.
pub Picks-AllWait :
    {s : System} {batch : List WriteRequest} {wal : Wal} {phase : Phase}
    → Picks s.phase s.wal batch wal phase
    → IsWaiting s
    → AllWait (batch ++ unwritten s.callers wal) wal.output.channels
Picks-AllWait {s} {batch} {wal} picks h =
    subst (λ (o : Output). AllWait (batch ++ unwritten s.callers wal) o.channels)
      (sym (Picks-output picks))
      (AllWait-perm (channels_of s) (Picks-unwritten s.callers picks) h.all)

pub Picks-IsBegun :
    (gob : Gob) (os : Os) {s : System} {batch : List WriteRequest} {wal wal' : Wal} {phase : Phase}
    {e : Option Error} {logs : List Log}
    → Picks s.phase s.wal batch wal phase
    → begin_flush gob os batch wal ≡ done (e, logs, wal')
    → IsWaiting s
    → IsBegun batch wal e logs wal'
Picks-IsBegun gob os {s} {batch} {wal} {wal'} {e = e} {logs} picks begun h =
    begin_flush-IsBegun gob os batch wal e logs wal'
      (IsPending-left batch (unwritten s.callers wal) _ (Picks-AllWait {s = s} picks h).0) begun

pub FlusherStep-IsWaiting :
    {gob : Gob} {s t : System} → FlusherStep gob s t → IsWaiting s → IsWaiting t
FlusherStep-IsWaiting {gob} (flushes s os batch wal wal' phase e logs idle picks begun) h =
    let b = Picks-IsBegun gob os {s = s} picks begun h in
    record {
      all = subst₂ AllWait (ap (unwritten s.callers) (sym b.same)) (sym b.answered) (
          AllWait-resolve_all e batch (unwritten s.callers wal) wal.output.channels
            (Picks-AllWait {s = s} picks h));
    }
FlusherStep-IsWaiting (applies s log logs left) h = record { all = unfold apply_next in h.all }
FlusherStep-IsWaiting (cancels s idle runs) h = record { all = h.all }

pub Step-IsWaiting : {gob : Gob} {s t : System} → Step gob s t → IsWaiting s → IsWaiting t
Step-IsWaiting (caller st) h = CallerStep-IsWaiting st h
Step-IsWaiting (flusher st) h = FlusherStep-IsWaiting st h

-- In every run, whatever the order of the steps and the answers of the system, every request that no
-- Write has had is pending: its promise is not resolved, its channel is open, made, and its own.
pub Reach-IsWaiting :
    {gob : Gob} {wal : Wal} {s : System}
    → wal.batch ≡ []
    → wal.batches ≡ []
    → Reach gob wal s
    → IsWaiting s
Reach-IsWaiting e f start = record { all = rw (e, f) (tt, tt) }
Reach-IsWaiting e f (next r st) = Step-IsWaiting st (Reach-IsWaiting e f r)
