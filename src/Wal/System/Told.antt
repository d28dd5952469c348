-- ===== src/Wal/System/Told.antt =====
-- What the callers of wal.go are told in every run: the answer of the Write of their own batch.
use mathlib.Core.Path.{subst, subst₂}
use in_memory_base.Base.{
  ℕ, ◌<◌, ◌≡◌, refl, true, sym, ap, ◌∙◌, List, [], ◌∷◌, ◌++◌, Option, none, All, inl, inr,
}
use in_memory_base.Base.Arrange.{
  IsIn, here, later, IsIn-perm, IsIn-split, IsIn-append_left, IsIn-append_right, All-IsIn, All-map,
}
use in_memory_base.Base.Text.{Text}
use in_memory_base.Base.Errors.{Error}
use in_memory_base.Concurrency.OneShot.{IsOpen}
use in_memory_base.Filesystem.Disk.{Disk}
use in_memory_base.Filesystem.Contents.{contents}
use in_memory_base.Filesystem.Ready.{IsThere}
use in_memory_base.Wal.Log.{Log, Gob, value}
use in_memory_base.Wal.Stream.{logs_of, stream, values}
use in_memory_base.Wal.Request.{Channels, WriteRequest}
use in_memory_base.Wal.Writer.{Output}
use in_memory_base.Wal.Batch.{Wal}
use in_memory_base.Wal.Pending.{IsPending, address, resolve_all}
use in_memory_base.Wal.Answered.{IsPending-left, resolve_all-Outside, resolve_all-answers}
use in_memory_base.Wal.System.{
  System, Finished, FlusherStep, Step, Reach, channels_of, unwritten, pushes, sends, reads, flushes,
  applies, cancels, caller, flusher, start, next, apply_next,
}
use in_memory_base.Wal.System.Moves.{Picks-unwritten, Picks-output}
use in_memory_base.Wal.System.Promises.{Outside-not_open, resolve_all-next}
use in_memory_base.Wal.System.Waiting.{IsWaiting, Picks-AllWait, Picks-IsBegun, Reach-IsWaiting}
use in_memory_base.Wal.System.Durable.{IsKept, Reach-IsDurable}
use in_memory_base.Wal.System.Callers.{
  requests_of, Status, Status-moved, IsAnswerOf, IsTold, push-IsTold, send-IsTold, read-IsTold,
}

closed-IsOpen :
    (channels : Channels) (a : ℕ) (e : Option Error)
    → channels.channels a ≡ record { buffer = e ∷ []; closed = true }
    → ¬ IsOpen channels a
closed-IsOpen channels a e waits o = cc

-- What a Write does for one caller: the answer of its batch, or nothing.
flush-Status :
    (batch rest : List WriteRequest) (fs : List Finished) (e : Option Error) (channels : Channels)
    (r : WriteRequest)
    → IsPending (batch ++ rest) channels
    → Status (batch ++ rest) fs channels r
    → Status rest (record { error = e; requests = batch } ∷ fs) (resolve_all e batch channels) r
flush-Status batch rest fs e channels r pending (inl m) = elim (IsIn-split r batch rest m) [
  | inl l ↦ inr (record {
    batch = record { error = e; requests = batch };
    over = here refl;
    among = l;
    waits =
        All-IsIn
          (λ x.
            (resolve_all e batch channels).channels (address x)
            ≡ record { buffer = e ∷ []; closed = true })
          r batch
          (resolve_all-answers e batch channels (IsPending-left batch rest channels pending)) l;
  })
  | inr m' ↦ inl m'
]
flush-Status batch rest fs e channels r pending (inr a) = inr (record {
  batch = a.batch;
  over = later a.over;
  among = a.among;
  waits =
      resolve_all-Outside e batch channels (address r) (
        Outside-not_open batch channels (address r)
          (λ o. closed-IsOpen channels (address r) a.batch.error a.waits o)
          (IsPending-left batch rest channels pending))
      ∙ a.waits;
})

IsAnswerOf-later :
    (f : Finished) (fs : List Finished) (r : WriteRequest) (e : Option Error)
    → IsAnswerOf fs r e
    → IsAnswerOf (f ∷ fs) r e
IsAnswerOf-later f fs r e a = record {
  batch = a.batch;
  over = later a.over;
  among = a.among;
  same = a.same;
}

FlusherStep-IsTold :
    {gob : Gob} {s t : System} → FlusherStep gob s t → IsWaiting s → IsTold s → IsTold t
FlusherStep-IsTold {gob} (flushes s os batch wal wal' phase e logs idle picks begun) w h =
    let b = Picks-IsBegun gob os {s = s} picks begun w in
    let o = ap (λ (x : Output). x.channels) (Picks-output picks) in
    let answered : wal'.output.channels ≡ resolve_all e batch (channels_of s) =
      b.answered ∙ ap (resolve_all e batch) o in
    let pending =
      subst (IsPending (batch ++ unwritten s.callers wal)) o (Picks-AllWait {s = s} picks w).0 in
    record {
      distinct = h.distinct;
      numbered =
          subst (λ n. All (λ r. address r < n) (requests_of s.callers))
            (sym
              (ap (λ (q : Channels). q.next) answered ∙ resolve_all-next e batch (channels_of s)))
            h.numbered;
      answerable =
          subst₂
            (λ l q.
              All (Status l (record { error = e; requests = batch } ∷ s.finished) q)
                (requests_of s.callers))
            (ap (unwritten s.callers) (sym b.same)) (sym answered)
            (All-map _ _ (requests_of s.callers)
              (λ r st.
                flush-Status batch (unwritten s.callers wal) s.finished e (channels_of s) r pending
                  (Status-moved (unwritten s.callers s.wal) (batch ++ unwritten s.callers wal)
                    s.finished (channels_of s) (channels_of s) r
                    (IsIn-perm (Picks-unwritten s.callers picks)) (λ _. refl) st))
              h.answerable);
      told = All-map _ _ s.told (λ x. IsAnswerOf-later _ s.finished x.0 x.1) h.told;
    }
FlusherStep-IsTold (applies s log logs left) w h =
    unfold apply_next in
    record {
      distinct = h.distinct;
      numbered = h.numbered;
      answerable = h.answerable;
      told = h.told;
    }
FlusherStep-IsTold (cancels s idle runs) w h = record {
  distinct = h.distinct;
  numbered = h.numbered;
  answerable = h.answerable;
  told = h.told;
}

pub Step-IsTold : {gob : Gob} {s t : System} → Step gob s t → IsWaiting s → IsTold s → IsTold t
Step-IsTold {gob} (caller (pushes s lsn command_id arguments)) w h =
    push-IsTold gob s lsn command_id arguments h
Step-IsTold (caller (sends s before after c wal listed some_sealed sent)) w h =
    send-IsTold s before after c wal listed sent h
Step-IsTold (caller (reads s before after c e channels listed none_sealed got)) w h =
    read-IsTold s before after c e channels listed none_sealed got w h
Step-IsTold (flusher st) w h = FlusherStep-IsTold st w h

pub Reach-IsTold :
    {gob : Gob} {wal : Wal} {s : System}
    → wal.batch ≡ []
    → wal.batches ≡ []
    → Reach gob wal s
    → IsTold s
Reach-IsTold e f start = record { distinct = tt; numbered = tt; answerable = tt; told = tt }
Reach-IsTold e f (next r st) = Step-IsTold st (Reach-IsWaiting e f r) (Reach-IsTold e f r)

-- The record stands in a segment file.
pub record IsOnDisk (log : Log) (disk : Disk) : Type 0 where
  pub path : Text
  pub there : IsIn (value log) (contents path disk)

value-values :
    (r : WriteRequest) (rs : List WriteRequest)
    → IsIn r rs
    → IsIn (value r.log) (values (logs_of rs))
value-values r [] m = elim m [ ]
value-values r (x ∷ rs) (here e) = here (ap (λ (q : WriteRequest). value q.log) e)
value-values r (x ∷ rs) (later m) = later (value-values r rs m)

value-stream :
    (r : WriteRequest) (rs : List WriteRequest)
    → IsIn r rs
    → IsIn (value r.log) (stream (logs_of rs))
value-stream r [] m = elim m [ ]
value-stream r (x ∷ rs) m = later (value-values r (x ∷ rs) m)

-- In every run from a Wal whose batch and channel are empty and whose segment's file, if it has one,
-- is in the directory, whatever the order of the steps and the answers of the system: a call of Set or
-- Del that returned nil has its record in a segment file.
pub told_nil-IsOnDisk :
    {gob : Gob} {wal : Wal} {s : System} (r : WriteRequest)
    → wal.batch ≡ []
    → wal.batches ≡ []
    → IsThere wal.output.segment.file wal.output.disk
    → Reach gob wal s
    → IsIn (r, none) s.told
    → IsOnDisk r.log s.wal.output.disk
told_nil-IsOnDisk {s = s} r e f there run m =
    let a =
      All-IsIn (λ x. IsAnswerOf s.finished x.0 x.1) (r, none) s.told (Reach-IsTold e f run).told
        m in
    let st =
      All-IsIn (IsKept s.wal.output.disk) a.batch s.finished (Reach-IsDurable e f there run).kept
        a.over a.same in
    record {
      path = st.path;
      there = subst (IsIn (value r.log)) (sym st.holds) (
          IsIn-append_right (value r.log) st.before (stream (logs_of a.batch.requests) ++ st.after)
            (IsIn-append_left (value r.log) (stream (logs_of a.batch.requests)) st.after
              (value-stream r a.batch.requests a.among)));
    }
