-- ===== src/Wal/System/Answering.antt =====
-- That every caller of wal.go is answered while the flusher has not returned: as long as one waits,
-- some step goes on.
use mathlib.Core.Path.{subst}
use in_memory_base.Base.{
  ℕ, zero, suc, length, ◌≤◌, ◌≡◌, ◌≢◌, refl, sym, ap, ◌∙◌, List, [], ◌∷◌, ◌++◌, inl, inr, ◌⊎◌,
  arith, All,
}
use in_memory_base.Base.Arrange.{IsIn}
use in_memory_base.Concurrency.Promise.{done}
use in_memory_base.Filesystem.Disk.{Os}
use in_memory_base.Wal.Log.{Gob}
use in_memory_base.Wal.Request.{WriteRequest}
use in_memory_base.Wal.Batch.{Wal, seal_batch, send}
use in_memory_base.Wal.Answered.{IsPending-left}
use in_memory_base.Wal.Early.{get-answered}
use in_memory_base.Wal.System.{
  System, Caller, Phase, running, draining, stopped, Picks, queued, ticked, drained, caller,
  flusher, sends, reads, flushes, applies, pushes, cancels, channels_of, sealed_of, unwritten,
  Reach,
}
use in_memory_base.Wal.System.Flushing.{begin_flush-Begun}
use in_memory_base.Wal.System.Waiting.{IsWaiting, Picks-AllWait, Reach-IsWaiting}
use in_memory_base.Wal.System.Callers.{IsTold, Status, requests_of}
use in_memory_base.Wal.System.Told.{Step-IsTold, Reach-IsTold}
use in_memory_base.Wal.System.Progress.{
  Work, by_caller, by_flusher, IsBusy, measure, Work-IsWaiting, Work-less,
}

abbrev NonEmpty : {A : Type 0} → List A → Type 0
NonEmpty {A} xs = (x : A) × (rest : List A) × (xs ≡ x ∷ rest)

List-cases : {A : Type 0} (xs : List A) → (xs ≡ []) ⊎ NonEmpty xs
List-cases [] = inl refl
List-cases (x ∷ rest) = inr (x, rest, refl)

-- A call that still has to send its batch.
record HasSealed (callers : List Caller) : Type 0 where
  before : List Caller
  after : List Caller
  sender : Caller
  listed : callers ≡ before ++ (sender ∷ after)
  some_sealed : sender.sealed ≢ []

HasSealed-later : (c : Caller) (callers : List Caller) → HasSealed callers → HasSealed (c ∷ callers)
HasSealed-later c callers h = record {
  before = c ∷ h.before;
  after = h.after;
  sender = h.sender;
  listed = ap (λ l. c ∷ l) h.listed;
  some_sealed = h.some_sealed;
}

HasSealed-cases : (callers : List Caller) → (sealed_of callers ≡ []) ⊎ HasSealed callers
HasSealed-cases [] = inl refl
HasSealed-cases (c ∷ callers) = elim (List-cases c.sealed) [
  | inl e ↦ elim (HasSealed-cases callers) [
    | inl more ↦ inl (rw (e, more) refl)
    | inr h ↦ inr (HasSealed-later c callers h)
  ]
  | inr (x, rest, e) ↦
      inr
        (record { before = []; after = callers; sender = c; listed = refl; some_sealed = λ z. cc })
]

send-empty :
    (sealed : List WriteRequest) (wal : Wal)
    → wal.batches ≡ []
    → (wal' : Wal) × (send sealed wal ≡ done wal')
unfolding send
send-empty [] wal e = (wal, refl)
send-empty (r ∷ rs) wal e = rw e (_, refl)

-- Some step of the work goes on, in which the system answers to a Write as `os` says.
abbrev pub AnsweredBy : {gob : Gob} {s t : System} → Os → Work gob s t → Type 0
AnsweredBy os (by_flusher (flushes s answers batch wal wal' phase e logs idle picks begun) busy) =
    answers ≡ os
AnsweredBy os _ = Unit

abbrev CanWork : Gob → Os → System → Type 0
CanWork gob os s = (t : System) × (work : Work gob s t) × AnsweredBy os work

append_empty : {A : Type 0} (xs ys : List A) → xs ++ ys ≡ [] → xs ≡ []
append_empty [] ys e = refl
append_empty (x ∷ xs) ys e = cc

-- The open batch is flushed at a tick, or at the end of the drain.
open_batch :
    (phase : Phase) (wal : Wal)
    → phase ≢ stopped
    → wal.batches ≡ []
    → wal.batch ≢ []
    → (phase' : Phase) × (picks : Picks phase wal (seal_batch wal).0 (seal_batch wal).1 phase')
      × IsBusy picks
open_batch running wal on none_queued some_open = (running, ticked wal, some_open)
open_batch draining wal on none_queued some_open = (stopped, drained wal none_queued, some_open)
open_batch stopped wal on none_queued some_open = absurd (on refl)

module _ (gob : Gob) (os : Os) (s : System) (w : IsWaiting s) where
  can_flush :
      {batch : List WriteRequest} {wal : Wal} {phase : Phase}
      → s.remaining ≡ []
      → (picks : Picks s.phase s.wal batch wal phase) → IsBusy picks
      → CanWork gob os s
  can_flush {batch} {wal} {phase} idle picks busy =
      let b = begin_flush-Begun gob os batch wal (
        IsPending-left batch (unwritten s.callers wal) wal.output.channels
          (Picks-AllWait {s = s} picks w).0) in
      (
        _,
        by_flusher (flushes s os batch wal b.after phase b.error b.logs idle picks b.result) busy,
        refl,
      )

  can_send : s.wal.batches ≡ [] → HasSealed s.callers → CanWork gob os s
  can_send none_queued h =
      let (wal', e) = send-empty h.sender.sealed s.wal none_queued in
      (_, by_caller (sends s h.before h.after h.sender wal' h.listed h.some_sealed e) tt, tt)

  can_read :
      (c : Caller) (rest : List Caller)
      → s.callers ≡ c ∷ rest
      → unwritten s.callers s.wal ≡ []
      → c.sealed ≡ []
      → IsTold s
      → CanWork gob os s
  can_read c rest listed none_waits none_sealed h =
      elim (subst
        (λ l. All (Status (unwritten s.callers s.wal) s.finished (channels_of s)) (requests_of l))
        listed h.answerable).0 [
          | inl m ↦ elim (subst (IsIn c.request) none_waits m) [ ]
          | inr a ↦ (
            _,
            by_caller
                (reads s [] rest c a.batch.error
                  (get-answered (channels_of s) c.request a.batch.error a.waits).0 listed
                  none_sealed (get-answered (channels_of s) c.request a.batch.error a.waits).1)
                tt,
            tt,
          )
        ]

  can_return :
      s.callers ≢ []
      → s.wal.batches ≡ []
      → s.wal.batch ≡ []
      → sealed_of s.callers ≡ []
      → IsTold s
      → CanWork gob os s
  can_return waits none_queued none_open none_sealed h = elim (List-cases s.callers) [
    | inl e ↦ absurd (waits e)
    | inr (c, rest, e) ↦
        can_read c rest e (rw (none_sealed, none_queued, none_open) refl)
          (append_empty c.sealed (sealed_of rest) (sym (ap sealed_of e) ∙ none_sealed)) h
  ]

  -- As long as the flusher has not returned and a caller waits, some step of the work goes on.
  progress : IsTold s → s.phase ≢ stopped → s.callers ≢ [] → CanWork gob os s
  progress h on waits = elim (List-cases s.remaining) [
    | inr (log, logs, e) ↦ (_, by_flusher (applies s log logs e) tt, tt)
    | inl idle ↦ elim (List-cases s.wal.batches) [
      | inr (b, rest, e) ↦ can_flush idle (queued s.phase s.wal b rest on e) tt
      | inl none_queued ↦ elim (List-cases s.wal.batch) [
        | inr (r, rs, e) ↦
            let (phase, picks, busy) = open_batch s.phase s.wal on none_queued (λ z. cc) in
            can_flush idle picks busy
        | inl none_open ↦ elim (HasSealed-cases s.callers) [
          | inr sender ↦ can_send none_queued sender
          | inl none_sealed ↦ can_return waits none_queued none_open none_sealed h
        ]
      ]
    ]
  ]

Picks-running :
    {phase phase' : Phase} {wal wal' : Wal} {batch : List WriteRequest}
    → Picks phase wal batch wal' phase'
    → phase ≡ running
    → phase' ≡ running
Picks-running (queued phase wal batch rest on e) r = r
Picks-running (ticked wal) r = refl
Picks-running (drained wal e) r = cc

Work-running : {gob : Gob} {s t : System} → Work gob s t → s.phase ≡ running → t.phase ≡ running
Work-running (by_caller (pushes s lsn command_id arguments) own) r = r
Work-running (by_caller (sends s before after c wal listed some_sealed sent) own) r = r
Work-running (by_caller (reads s before after c e channels listed none_sealed got) own) r = r
Work-running (by_flusher (flushes s os batch wal wal' phase e logs idle picks begun) busy) r =
    Picks-running picks r
Work-running (by_flusher (applies s log logs left) busy) r = r
Work-running (by_flusher (cancels s idle runs) busy) r = absurd busy

Work-IsTold : {gob : Gob} {s t : System} → Work gob s t → IsWaiting s → IsTold s → IsTold t
Work-IsTold (by_caller st own) = Step-IsTold (caller st)
Work-IsTold (by_flusher st busy) = Step-IsTold (flusher st)

-- However the work goes, it comes to a state in which no caller waits: where one does, some step goes
-- on, whatever the system answers to it, and all this holds after every step that can come.
pub data AllReturn (gob : Gob) : System → Type 0 where
  returned : (s : System) → s.callers ≡ [] → AllReturn gob s
  goes_on :
      (s : System)
      → ((os : Os) → CanWork gob os s)
      → ((t : System) → Work gob s t → AllReturn gob t)
      → AllReturn gob s

-- After at most `fuel` steps.
AllReturn-fuel :
    (fuel : ℕ) (gob : Gob) (s : System)
    → measure s ≤ fuel
    → IsWaiting s
    → IsTold s
    → s.phase ≡ running
    → (s.callers ≡ []) ⊎ NonEmpty s.callers
    → AllReturn gob s
AllReturn-fuel fuel gob s enough w h r (inl e) = returned s e
AllReturn-fuel zero gob s enough w h r (inr (c, rest, e)) =
    absurd (omega (arith, enough, ap length e))
AllReturn-fuel (suc fuel) gob s enough w h r (inr (c, rest, e)) =
    goes_on s (λ os. progress gob os s w h (λ z. cc) (λ z. cc))
      (λ t work.
        AllReturn-fuel fuel gob t (omega (arith, Work-less work w)) (Work-IsWaiting work w)
          (Work-IsTold work w h) (Work-running work r) (List-cases t.callers))

-- In every run from a Wal whose batch and channel are empty, in which the flusher has not been
-- cancelled: the calls that are under way come to return, however the steps of the calls and the
-- flusher are ordered from there on, and whatever the system answers. While one waits, some step of
-- the work can be taken, and no choice of steps goes on for good. No further call is needed.
pub Reach-AllReturn :
    {gob : Gob} {wal : Wal} {s : System}
    → wal.batch ≡ []
    → wal.batches ≡ []
    → Reach gob wal s
    → s.phase ≡ running
    → AllReturn gob s
Reach-AllReturn {gob} {s = s} e f run r =
    AllReturn-fuel (measure s) gob s (omega arith) (Reach-IsWaiting e f run) (Reach-IsTold e f run)
      r (List-cases s.callers)
