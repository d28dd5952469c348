-- ===== src/Wal/System/Progress.antt =====
-- That the callers of wal.go do not wait for good while the flusher has not returned: the work that is
-- under way comes to its end, and until then some part of it can go on.
use mathlib.Core.Path.{subst}
use in_memory_base.Base.{
  ℕ, suc, ◌+◌, ◌*◌, ◌≤◌, ◌<◌, ◌≡◌, ◌≢◌, refl, sym, ap, List, [], ◌∷◌, ◌++◌, Option, none, some,
  length, length-append, length-map, arith,
}
use in_memory_base.Base.Arrange.{concat}
use in_memory_base.Base.Sort.{length-sort_by}
use in_memory_base.Wal.Recovery.{by_lsn}
use in_memory_base.Base.Errors.{Error}
use in_memory_base.Wal.Log.{Gob}
use in_memory_base.Wal.Stream.{logs_of}
use in_memory_base.Wal.Request.{WriteRequest}
use in_memory_base.Wal.Batch.{Wal, seal_batch}
use in_memory_base.Wal.System.{
  System, Caller, Phase, Picks, queued, ticked, drained, CallerStep, FlusherStep, pushes, sends,
  reads, flushes, applies, cancels, sealed_of, queued_or_open, apply_next,
}
use in_memory_base.Wal.System.Flushing.{applied_logs}
use in_memory_base.Wal.System.Moves.{send-IsSent, sealed_of-append}
use in_memory_base.Wal.System.Waiting.{
  IsWaiting, sealed_of-without, Picks-IsBegun, CallerStep-IsWaiting, FlusherStep-IsWaiting,
}

-- A step of a call that is under way.
abbrev pub IsOwnStep : {gob : Gob} {s t : System} → CallerStep gob s t → Type 0
IsOwnStep (pushes s lsn command_id arguments) = ⊥
IsOwnStep (sends s before after c wal listed some_sealed sent) = Unit
IsOwnStep (reads s before after c e channels listed none_sealed got) = Unit

-- The flusher has a batch in its hands, which may be any that it was sent.
abbrev pub IsBusy :
    {phase phase' : Phase} {wal wal' : Wal} {batch : List WriteRequest}
    → Picks phase wal batch wal' phase'
    → Type 0
IsBusy (queued phase wal batch rest on e) = Unit
IsBusy (ticked wal) = wal.batch ≢ []
IsBusy (drained wal e) = wal.batch ≢ []

abbrev pub HasWork : {gob : Gob} {s t : System} → FlusherStep gob s t → Type 0
HasWork (flushes s os batch wal wal' phase e logs idle picks begun) = IsBusy picks
HasWork (applies s log logs left) = Unit
HasWork (cancels s idle runs) = ⊥

-- The steps by which what was pushed is worked off: all but further calls, ticks that find no batch,
-- and the cancellation.
pub data Work (gob : Gob) (s t : System) : Type 0 where
  by_caller : (st : CallerStep gob s t) → IsOwnStep st → Work gob s t
  by_flusher : (st : FlusherStep gob s t) → HasWork st → Work gob s t

-- What is left to do: a call has to return; a request in a batch that is still to be sent has farther
-- to go than one that was sent or stands in the open batch; every batch in the channel is to be taken,
-- every record applied.
abbrev pub measure : System → ℕ
measure s =
    length s.callers
    + 4 * length (sealed_of s.callers)
    + 2 * length (queued_or_open s.wal)
    + length s.wal.batches
    + length s.remaining

pub Work-IsWaiting : {gob : Gob} {s t : System} → Work gob s t → IsWaiting s → IsWaiting t
Work-IsWaiting (by_caller st own) h = CallerStep-IsWaiting st h
Work-IsWaiting (by_flusher st busy) h = FlusherStep-IsWaiting st h

length-sealed :
    (before after : List Caller) (c : Caller)
    → length (sealed_of (before ++ (c ∷ after)))
      ≡ length (sealed_of before) + length c.sealed + length (sealed_of after)
length-sealed before after c = omega (
  arith,
  ap length (sealed_of-append before (c ∷ after)),
  length-append (sealed_of before) (c.sealed ++ sealed_of after),
  length-append c.sealed (sealed_of after),
)

not_empty {ℓ} : {A : Type ℓ} (xs : List A) → xs ≢ [] → 1 ≤ length xs
not_empty [] h = absurd (h refl)
not_empty (x ∷ xs) h = omega arith

length-queued_or_open :
    (wal : Wal) → length (queued_or_open wal) ≡ length (concat wal.batches) + length wal.batch
length-queued_or_open wal = length-append (concat wal.batches) wal.batch

own_less :
    {gob : Gob} {s t : System} (st : CallerStep gob s t) → IsOwnStep st → measure t < measure s
own_less (pushes s lsn command_id arguments) own = absurd own
own_less (sends s before after c wal listed some_sealed sent) own =
    let sending = send-IsSent c.sealed s.wal wal sent in
    let wal' : Wal = record s.wal { batches = sending.queue } in
    let c' : Caller = record c { sealed = [] } in
    let less : measure (record s { wal = wal'; callers = before ++ (c' ∷ after) }) < measure s =
      omega (
        arith,
        ap length listed,
        length-append before (c ∷ after),
        length-append before (c' ∷ after),
        ap (λ l. length (sealed_of l)) listed,
        length-sealed before after c,
        length-sealed before after c',
        length-queued_or_open s.wal,
        length-queued_or_open wal',
        ap length sending.joined,
        length-append (concat s.wal.batches) c.sealed,
        sending.count,
        not_empty c.sealed some_sealed,
      ) in
    subst (λ w. measure (record s { wal = w; callers = before ++ (c' ∷ after) }) < measure s)
      (sym sending.same) less
own_less (reads s before after c e channels listed none_sealed got) own = omega (
  arith,
  ap length listed,
  length-append before (c ∷ after),
  length-append before after,
  ap (λ l. length (sealed_of l)) listed,
  ap length (sealed_of-without before after c none_sealed),
)

-- A busy flush takes at least one batch or one request.
Picks-less :
    {phase phase' : Phase} {wal wal' : Wal} {batch : List WriteRequest}
    (picks : Picks phase wal batch wal' phase')
    → IsBusy picks
    → 2 * length (queued_or_open wal') + length wal'.batches + length batch
      < 2 * length (queued_or_open wal) + length wal.batches
unfolding seal_batch
Picks-less (queued phase wal batch rest on e) busy = omega (
  arith,
  length-queued_or_open wal,
  length-queued_or_open (record wal { batches = rest }),
  ap (λ l. length (concat l)) e,
  ap length e,
  length-append batch (concat rest),
)
Picks-less (ticked wal) busy = omega (
  arith,
  length-queued_or_open wal,
  length-append (concat wal.batches) [],
  not_empty wal.batch busy,
)
Picks-less (drained wal e) busy = omega (
  arith,
  length-queued_or_open wal,
  length-append (concat wal.batches) [],
  not_empty wal.batch busy,
)

length-applied_logs :
    (e : Option Error) (batch : List WriteRequest) → length (applied_logs e batch) ≤ length batch
length-applied_logs none batch =
    omega
      (arith, length-sort_by by_lsn (logs_of batch), length-map (λ (r : WriteRequest). r.log) batch)
length-applied_logs (some x) batch = omega arith

busy_less :
    {gob : Gob} {s t : System} (st : FlusherStep gob s t)
    → IsWaiting s
    → HasWork st
    → measure t < measure s
busy_less {gob} (flushes s os batch wal wal' phase e logs idle picks begun) w busy =
    let b = Picks-IsBegun gob os {s = s} picks begun w in
    omega (
      arith,
      Picks-less picks busy,
      ap length idle,
      ap length b.records,
      length-applied_logs e batch,
      ap (λ (x : Wal). length (queued_or_open x)) b.same,
      ap (λ (x : Wal). length x.batches) b.same,
    )
busy_less (applies s log logs left) w busy = unfold apply_next in omega (arith, ap length left)
busy_less (cancels s idle runs) w busy = absurd busy

pub Work-less : {gob : Gob} {s t : System} → Work gob s t → IsWaiting s → measure t < measure s
Work-less (by_caller st own) w = own_less st own
Work-less (by_flusher st busy) w = busy_less st w busy

-- A run of `n` such steps, in any order.
pub data Works (gob : Gob) : ℕ → System → System → Type 0 where
  rests : {s : System} → Works gob 0 s s
  works : {n : ℕ} {s t u : System} → Work gob s t → Works gob n t u → Works gob (suc n) s u

-- Work that is under way ends: from a state of any run, whatever the order of the steps and the
-- answers of the system, at most `measure` steps can be taken before a further call, a tick with
-- nothing to flush or the cancellation.
pub Works-measure :
    {gob : Gob} {n : ℕ} {s t : System} → Works gob n s t → IsWaiting s → n + measure t ≤ measure s
Works-measure rests w = omega arith
Works-measure (works st run) w =
    omega (arith, Work-less st w, Works-measure run (Work-IsWaiting st w))
