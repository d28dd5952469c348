-- ===== src/Wal/Drain.antt =====
-- The end of the flusher (Wal.Start of wal.go): when the context is cancelled, every caller that
-- waits gets an answer.
use mathlib.Core.Path.{subst}
use in_memory_base.Base.{
  ℕ, suc, ◌≡◌, refl, sym, ◌∙◌, true, List, [], ◌∷◌, ◌++◌, Option, none, All, All-append,
}
use in_memory_base.Base.Errors.{Error}
use in_memory_base.Concurrency.Promise.{done}
use in_memory_base.Filesystem.Disk.{Os}
use in_memory_base.Filesystem.Contents.{Extends, Extends-refl, Extends-trans}
use in_memory_base.Wal.Log.{Gob}
use in_memory_base.Wal.Request.{Channels, WriteRequest}
use in_memory_base.Wal.Batch.{Wal, seal_batch, flush_batch}
use in_memory_base.Wal.Pending.{IsPending, address, resolve_all}
use in_memory_base.Wal.Flush.{flush_batch-IsFlushed}
use in_memory_base.Wal.Flusher.{flush_logged, on_batch, on_tick, drain_queue, drain}
use in_memory_base.Wal.Answered.{
  IsAnswered, Outside, Outside-append, IsPending-left, IsPending-resolve_all, Outside-later,
  resolve_all-Outside, resolve_all-answers,
}

-- All requests that wait, in the order in which the drain meets them.
abbrev pub waiting : List (List WriteRequest) → List WriteRequest → List WriteRequest
waiting [] batch = batch
waiting (b ∷ queue) batch = b ++ waiting queue batch

abbrev pub Answers : Wal → List WriteRequest → Type 0
Answers wal = All (λ x. IsAnswered wal.output.channels (address x))

-- What flushing some pending requests does to the channels.
record HasAnswered (batch : List WriteRequest) (before after : Wal) : Type 0 where
  answers : Answers after batch
  others :
      (a : ℕ)
      → Outside batch a
      → after.output.channels.channels a ≡ before.output.channels.channels a
  pending :
      (ys : List WriteRequest)
      → IsPending (batch ++ ys) before.output.channels
      → IsPending ys after.output.channels
  extends : Extends before.output.disk after.output.disk
  same_batch : after.batch ≡ before.batch
  same_batches : after.batches ≡ before.batches

record Flushed (gob : Gob) (os : Os) (batch : List WriteRequest) (wal : Wal) : Type 0 where
  after : Wal
  result : flush_logged gob os batch wal ≡ done after
  has : HasAnswered batch wal after

with_error :
    (e : Option Error) (channels : Channels) (batch : List WriteRequest)
    → All (λ x. channels.channels (address x) ≡ record { buffer = e ∷ []; closed = true }) batch
    → All (λ x. IsAnswered channels (address x)) batch
with_error e channels [] h = tt
with_error e channels (x ∷ xs) h = ((e, h.0), with_error e channels xs h.1)

HasAnswered-resolve_all :
    (e : Option Error) (batch : List WriteRequest) (before after : Wal)
    → IsPending batch before.output.channels
    → after.output.channels ≡ resolve_all e batch before.output.channels
    → Extends before.output.disk after.output.disk
    → after.batch ≡ before.batch
    → after.batches ≡ before.batches
    → HasAnswered batch before after
HasAnswered-resolve_all e batch before after h answered extends same_batch same_batches = record {
  answers =
      subst (λ c. All (λ x. IsAnswered c (address x)) batch) (sym answered)
        (with_error e (resolve_all e batch before.output.channels) batch
          (resolve_all-answers e batch before.output.channels h));
  others = λ a o.
      subst (λ (c : Channels). c.channels a ≡ before.output.channels.channels a) (sym answered)
        (resolve_all-Outside e batch before.output.channels a o);
  pending = λ ys p.
      subst (IsPending ys) (sym answered)
        (IsPending-resolve_all e batch ys before.output.channels p);
  extends = extends;
  same_batch = same_batch;
  same_batches = same_batches;
}

flush_logged-Flushed :
    (gob : Gob) (os : Os) (batch : List WriteRequest) (wal : Wal)
    → IsPending batch wal.output.channels
    → Flushed gob os batch wal
unfolding flush_logged
flush_logged-Flushed gob os [] wal h = record {
  after = wal;
  result = unfold flush_batch in refl;
  has = HasAnswered-resolve_all none [] wal wal tt refl (Extends-refl wal.output.disk) refl refl;
}
flush_logged-Flushed gob os (r ∷ rs) wal h =
    let f = flush_batch-IsFlushed gob os r rs wal h in
    record {
      after = f.after;
      result = rw f.result;
      has =
          HasAnswered-resolve_all f.error (r ∷ rs) wal f.after h f.output.answered f.output.extends
            f.same_batch f.same_batches;
    }

-- The state in which a drain ends.
pub record Drained (requests : List WriteRequest) (before after : Wal) : Type 0 where
  pub no_batch : after.batch ≡ []
  pub no_batches : after.batches ≡ []
  pub answers : Answers after requests
  pub others :
      (a : ℕ)
      → Outside requests a
      → after.output.channels.channels a ≡ before.output.channels.channels a
  pub extends : Extends before.output.disk after.output.disk

keep-Answers :
    (xs ys : List WriteRequest) (middle after : Wal)
    → All (λ x. Outside ys (address x)) xs
    → ((a : ℕ)
        → Outside ys a
        → after.output.channels.channels a ≡ middle.output.channels.channels a)
    → Answers middle xs
    → Answers after xs
keep-Answers [] ys middle after o same h = tt
keep-Answers (x ∷ xs) ys middle after o same h =
    ((h.0.0, same (address x) o.0 ∙ h.0.1), keep-Answers xs ys middle after o.1 same h.1)

pub record DrainsTo (gob : Gob) (os : ℕ → Os) (n : ℕ) (queue : List (List WriteRequest)) (wal : Wal)
    : Type 0 where
  pub after : Wal
  pub result : drain_queue gob os n queue wal ≡ done after
  pub drained : Drained (waiting queue wal.batch) wal after

drain_queue-DrainsTo :
    (gob : Gob) (os : ℕ → Os) (n : ℕ) (queue : List (List WriteRequest)) (wal : Wal)
    → wal.batches ≡ queue
    → IsPending (waiting queue wal.batch) wal.output.channels
    → DrainsTo gob os n queue wal
unfolding drain_queue on_batch on_tick
drain_queue-DrainsTo gob os n [] wal e h =
    let f = flush_logged-Flushed gob (os n) wal.batch (seal_batch wal).1 h in
    record {
      after = f.after;
      result = f.result;
      drained = record {
        no_batch = f.has.same_batch;
        no_batches = f.has.same_batches ∙ e;
        answers = f.has.answers;
        others = f.has.others;
        extends = f.has.extends;
      };
    }
drain_queue-DrainsTo gob os n (b ∷ queue) wal e h =
    let wal' : Wal = record wal { batches = queue } in
    let f =
      flush_logged-Flushed gob (os n) b wal' (IsPending-left b (waiting queue wal.batch) _ h) in
    let later = f.has.pending (waiting queue wal.batch) h in
    let rest = drain_queue-DrainsTo gob os (suc n) queue f.after f.has.same_batches (
      subst (λ l. IsPending (waiting queue l) f.after.output.channels) (sym f.has.same_batch)
        later) in
    let d =
      subst (λ l. Drained (waiting queue l) f.after rest.after) f.has.same_batch rest.drained in
    record {
      after = rest.after;
      result = rw f.result rest.result;
      drained = record {
        no_batch = d.no_batch;
        no_batches = d.no_batches;
        answers =
            All-append (λ x. IsAnswered rest.after.output.channels (address x)) b
              (waiting queue wal.batch)
              (keep-Answers b (waiting queue wal.batch) f.after rest.after
                (Outside-later b (waiting queue wal.batch) wal.output.channels h) d.others
                f.has.answers)
              d.answers;
        others = λ a o.
            let (l, r) = Outside-append b (waiting queue wal.batch) a o in
            d.others a r ∙ f.has.others a l;
        extends = Extends-trans f.has.extends d.extends;
      };
    }

-- The result of a drain.
pub record DrainedAll (gob : Gob) (os : ℕ → Os) (wal : Wal) : Type 0 where
  pub after : Wal
  pub result : drain gob os wal ≡ done after
  pub drained : Drained (waiting wal.batches wal.batch) wal after

-- When the context is cancelled and no caller pushes after that, the flusher returns, whatever the
-- system answers to each flush: the queue and the open batch are then empty, every caller that waited
-- has an answer, no other promise is touched, and no file has lost anything.
pub drain-DrainedAll :
    (gob : Gob) (os : ℕ → Os) (wal : Wal)
    → IsPending (waiting wal.batches wal.batch) wal.output.channels
    → DrainedAll gob os wal
unfolding drain
drain-DrainedAll gob os wal h =
    let d = drain_queue-DrainsTo gob os 0 wal.batches wal refl h in
    record { after = d.after; result = d.result; drained = d.drained }
