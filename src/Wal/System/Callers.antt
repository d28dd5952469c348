-- ===== src/Wal/System/Callers.antt =====
-- The calls of push of wal.go that are under way, and what their own steps keep.
use mathlib.Core.Path.{subst, subst₂}
use in_memory_base.Base.{
  ◌+◌, ◌<◌, ◌≡◌, ◌≢◌, refl, sym, ap, ◌∙◌, true, List, [], ◌∷◌, ◌++◌, map, Option, none, All, inl,
  inr, arith, ◌⊎◌,
}
use in_memory_base.Base.Int.{ℤ}
use in_memory_base.Base.Arrange.{
  Permᴰ, nil, cons, swap, trans, symm, IsIn, here, later, IsIn-perm, All-perm, All-IsIn, All-of,
  All-map, same_order,
}
use in_memory_base.Base.Text.{Text}
use in_memory_base.Base.Errors.{Error}
use in_memory_base.Concurrency.Promise.{done, new_promise, update, Promise}
use in_memory_base.Concurrency.Promise
use in_memory_base.Wal.Log.{Gob}
use in_memory_base.Wal.Request.{Channels, WriteRequest, future_response}
use in_memory_base.Wal.Batch.{Wal, push, send}
use in_memory_base.Wal.Pending.{IsPending, address, update_ne}
use in_memory_base.Wal.Answered.{Outside}
use in_memory_base.Wal.System.{
  System, Caller, caller_of, Finished, channels_of, unwritten, queued_or_open, sealed_of,
}
use in_memory_base.Wal.System.Moves.{push-unwritten, send-unwritten, send-IsSent}
use in_memory_base.Wal.System.Promises.{
  get-HasGot, Outside-not_open, Outside-perm, below-Outside, new_promise-result, new_promise-next,
  push-address, push-channels, new_promise-elsewhere,
}
use in_memory_base.Wal.System.Waiting.{IsWaiting, sealed_of-without}

abbrev pub requests_of : List Caller → List WriteRequest
requests_of = map (λ (c : Caller). c.request)

abbrev pub Distinct : List WriteRequest → Type 0
Distinct [] = Unit
Distinct (r ∷ rs) = Outside rs (address r) × Distinct rs

Distinct-perm : {xs ys : List WriteRequest} → Permᴰ xs ys → Distinct xs → Distinct ys
Distinct-perm nil h = tt
Distinct-perm (cons {b = b} {l₂ = l₂} e p) (distinct, more) =
    subst (λ r. Distinct (r ∷ l₂)) e (Outside-perm _ p distinct, Distinct-perm p more)
Distinct-perm (swap {a = a} {b = b} {b' = b'} {l = l} e f) ((apart, d), (d', more)) =
    subst (λ x. Distinct (x ∷ b' ∷ l)) f
      (subst (λ y. Distinct (b ∷ y ∷ l)) e (((λ q. apart (sym q)), d'), (d, more)))
Distinct-perm (trans p q) h = Distinct-perm q (Distinct-perm p h)

-- The caller's request was in a batch whose Write is over, and what that Write returned waits for it.
pub record IsAnsweredBy (fs : List Finished) (channels : Channels) (r : WriteRequest) : Type 0 where
  pub batch : Finished
  pub over : IsIn batch fs
  pub among : IsIn r batch.requests
  pub waits : channels.channels (address r) ≡ record { buffer = batch.error ∷ []; closed = true }

abbrev pub Status : List WriteRequest → List Finished → Channels → WriteRequest → Type 0
Status waiting fs channels r = IsIn r waiting ⊎ IsAnsweredBy fs channels r

-- A caller was told what the Write of its batch returned.
pub record IsAnswerOf (fs : List Finished) (r : WriteRequest) (e : Option Error) : Type 0 where
  pub batch : Finished
  pub over : IsIn batch fs
  pub among : IsIn r batch.requests
  pub same : batch.error ≡ e

pub record IsTold (s : System) : Type 0 where
  pub distinct : Distinct (requests_of s.callers)
  pub numbered : All (λ r. address r < (channels_of s).next) (requests_of s.callers)
  pub answerable :
      All (Status (unwritten s.callers s.wal) s.finished (channels_of s)) (requests_of s.callers)
  pub told : All (λ x. IsAnswerOf s.finished x.0 x.1) s.told

-- A status lasts where the request stays among those that wait, and an answered channel is not
-- touched.
pub Status-moved :
    (waiting waiting' : List WriteRequest) (fs : List Finished) (channels channels' : Channels)
    (r : WriteRequest)
    → (IsIn r waiting → IsIn r waiting')
    → (IsAnsweredBy fs channels r → channels'.channels (address r) ≡ channels.channels (address r))
    → Status waiting fs channels r
    → Status waiting' fs channels' r
Status-moved waiting waiting' fs channels channels' r move same (inl m) = inl (move m)
Status-moved waiting waiting' fs channels channels' r move same (inr a) =
    inr (record { batch = a.batch; over = a.over; among = a.among; waits = same a ∙ a.waits })

-- Another call: its request is among those that wait.
pub push-IsTold :
    (gob : Gob) (s : System) (lsn command_id : ℤ) (arguments : List Text)
    → IsTold s
    → IsTold (record s {
      wal = (push gob lsn command_id arguments s.wal).2;
      callers = caller_of (push gob lsn command_id arguments s.wal) ∷ s.callers;
    })
push-IsTold gob s lsn command_id arguments h =
    let p = push gob lsn command_id arguments s.wal in
    let place : address p.0 ≡ (channels_of s).next =
      ap (λ (q : Promise). q.result) (push-address gob lsn command_id arguments s.wal)
      ∙ new_promise-result (channels_of s) in
    let grown : p.2.output.channels.next ≡ (channels_of s).next + 1 =
      ap (λ (q : Channels). q.next) (push-channels gob lsn command_id arguments s.wal)
      ∙ new_promise-next (channels_of s) in
    let moves = symm (push-unwritten gob lsn command_id arguments s.wal s.callers) in
    record {
      distinct = (
        subst (Outside (requests_of s.callers)) (sym place) (below-Outside _ _ h.numbered),
        h.distinct,
      );
      numbered = (
        omega (arith, place, grown),
        All-map _ _ (requests_of s.callers) (λ r l. omega (arith, l, grown)) h.numbered,
      );
      answerable = (
        inl (IsIn-perm moves (here refl)),
        All-of _ (requests_of s.callers) (λ r m.
            Status-moved (unwritten s.callers s.wal) _ s.finished (channels_of s)
              p.2.output.channels r (λ w. IsIn-perm moves (later w))
              (λ _.
                ap (λ (q : Channels). q.channels (address r))
                  (push-channels gob lsn command_id arguments s.wal)
                ∙ new_promise-elsewhere (channels_of s) (address r)
                    (λ q. omega (arith, All-IsIn _ r (requests_of s.callers) h.numbered m, q)))
              (All-IsIn _ r (requests_of s.callers) h.answerable m)),
      );
      told = h.told;
    }

requests_of-kept :
    (before after : List Caller) (c : Caller)
    → requests_of (before ++ (record c { sealed = [] } ∷ after))
      ≡ requests_of (before ++ (c ∷ after))
requests_of-kept [] after c = refl
requests_of-kept (b ∷ before) after c = ap (λ l. b.request ∷ l) (requests_of-kept before after c)

pub send-IsTold :
    (s : System) (before after : List Caller) (c : Caller) (wal : Wal)
    → s.callers ≡ before ++ (c ∷ after)
    → send c.sealed s.wal ≡ done wal
    → IsTold s
    → IsTold (record s { wal = wal; callers = before ++ (record c { sealed = [] } ∷ after) })
send-IsTold s before after c wal listed sent h =
    let requests = ap requests_of listed ∙ sym (requests_of-kept before after c) in
    let channels =
      ap (λ (w : Wal). w.output.channels) (sym (send-IsSent c.sealed s.wal wal sent).same) in
    let moves =
      subst
        (λ l.
          Permᴰ (unwritten l s.wal) (unwritten (before ++ (record c { sealed = [] } ∷ after)) wal))
        (sym listed) (send-unwritten before after c s.wal wal sent) in
    record {
      distinct = subst Distinct requests h.distinct;
      numbered =
          subst₂ (λ l (q : Channels). All (λ r. address r < q.next) l) requests channels h.numbered;
      answerable =
          subst₂
            (λ l q.
              All
                (Status (unwritten (before ++ (record c { sealed = [] } ∷ after)) wal) s.finished q)
                l)
            requests channels
            (All-map _ _ (requests_of s.callers)
              (λ r.
                Status-moved (unwritten s.callers s.wal) _ s.finished (channels_of s)
                  (channels_of s) r (IsIn-perm moves) (λ _. refl))
              h.answerable);
      told = h.told;
    }

requests_of-first :
    (before after : List Caller) (c : Caller)
    → Permᴰ (requests_of (before ++ (c ∷ after))) (c.request ∷ requests_of (before ++ after))
requests_of-first [] after c = same_order (c.request ∷ requests_of after)
requests_of-first (b ∷ before) after c =
    trans (cons refl (requests_of-first before after c)) (swap refl refl)

same_answer : {x y : Option Error × Channels} → done x ≡ done y → x.0 ≡ y.0
same_answer h = cc

get_answer :
    (r : WriteRequest) (x e : Option Error) (channels channels' : Channels)
    → channels.channels (address r) ≡ record { buffer = x ∷ []; closed = true }
    → Promise.get none (future_response r) channels ≡ done (e, channels')
    → x ≡ e
unfolding Promise.get
get_answer r x e channels channels' waits got = same_answer (rw waits at got)

-- The answer that a caller takes is that of its batch.
IsAnswerOf-got :
    (s : System) (r : WriteRequest) (e : Option Error) (channels : Channels)
    → Promise.get none (future_response r) (channels_of s) ≡ done (e, channels)
    → IsPending (unwritten s.callers s.wal) (channels_of s)
    → Status (unwritten s.callers s.wal) s.finished (channels_of s) r
    → IsAnswerOf s.finished r e
IsAnswerOf-got s r e channels got pending (inl m) = absurd (
    All-IsIn (λ q. address q ≢ address r) r (unwritten s.callers s.wal)
      (Outside-not_open (unwritten s.callers s.wal) (channels_of s) (address r)
        (get-HasGot r e (channels_of s) channels got).not_open pending)
      m refl)
IsAnswerOf-got s r e channels got pending (inr a) = record {
  batch = a.batch;
  over = a.over;
  among = a.among;
  same = get_answer r a.batch.error e (channels_of s) channels a.waits got;
}

pub read-IsTold :
    (s : System) (before after : List Caller) (c : Caller) (e : Option Error) (channels : Channels)
    → s.callers ≡ before ++ (c ∷ after)
    → c.sealed ≡ []
    → Promise.get none (future_response c.request) (channels_of s) ≡ done (e, channels)
    → IsWaiting s
    → IsTold s
    → IsTold (record s {
      wal = record s.wal { output = record s.wal.output { channels = channels } };
      callers = before ++ after;
      told = (c.request, e) ∷ s.told;
    })
read-IsTold s before after c e channels listed none_sealed got w h =
    let first =
      subst (λ l. Permᴰ (requests_of l) (c.request ∷ requests_of (before ++ after))) (sym listed)
        (requests_of-first before after c) in
    let taken = get-HasGot c.request e (channels_of s) channels got in
    let distinct = Distinct-perm first h.distinct in
    let answerable = All-perm _ first h.answerable in
    let waiting : unwritten s.callers s.wal ≡ unwritten (before ++ after) s.wal =
      ap (λ l. l ++ queued_or_open s.wal)
        (ap sealed_of listed ∙ sealed_of-without before after c none_sealed) in
    record {
      distinct = distinct.1;
      numbered =
          subst (λ (q : Channels). All (λ r. address r < q.next) (requests_of (before ++ after)))
            (sym taken.same) (All-perm _ first h.numbered).1;
      answerable = All-of _ (requests_of (before ++ after)) (λ r m.
          Status-moved (unwritten s.callers s.wal) (unwritten (before ++ after) s.wal) s.finished
            (channels_of s) channels r (subst (IsIn r) waiting)
            (λ _.
              ap (λ (q : Channels). q.channels (address r)) taken.same
              ∙ update_ne (channels_of s) (address c.request) (address r) taken.left
                  (All-IsIn (λ q. address q ≢ address c.request) r _ distinct.0 m))
            (All-IsIn _ r (requests_of (before ++ after)) answerable.1 m));
      told = (IsAnswerOf-got s c.request e channels got w.all.0 answerable.0, h.told);
    }
