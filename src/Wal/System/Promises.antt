-- ===== src/Wal/System/Promises.antt =====
-- The promises of the requests that wait in wal.go: what making another one, answering some, and
-- reading an answer leave of them.
use mathlib.Core.Path.{subst}
use in_memory_base.Base.{
  ℕ, ◌+◌, ◌<◌, ◌≡◌, ◌≢◌, refl, sym, ap, ◌∙◌, Bool, true, false, List, [], ◌∷◌, ◌++◌, Option, none,
  All, arith,
}
use in_memory_base.Base.Int.{ℤ}
use in_memory_base.Base.Arrange.{Permᴰ, nil, cons, swap, trans, All-perm, All-right, All-map}
use in_memory_base.Base.Text.{Text}
use in_memory_base.Base.Errors.{Error}
use in_memory_base.Concurrency.Promise.{
  Outcome, done, blocked, Promise, Store, Channel, new_promise, update,
}
use in_memory_base.Concurrency.Promise
use in_memory_base.Concurrency.OneShot.{IsOpen, new_promise-IsOpen, resolve}
use in_memory_base.Wal.Log.{Gob}
use in_memory_base.Wal.Request.{Channels, WriteRequest, new_write_request, future_response}
use in_memory_base.Wal.Writer.{Output}
use in_memory_base.Wal.Batch.{Wal, add_request, push}
use in_memory_base.Wal.Pending.{IsPending, address, resolve_all, update_ne}
use in_memory_base.Wal.Answered.{Outside, IsPending-resolve_all}
use in_memory_base.Wal.System.Moves.{push-output}

pub Outside-perm : {xs ys : List WriteRequest} (a : ℕ) → Permᴰ xs ys → Outside xs a → Outside ys a
Outside-perm a p h = All-perm (λ q. address q ≢ a) p h

pub IsPending-perm :
    {xs ys : List WriteRequest} (channels : Channels)
    → Permᴰ xs ys
    → IsPending xs channels
    → IsPending ys channels
IsPending-perm channels nil h = tt
IsPending-perm channels (cons {b = b} {l₂ = l₂} e p) (fresh, op, distinct, more) =
    subst (λ r. IsPending (r ∷ l₂) channels) e
      (fresh, op, Outside-perm _ p distinct, IsPending-perm channels p more)
IsPending-perm channels (swap {a = a} {b = b} {b' = b'} {l = l} e f)
      (fresh, op, (apart, distinct), (fresh', op', distinct', more)) =
    subst (λ x. IsPending (x ∷ b' ∷ l) channels) f
      (subst (λ y. IsPending (b ∷ y ∷ l) channels) e
        (fresh', op', ((λ q. apart (sym q)), distinct'), (fresh, op, distinct, more)))
IsPending-perm channels (trans p q) h = IsPending-perm channels q (IsPending-perm channels p h)

abbrev pub AllWait : List WriteRequest → Channels → Type 0
AllWait requests channels =
    IsPending requests channels × All (λ r. address r < channels.next) requests

pub AllWait-perm :
    {xs ys : List WriteRequest} (channels : Channels)
    → Permᴰ xs ys
    → AllWait xs channels
    → AllWait ys channels
AllWait-perm channels p (pending, numbered) =
    (IsPending-perm channels p pending, All-perm _ p numbered)

-- Channels that differ from others only at an address that no request has.
pub IsPending-elsewhere :
    (rs : List WriteRequest) (channels channels' : Channels) (a : ℕ)
    → ((b : ℕ) → b ≢ a → channels'.channels b ≡ channels.channels b)
    → Outside rs a
    → IsPending rs channels
    → IsPending rs channels'
IsPending-elsewhere [] channels channels' a same o h = tt
IsPending-elsewhere (r ∷ rs) channels channels' a same o (fresh, op, distinct, more) = (
  fresh,
  same (address r) o.0 ∙ op,
  distinct,
  IsPending-elsewhere rs channels channels' a same o.1 more,
)

-- The request of push, and the channels after it: the next channel is the request's.
pub push-address :
    (gob : Gob) (lsn command_id : ℤ) (arguments : List Text) (wal : Wal)
    → (push gob lsn command_id arguments wal).0.promise ≡ (new_promise wal.output.channels).0
unfolding push add_request new_write_request
push-address gob lsn command_id arguments wal = refl

pub push-channels :
    (gob : Gob) (lsn command_id : ℤ) (arguments : List Text) (wal : Wal)
    → (push gob lsn command_id arguments wal).2.output.channels
      ≡ (new_promise wal.output.channels).1
unfolding add_request new_write_request new_promise
push-channels gob lsn command_id arguments wal =
    ap (λ (o : Output). o.channels) (push-output gob lsn command_id arguments wal)

pub new_promise-result : (channels : Channels) → (new_promise channels).0.result ≡ channels.next
unfolding new_promise
new_promise-result channels = refl

pub new_promise-next : (channels : Channels) → (new_promise channels).1.next ≡ channels.next + 1
unfolding new_promise
new_promise-next channels = refl

pub new_promise-elsewhere :
    (channels : Channels) (b : ℕ)
    → b ≢ channels.next
    → (new_promise channels).1.channels b ≡ channels.channels b
unfolding new_promise
new_promise-elsewhere channels b h = update_ne channels channels.next b _ h

pub below-Outside : (rs : List WriteRequest) (n : ℕ) → All (λ r. address r < n) rs → Outside rs n
below-Outside rs n h = All-map _ _ rs (λ r l e. omega (arith, l, e)) h

pub AllWait-new :
    (r : WriteRequest) (rs : List WriteRequest) (channels : Channels)
    → r.promise ≡ (new_promise channels).0
    → AllWait rs channels
    → AllWait (r ∷ rs) (new_promise channels).1
unfolding new_promise
AllWait-new r rs channels e (pending, numbered) =
    let outside = below-Outside rs channels.next numbered in
    (
      (
        ap (λ (p : Promise). p.promised) e,
        subst (λ (p : Promise). IsOpen (new_promise channels).1 p.result) (sym e)
            (new_promise-IsOpen channels),
        subst (λ (p : Promise). Outside rs p.result) (sym e) outside,
        IsPending-elsewhere rs channels (new_promise channels).1 channels.next
            (new_promise-elsewhere channels) outside pending,
      ),
      (
        subst (λ (p : Promise). p.result < channels.next + 1) (sym e) (omega arith),
        All-map _ _ rs (λ x l. omega (arith, l)) numbered,
      ),
    )

pub resolve_all-next :
    (e : Option Error) (rs : List WriteRequest) (channels : Channels)
    → (resolve_all e rs channels).next ≡ channels.next
resolve_all-next e [] channels = refl
resolve_all-next e (r ∷ rs) channels = resolve_all-next e rs (resolve channels (address r) e)

-- A Get that returns: the channel was not an open one, and no other is touched.
pub record HasGot (r : WriteRequest) (channels channels' : Channels) : Type 0 where
  pub left : Channel (Option Error)
  pub same : channels' ≡ record channels { channels = update channels.channels (address r) left }
  pub not_open : ¬ IsOpen channels (address r)

pub same_store : {x y : Option Error × Channels} → done x ≡ done y → x.1 ≡ y.1
same_store h = cc

pub got_of :
    (r : WriteRequest) (e : Option Error) (channels channels' : Channels)
    (buffer : List (Option Error)) (closed : Bool)
    → channels.channels (address r) ≡ record { buffer = buffer; closed = closed }
    → Promise.get none (future_response r) channels ≡ done (e, channels')
    → HasGot r channels channels'
unfolding Promise.get
got_of r e channels channels' [] true c h = record {
  left = _;
  same = sym (same_store (rw c at h));
  not_open = λ o. cc;
}
got_of r e channels channels' [] false c h = cc (rw c at h)
got_of r e channels channels' (x ∷ xs) closed c h = record {
  left = _;
  same = sym (same_store (rw c at h));
  not_open = λ o. cc;
}

pub get-HasGot :
    (r : WriteRequest) (e : Option Error) (channels channels' : Channels)
    → Promise.get none (future_response r) channels ≡ done (e, channels')
    → HasGot r channels channels'
get-HasGot r e channels channels' =
    let c = channels.channels (address r) in got_of r e channels channels' c.buffer c.closed refl

-- A promise whose channel is not open is none of those that wait.
pub Outside-not_open :
    (rs : List WriteRequest) (channels : Channels) (a : ℕ)
    → ¬ IsOpen channels a
    → IsPending rs channels
    → Outside rs a
Outside-not_open [] channels a h p = tt
Outside-not_open (x ∷ rs) channels a h (fresh, op, distinct, more) =
    ((λ q. h (subst (IsOpen channels) q op)), Outside-not_open rs channels a h more)

pub AllWait-got :
    (rs : List WriteRequest) (r : WriteRequest) (channels channels' : Channels)
    → HasGot r channels channels'
    → AllWait rs channels
    → AllWait rs channels'
AllWait-got rs r channels channels' got (pending, numbered) = subst (AllWait rs) (sym got.same) (
  IsPending-elsewhere rs channels _ (address r)
      (λ b ne. update_ne channels (address r) b got.left ne)
      (Outside-not_open rs channels (address r) got.not_open pending) pending,
  numbered,
)

pub AllWait-resolve_all :
    (e : Option Error) (xs ys : List WriteRequest) (channels : Channels)
    → AllWait (xs ++ ys) channels
    → AllWait ys (resolve_all e xs channels)
AllWait-resolve_all e xs ys channels (pending, numbered) = (
  IsPending-resolve_all e xs ys channels pending,
  subst (λ n. All (λ r. address r < n) ys) (sym (resolve_all-next e xs channels))
      (All-right _ xs ys numbered),
)
