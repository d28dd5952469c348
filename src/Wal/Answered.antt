-- ===== src/Wal/Answered.antt =====
-- Which channels a notification (wal_writer.go) touches, and what stands in them after it.
use in_memory_base.Base.{
  ℕ, ◌≡◌, ◌≢◌, refl, sym, ◌∙◌, true, List, [], ◌∷◌, ◌++◌, Option, All, ==_refl,
}
use in_memory_base.Base.Errors.{Error}
use in_memory_base.Concurrency.OneShot.{resolve}
use in_memory_base.Wal.Request.{Channels, WriteRequest}
use in_memory_base.Wal.Pending.{IsPending, address, resolve_all, update_ne, IsPending-resolve}

-- The caller at `a` has its answer: it waits in the channel, which is closed.
abbrev pub IsAnswered : Channels → ℕ → Type 0
IsAnswered channels a =
    (e : Option Error) × (channels.channels a ≡ record { buffer = e ∷ []; closed = true })

abbrev pub Outside : List WriteRequest → ℕ → Type 0
Outside rs a = All (λ q. address q ≢ a) rs

pub Outside-append :
    (xs ys : List WriteRequest) (a : ℕ) → Outside (xs ++ ys) a → Outside xs a × Outside ys a
Outside-append [] ys a h = (tt, h)
Outside-append (x ∷ xs) ys a h = let (l, r) = Outside-append xs ys a h.1 in ((h.0, l), r)

pub IsPending-left :
    (xs ys : List WriteRequest) (channels : Channels)
    → IsPending (xs ++ ys) channels
    → IsPending xs channels
IsPending-left [] ys channels h = tt
IsPending-left (x ∷ xs) ys channels (fresh, op, distinct, more) =
    (fresh, op, (Outside-append xs ys (address x) distinct).0, IsPending-left xs ys channels more)

-- Once the first ones are answered, the others still wait.
pub IsPending-resolve_all :
    (e : Option Error) (xs ys : List WriteRequest) (channels : Channels)
    → IsPending (xs ++ ys) channels
    → IsPending ys (resolve_all e xs channels)
IsPending-resolve_all e [] ys channels h = h
IsPending-resolve_all e (x ∷ xs) ys channels (fresh, op, distinct, more) =
    IsPending-resolve_all e xs ys (resolve channels (address x) e)
      (IsPending-resolve (address x) e (xs ++ ys) channels distinct more)

-- No later one has the channel of an earlier one.
pub Outside-later :
    (xs ys : List WriteRequest) (channels : Channels)
    → IsPending (xs ++ ys) channels
    → All (λ x. Outside ys (address x)) xs
Outside-later [] ys channels h = tt
Outside-later (x ∷ xs) ys channels (fresh, op, distinct, more) =
    ((Outside-append xs ys (address x) distinct).1, Outside-later xs ys channels more)

pub resolve_all-Outside :
    (e : Option Error) (xs : List WriteRequest) (channels : Channels) (a : ℕ)
    → Outside xs a
    → (resolve_all e xs channels).channels a ≡ channels.channels a
resolve_all-Outside e [] channels a h = refl
resolve_all-Outside e (x ∷ xs) channels a h =
    resolve_all-Outside e xs (resolve channels (address x) e) a h.1
    ∙ update_ne channels (address x) a _ (λ p. h.0 (sym p))

resolve_self :
    (channels : Channels) (a : ℕ) (e : Option Error)
    → (resolve channels a e).channels a ≡ record { buffer = e ∷ []; closed = true }
resolve_self channels a e = rw (==_refl a)

pub resolve_all-answers :
    (e : Option Error) (xs : List WriteRequest) (channels : Channels)
    → IsPending xs channels
    → All
        (λ x.
          (resolve_all e xs channels).channels (address x)
          ≡ record { buffer = e ∷ []; closed = true })
        xs
resolve_all-answers e [] channels h = tt
resolve_all-answers e (x ∷ xs) channels (fresh, op, distinct, more) = (
  resolve_all-Outside e xs (resolve channels (address x) e) (address x) distinct
      ∙ resolve_self channels (address x) e,
  resolve_all-answers e xs (resolve channels (address x) e)
      (IsPending-resolve (address x) e xs channels distinct more),
)
