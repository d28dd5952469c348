-- ===== src/Wal/System/Moves.antt =====
-- Where the requests go that wait in wal.go: each step of a caller or of the flusher moves them from
-- one place to the next, and loses none.
use mathlib.Core.Path.{subst}
use in_memory_base.Base.{
  ◌+◌, ◌≤◌, ltb, length, length-append, arith, Bool-cases, inl, inr, ◌≡◌, refl, sym, ap, ◌∙◌, Bool,
  true, false, List, [], ◌∷◌, ◌++◌, append_assoc, append-nil,
}
use in_memory_base.Base.Int.{ℤ}
use in_memory_base.Base.Arrange.{
  Permᴰ, trans, append_left, append_right, middle, same_order, concat, concat-append, block_first,
}
use in_memory_base.Base.Text.{Text}
use in_memory_base.Concurrency.Promise.{done}
use in_memory_base.Wal.Log.{Gob}
use in_memory_base.Wal.Request.{WriteRequest}
use in_memory_base.Wal.Batch.{Wal, seal_batch, seal_if, add_request, push, send, batches_capacity}
use in_memory_base.Wal.Push.{push-append}
use in_memory_base.Wal.System.{
  Caller, caller_of, Phase, Picks, queued, ticked, drained, sealed_of, unwritten,
}

same_list {ℓ} : {A : Type ℓ} {xs ys : List A} → xs ≡ ys → Permᴰ xs ys
same_list {xs = xs} e = subst (Permᴰ xs) e (same_order xs)

seal_if-batches : (b : Bool) (wal : Wal) → (seal_if b wal).1.batches ≡ wal.batches
unfolding seal_if
seal_if-batches true wal = refl
seal_if-batches false wal = refl

seal_if-output : (b : Bool) (wal : Wal) → (seal_if b wal).1.output ≡ wal.output
unfolding seal_if
seal_if-output true wal = refl
seal_if-output false wal = refl

seal_if-table :
    (b : Bool) (wal : Wal) → (seal_if b wal).1.command_hash_table ≡ wal.command_hash_table
unfolding seal_if
seal_if-table true wal = refl
seal_if-table false wal = refl

module _ (gob : Gob) (lsn command_id : ℤ) (arguments : List Text) (wal : Wal) where
  abbrev pushed : WriteRequest × List WriteRequest × Wal
  pushed = push gob lsn command_id arguments wal

  push-batches : pushed.2.batches ≡ wal.batches
  unfolding push
  push-batches = seal_if-batches _ (add_request gob lsn command_id arguments wal).1

  pub push-output : pushed.2.output ≡ (add_request gob lsn command_id arguments wal).1.output
  unfolding push
  push-output = seal_if-output _ (add_request gob lsn command_id arguments wal).1

  pub push-table : pushed.2.command_hash_table ≡ wal.command_hash_table
  unfolding push
  push-table = seal_if-table _ (add_request gob lsn command_id arguments wal).1

-- The steps on lists of any type: the open batch takes `x` at its end and may be sealed, a sealed
-- batch joins the queue, and the next one leaves it.
module _ {ℓ} {A : Type ℓ} where
  joins :
      (sealed batch' batch s q : List A) (x : A)
      → sealed ++ batch' ≡ batch ++ (x ∷ [])
      → Permᴰ ((sealed ++ s) ++ (q ++ batch')) (x ∷ (s ++ (q ++ batch)))
  joins sealed batch' batch s q x e =
      trans
        (same_list (
          append_assoc sealed s (q ++ batch')
          ∙ ap (λ l. sealed ++ l) (sym (append_assoc s q batch'))))
        (trans (block_first sealed (s ++ q) batch') (
          trans (same_list (ap (λ l. (s ++ q) ++ l) e ∙ sym (append_assoc (s ++ q) batch (x ∷ []))))
            (trans (middle x ((s ++ q) ++ batch) []) (
              same_list
                (ap (λ l. x ∷ l) (append-nil ((s ++ q) ++ batch) ∙ append_assoc s q batch))))))

  queues :
      (s₁ c s₂ q b : List A) → Permᴰ ((s₁ ++ (c ++ s₂)) ++ (q ++ b)) ((s₁ ++ s₂) ++ ((q ++ c) ++ b))
  queues s₁ c s₂ q b = trans (append_right (q ++ b) (block_first s₁ c s₂)) (
      trans (same_list (append_assoc c (s₁ ++ s₂) (q ++ b))) (
        trans (block_first c (s₁ ++ s₂) (q ++ b)) (
          append_left (s₁ ++ s₂)
            (trans (block_first c q b) (same_list (sym (append_assoc q c b)))))))

  leaves : (s b q o : List A) → Permᴰ (s ++ ((b ++ q) ++ o)) (b ++ (s ++ (q ++ o)))
  leaves s b q o =
      trans (same_list (ap (λ l. s ++ l) (append_assoc b q o))) (block_first s b (q ++ o))

  opened : (s q b : List A) → Permᴰ (s ++ (q ++ b)) (b ++ (s ++ (q ++ [])))
  opened s q b = trans (same_list (sym (append_assoc s q b))) (
      trans (same_list (ap (λ l. (s ++ q) ++ l) (sym (append-nil b))))
        (trans (block_first (s ++ q) b []) (append_left b (same_list (append_assoc s q [])))))

-- push adds its request to those that wait.
pub push-unwritten :
    (gob : Gob) (lsn command_id : ℤ) (arguments : List Text) (wal : Wal) (callers : List Caller)
    → Permᴰ
        (unwritten
          (caller_of (push gob lsn command_id arguments wal) ∷ callers)
          (push gob lsn command_id arguments wal).2)
        ((push gob lsn command_id arguments wal).0 ∷ unwritten callers wal)
push-unwritten gob lsn command_id arguments wal callers =
    let p = push gob lsn command_id arguments wal in
    subst
      (λ batches.
        Permᴰ ((p.1 ++ sealed_of callers) ++ (concat batches ++ p.2.batch))
          (p.0 ∷ unwritten callers wal))
      (sym (push-batches gob lsn command_id arguments wal))
      (joins p.1 p.2.batch wal.batch (sealed_of callers) (concat wal.batches) p.0
        (push-append gob lsn command_id arguments wal))

pub sealed_of-append :
    (before after : List Caller) → sealed_of (before ++ after) ≡ sealed_of before ++ sealed_of after
sealed_of-append [] after = refl
sealed_of-append (c ∷ before) after =
    ap (λ l. c.sealed ++ l) (sealed_of-append before after)
    ∙ sym (append_assoc c.sealed (sealed_of before) (sealed_of after))

-- What a send that goes on has done: the queue holds the sealed batch after what it held.
pub record IsSent (sealed : List WriteRequest) (wal wal' : Wal) : Type 0 where
  pub queue : List (List WriteRequest)
  pub same : wal' ≡ record wal { batches = queue }
  pub joined : concat queue ≡ concat wal.batches ++ sealed
  pub count : length queue ≤ length wal.batches + 1

same_wal : {x y : Wal} → done x ≡ done y → x ≡ y
same_wal h = cc

pub send-IsSent :
    (sealed : List WriteRequest) (wal wal' : Wal)
    → send sealed wal ≡ done wal'
    → IsSent sealed wal wal'
unfolding send
send-IsSent [] wal wal' h = record {
  queue = wal.batches;
  same = sym (same_wal h);
  joined = sym (append-nil (concat wal.batches));
  count = omega arith;
}
send-IsSent (r ∷ rs) wal wal' h = elim (Bool-cases (ltb (length wal.batches) batches_capacity)) [
  | inl e ↦ record {
    queue = wal.batches ++ ((r ∷ rs) ∷ []);
    same = sym (same_wal (rw e at h));
    joined =
        concat-append wal.batches ((r ∷ rs) ∷ [])
        ∙ ap (λ l. concat wal.batches ++ l) (append-nil (r ∷ rs));
    count = omega (arith, length-append wal.batches ((r ∷ rs) ∷ []));
  }
  | inr e ↦ cc (rw e at h)
]

pub send-unwritten :
    (before after : List Caller) (c : Caller) (wal wal' : Wal)
    → send c.sealed wal ≡ done wal'
    → Permᴰ
        (unwritten (before ++ (c ∷ after)) wal)
        (unwritten (before ++ (record c { sealed = [] } ∷ after)) wal')
send-unwritten before after c wal wal' h =
    let sent = send-IsSent c.sealed wal wal' h in
    subst
      (λ w.
        Permᴰ (unwritten (before ++ (c ∷ after)) wal)
          (unwritten (before ++ (record c { sealed = [] } ∷ after)) w))
      (sym sent.same)
      (rw
        (
          sealed_of-append before (c ∷ after),
          sealed_of-append before (record c { sealed = [] } ∷ after),
          sent.joined,
        )
        (queues (sealed_of before) c.sealed (sealed_of after) (concat wal.batches) wal.batch))

-- A flush takes its batch out of those that wait.
pub Picks-unwritten :
    {phase phase' : Phase} {wal wal' : Wal} {batch : List WriteRequest} (callers : List Caller)
    → Picks phase wal batch wal' phase'
    → Permᴰ (unwritten callers wal) (batch ++ unwritten callers wal')
unfolding seal_batch
Picks-unwritten callers (queued phase wal batch rest running e) =
    subst
      (λ batches.
        Permᴰ (sealed_of callers ++ (concat batches ++ wal.batch))
          (batch ++ (sealed_of callers ++ (concat rest ++ wal.batch))))
      (sym e) (leaves (sealed_of callers) batch (concat rest) wal.batch)
Picks-unwritten callers (ticked wal) = opened (sealed_of callers) (concat wal.batches) wal.batch
Picks-unwritten callers (drained wal e) = opened (sealed_of callers) (concat wal.batches) wal.batch

-- It leaves the files, the promises and the table to the Write.
pub Picks-output :
    {phase phase' : Phase} {wal wal' : Wal} {batch : List WriteRequest}
    → Picks phase wal batch wal' phase'
    → wal'.output ≡ wal.output
unfolding seal_batch
Picks-output (queued phase wal batch rest running e) = refl
Picks-output (ticked wal) = refl
Picks-output (drained wal e) = refl

pub Picks-table :
    {phase phase' : Phase} {wal wal' : Wal} {batch : List WriteRequest}
    → Picks phase wal batch wal' phase'
    → wal'.command_hash_table ≡ wal.command_hash_table
unfolding seal_batch
Picks-table (queued phase wal batch rest running e) = refl
Picks-table (ticked wal) = refl
Picks-table (drained wal e) = refl
