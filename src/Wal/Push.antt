-- ===== src/Wal/Push.antt =====
-- Wal.push (wal.go): the batch stays below its thresholds, and no request is lost.
use in_memory_base.Base.{
  ◌+◌, ◌≤◌, ◌≡◌, refl, Bool, true, false, List, [], ◌∷◌, ◌++◌, length, length-append, append-nil,
  arith,
}
use in_memory_base.Base.Int.{ℤ, pos, ltb_ℤ, ◌≤ℤ◌}
use in_memory_base.Base.Text.{Text}
use in_memory_base.Wal.Log.{Gob}
use in_memory_base.Wal.Request.{WriteRequest}
use in_memory_base.Wal.Batch.{Wal, is_full, seal_if, add_request, push}

append-seal_if : (b : Bool) (wal : Wal) → (seal_if b wal).0 ++ (seal_if b wal).1.batch ≡ wal.batch
unfolding seal_if
append-seal_if true wal = append-nil wal.batch
append-seal_if false wal = refl

below :
    (b : Bool) (wal : Wal)
    → is_full wal ≡ b
    → ltb_ℤ (pos 0) wal.config.flushing_batch_count ≡ true
    → ltb_ℤ (pos 0) wal.config.flushing_batch_volume ≡ true
    → is_full (seal_if b wal).1 ≡ false
unfolding seal_if
below true wal e c v = ground arith
below false wal e c v = e

sealed-le : (b : Bool) (wal : Wal) → length (seal_if b wal).0 ≤ length wal.batch
unfolding seal_if
sealed-le true wal = omega arith
sealed-le false wal = omega arith

not_full_count :
    (wal : Wal)
    → is_full wal ≡ false
    → pos (length wal.batch + 1) ≤ℤ wal.config.flushing_batch_count
not_full_count wal h = ground arith

module _ (gob : Gob) (lsn command_id : ℤ) (arguments : List Text) (wal : Wal) where
  abbrev pub pushed : WriteRequest × List WriteRequest × Wal
  pushed = push gob lsn command_id arguments wal

  -- No request is lost or comes twice in push: the batch that it sealed, if any, and the open batch
  -- after it are together the batch before it with the new request at its end.
  pub push-append : pushed.1 ++ pushed.2.batch ≡ wal.batch ++ (pushed.0 ∷ [])
  unfolding push
  push-append = append-seal_if _ (add_request gob lsn command_id arguments wal).1

  length_sealed : length pushed.1 ≤ length wal.batch + 1
  unfolding push
  length_sealed = omega (
    arith,
    sealed-le (is_full (add_request gob lsn command_id arguments wal).1)
        (add_request gob lsn command_id arguments wal).1,
    length-append wal.batch ((add_request gob lsn command_id arguments wal).0 ∷ []),
  )

  -- Where both thresholds are positive and the open batch is below them, push leaves it below both
  -- again: fewer records than FlushingBatchCount, and less volume than FlushingBatchVolume. A batch
  -- that push seals has at most FlushingBatchCount records.
  pub push_bounds :
      ltb_ℤ (pos 0) wal.config.flushing_batch_count ≡ true
      → ltb_ℤ (pos 0) wal.config.flushing_batch_volume ≡ true
      → is_full wal ≡ false
      → (is_full pushed.2 ≡ false) × (pos (length pushed.1) ≤ℤ wal.config.flushing_batch_count)
  push_bounds c v h = (
    unfold push in below _ (add_request gob lsn command_id arguments wal).1 refl c v,
    omega (arith, length_sealed, not_full_count wal h),
  )
