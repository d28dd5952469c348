-- ===== src/Wal/FirstFlush.antt =====
-- A program that starts in an empty directory, flushes one batch, and is started again: Recovery
-- (wal.go) makes the first segment, and the second time rebuilds the table.
use mathlib.Core.Path.{subst}
use in_memory_base.Base.{
  ℕ, ◌≡◌, refl, sym, ap, ◌∙◌, Bool, true, false, ◌&&◌, List, [], ◌∷◌, Option, none, some, arith,
  All,
}
use in_memory_base.Base.Int.{ℤ, pos, ltb_ℤ}
use in_memory_base.Base.Sort.{sort_by}
use in_memory_base.Base.Text.{Text, text_eq_refl}
use in_memory_base.Base.Errors.{Error, Result, ok}
use in_memory_base.Filesystem.Disk.{
  Disk, Os, Landing, written, failed, join_path, file_name, find_file, create_file, open_exclusive,
  write_file, land, append_to, read_file, get_file_list, regular_paths, sort_strings,
}
use in_memory_base.Filesystem.Segment.{
  Segment, new_segment, write, adopt, create, ensure_file, file_or_new, ensure_room, next_or_stay,
  store, store_to, account, set_file,
}
use in_memory_base.HashTable.{new_hash_table}
use in_memory_base.Wal.Log.{Log, Message, Gob, bytes_of}
use in_memory_base.Wal.Stream.{logs_of, stream}
use in_memory_base.Wal.Request.{Channels, WriteRequest}
use in_memory_base.Wal.Apply.{apply_logged}
use in_memory_base.Wal.Batch.{Wal, WalConfig, new_wal, flush_batch}
use in_memory_base.Wal.Recovery.{by_lsn, recover_files, after_files, after_list, recovery}
use in_memory_base.Wal.Replay.{IsApplicable, recover_files-Holds}
use in_memory_base.Wal.Flush.{IsFlushed, flush_batch-IsFlushed}
use in_memory_base.Wal.Pending.{IsPending}
use in_memory_base.Concurrency.Promise.{done}

abbrev pub empty : Disk
empty = record { files = [] }

-- A directory with one file.
abbrev pub one_file : Text → List Message → Disk
one_file path data_in = record {
  files = record { path = path; is_dir = false; contents = data_in } ∷ [];
}

-- The segment of a file that is empty.
abbrev pub on_file : Text → Text → ℤ → Text → Segment
on_file directory mask_name limit path = record (new_segment directory mask_name limit) {
  file = some (record { path = path; is_open = true });
}

module _ (gob : Gob) (data_in : List Message) (directory mask_name : Text) (limit : ℤ)
    (path : Text) where
  abbrev after_write : Os → Result (Unit {0}) × Segment × Disk
  after_write os = write gob os data_in (on_file directory mask_name limit path) (one_file path [])

  no_room_needed : (len : ℕ) → (ltb_ℤ (pos 0) limit && false && ltb_ℤ limit (pos len)) ≡ false
  no_room_needed len = ground arith

  first_write :
      (os : Os) (landing : Landing)
      → os.landing ≡ landing
      → (after_write os).0 ≡ ok tt
      → (after_write os).2 ≡ one_file path data_in
  unfolding write ensure_file file_or_new ensure_room next_or_stay store store_to account write_file
      land append_to
  first_write os written l h = rw (l, no_room_needed, text_eq_refl path) refl
  first_write os (failed landed) l h = cc (rw (l, no_room_needed) at h)

listed_one :
    (later : Os) (path : Text) (data_in : List Message)
    → later.lists ≡ true
    → get_file_list later (one_file path data_in) ≡ ok (path ∷ [])
unfolding get_file_list regular_paths sort_strings
listed_one later path data_in l = rw l refl

read_one :
    (later : Os) (path : Text) (data_in : List Message)
    → later.reads path ≡ true
    → read_file later path (one_file path data_in) ≡ ok data_in
unfolding read_file find_file
read_one later path data_in r = rw (r, text_eq_refl path) refl

-- The system lets Recovery list, read and open what is there.
pub record IsHelpful (os : Os) : Type 0 where
  pub lists : os.lists ≡ true
  pub reads : (path : Text) → os.reads path ≡ true
  pub opens : os.opens ≡ true

recovery_one :
    (gob : Gob) (later : Os) (wal : Wal) (path : Text) (logs : List Log)
    → IsHelpful later
    → wal.output.disk ≡ one_file path (stream logs)
    → All IsApplicable logs
    → ((recovery gob later wal).0 ≡ none)
      × ((recovery gob later wal).1.command_hash_table
          ≡ apply_logged (sort_by by_lsn logs) wal.command_hash_table)
unfolding recovery after_list after_files
recovery_one gob later wal path logs help same good =
    rw
      (
        same,
        listed_one later path (stream logs) help.lists,
        recover_files-Holds later (one_file path (stream logs)) (path ∷ []) (logs ∷ [])
            wal.command_hash_table (read_one later path (stream logs) (help.reads path), good, tt),
        help.opens,
      )
      (refl, refl)

done-same : {p q : Option Error × Wal} → done p ≡ done q → (p.0 ≡ q.0) × (p.1 ≡ q.1)
done-same h = (cc, cc)

module _ (gob : Gob) (config : WalConfig) (directory mask_name : Text) (limit : ℤ)
    (channels : Channels) where
  -- A WAL as NewWal makes it, over a directory.
  abbrev pub fresh_wal : Disk → Wal
  fresh_wal disk =
      new_wal config
        (record {
          segment = new_segment directory mask_name limit;
          disk = disk;
          channels = channels;
        })
        new_hash_table

  -- A WAL as CreateWal hands it on, where the directory was empty.
  abbrev pub created_wal : Text → Wal
  created_wal path = record (fresh_wal (one_file path [])) {
    output = record {
      segment = on_file directory mask_name limit path;
      disk = one_file path [];
      channels = channels;
    };
  }

  abbrev path_of : Os → Text
  path_of os = join_path directory (file_name mask_name os.unix_nano)

  first_recovery :
      (os : Os) (made : Wal) (lists creates stats : Bool)
      → os.lists ≡ lists
      → os.creates ≡ creates
      → os.stats ≡ stats
      → recovery gob os (fresh_wal empty) ≡ (none, made)
      → created_wal (path_of os) ≡ made
  unfolding recovery after_list after_files recover_files get_file_list regular_paths sort_strings
      create adopt create_file open_exclusive set_file find_file bytes_of
  first_recovery os made false creates stats l c t h = cc (rw l at h)
  first_recovery os made true false stats l c t h = cc (rw (l, c) at h)
  first_recovery os made true true false l c t h = ap (λ r. r.1) (rw (l, c, t) at h)
  first_recovery os made true true true l c t h =
      ap (λ r. r.1) (rw (l, c, t, text_eq_refl (path_of os)) at h)

  recovery-IsFlushed :
      (os : Os) (path : Text) (r : WriteRequest) (rs : List WriteRequest)
      (f : IsFlushed gob os (r ∷ rs) (created_wal path))
      → f.error ≡ none
      → All IsApplicable (logs_of (r ∷ rs))
      → (later : Os) → IsHelpful later
      → ((recovery gob later (fresh_wal f.after.output.disk)).0 ≡ none)
        × ((recovery gob later (fresh_wal f.after.output.disk)).1.command_hash_table
            ≡ f.after.command_hash_table)
  recovery-IsFlushed os path r rs f flushed good later help =
      let w = f.output.written flushed in
      let (e, table) =
        recovery_one gob later (fresh_wal f.after.output.disk) _ (logs_of (r ∷ rs)) help
          (w.same
            ∙ first_write gob (stream (logs_of (r ∷ rs))) directory mask_name limit path w.os
                w.os.landing refl w.success)
          good in
      (e, table ∙ sym (f.applied flushed))

  -- The property of a WAL that was flushed once, over all WALs to flush.
  abbrev IsRecovered : Os → List WriteRequest → Wal → Type 0
  IsRecovered os requests made =
      IsPending requests made.output.channels
      → (after : Wal) → flush_batch gob os requests made ≡ done (none, after)
      → All IsApplicable (logs_of requests)
      → (later : Os) → IsHelpful later
      → ((recovery gob later (fresh_wal after.output.disk)).0 ≡ none)
        × ((recovery gob later (fresh_wal after.output.disk)).1.command_hash_table
            ≡ after.command_hash_table)

  created-IsRecovered :
      (os : Os) (path : Text) (r : WriteRequest) (rs : List WriteRequest)
      → IsRecovered os (r ∷ rs) (created_wal path)
  created-IsRecovered os path r rs pending after h good later help =
      let f = flush_batch-IsFlushed gob os r rs (created_wal path) pending in
      let same : (f.error ≡ none) × (f.after ≡ after) = done-same (sym f.result ∙ h) in
      subst
        (λ (w : Wal).
          ((recovery gob later (fresh_wal w.output.disk)).0 ≡ none)
          × ((recovery gob later (fresh_wal w.output.disk)).1.command_hash_table
              ≡ w.command_hash_table))
        same.1 (recovery-IsFlushed os path r rs f same.0 good later help)

  -- Where Recovery returns nil in an empty directory, which makes the first segment, the first flush
  -- after that returns nil, and the program is started again on the files that it left: Recovery
  -- returns nil and rebuilds the same table, provided that the system lets it list, read and open the
  -- file, and the records are such as `apply` takes.
  pub recovery-flush_batch :
      (first os : Os) (made : Wal) (r : WriteRequest) (rs : List WriteRequest)
      → recovery gob first (fresh_wal empty) ≡ (none, made)
      → IsPending (r ∷ rs) made.output.channels
      → (after : Wal) → flush_batch gob os (r ∷ rs) made ≡ done (none, after)
      → All IsApplicable (logs_of (r ∷ rs))
      → (later : Os) → IsHelpful later
      → ((recovery gob later (fresh_wal after.output.disk)).0 ≡ none)
        × ((recovery gob later (fresh_wal after.output.disk)).1.command_hash_table
            ≡ after.command_hash_table)
  recovery-flush_batch first os made r rs start =
      subst (IsRecovered os (r ∷ rs))
        (first_recovery first made first.lists first.creates first.stats refl refl refl start)
        (created-IsRecovered os (path_of first) r rs)
