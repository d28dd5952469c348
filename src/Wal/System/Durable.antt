-- ===== src/Wal/System/Durable.antt =====
-- The files and the table in every run of wal.go: the flusher's promise to those whose Write it
-- answered with nil.
use mathlib.Core.Path.{ap₂, subst, subst₂}
use in_memory_base.Base.{◌≡◌, refl, sym, ap, ◌∙◌, List, [], ◌∷◌, ◌++◌, none, All, append_assoc}
use in_memory_base.Base.Int.{ℤ}
use in_memory_base.Base.Arrange.{All-map}
use in_memory_base.Base.Text.{Text}
use in_memory_base.Filesystem.Disk.{Disk}
use in_memory_base.Filesystem.Contents.{Extends}
use in_memory_base.Filesystem.Ready.{IsThere}
use in_memory_base.HashTable.{HashTable}
use in_memory_base.Wal.Log.{Log, Gob}
use in_memory_base.Wal.Stream.{logs_of, stream}
use in_memory_base.Wal.Request.{new_write_request}
use in_memory_base.Wal.Writer.{Output}
use in_memory_base.Wal.Apply.{apply_logged}
use in_memory_base.Wal.Batch.{Wal, add_request}
use in_memory_base.Wal.System.{
  System, Finished, CallerStep, FlusherStep, Step, Reach, pushes, sends, reads, flushes, applies,
  cancels, caller, flusher, start, next, apply_next,
}
use in_memory_base.Wal.System.Flushing.{Stands, applied_logs}
use in_memory_base.Wal.System.Moves.{
  push-output, push-table, send-IsSent, Picks-output, Picks-table,
}
use in_memory_base.Wal.System.Waiting.{IsWaiting, Picks-IsBegun, Reach-IsWaiting}

-- The records of a batch whose Write returned nil stand together in some file.
abbrev pub IsKept : Disk → Finished → Type 0
IsKept disk f = f.error ≡ none → Stands (stream (logs_of f.requests)) disk

-- The table once the batches that were written are applied, the newest last, each in the order of
-- its LSN.
abbrev pub apply_finished : List Finished → HashTable → HashTable
apply_finished [] table = table
apply_finished (f ∷ fs) table =
    apply_logged (applied_logs f.error f.requests) (apply_finished fs table)

pub record IsDurable (table : HashTable) (s : System) : Type 0 where
  pub there : IsThere s.wal.output.segment.file s.wal.output.disk
  pub kept : All (IsKept s.wal.output.disk) s.finished
  pub same : apply_logged s.remaining s.wal.command_hash_table ≡ apply_finished s.finished table

pub Stands-Extends :
    {messages : _} {disk disk' : Disk}
    → Extends disk disk'
    → Stands messages disk
    → Stands messages disk'
Stands-Extends {messages} x st =
    let (more, e) = x.grows st.path in
    record {
      path = st.path;
      before = st.before;
      after = st.after ++ more;
      holds =
          e
          ∙ ap (λ l. l ++ more) st.holds
          ∙ append_assoc st.before (messages ++ st.after) more
          ∙ ap (λ l. st.before ++ l) (append_assoc messages st.after more);
    }

add_request-disk :
    (gob : Gob) (lsn command_id : ℤ) (arguments : List Text) (wal : Wal)
    → ((add_request gob lsn command_id arguments wal).1.output.disk ≡ wal.output.disk)
      × ((add_request gob lsn command_id arguments wal).1.output.segment ≡ wal.output.segment)
unfolding add_request new_write_request
add_request-disk gob lsn command_id arguments wal = (refl, refl)

-- Only a step of the flusher touches the files and the table.
record SameFiles (s t : System) : Type 0 where
  disk : t.wal.output.disk ≡ s.wal.output.disk
  segment : t.wal.output.segment ≡ s.wal.output.segment
  table : t.wal.command_hash_table ≡ s.wal.command_hash_table
  remaining : t.remaining ≡ s.remaining
  finished : t.finished ≡ s.finished

CallerStep-SameFiles : {gob : Gob} {s t : System} → CallerStep gob s t → SameFiles s t
CallerStep-SameFiles {gob} (pushes s lsn command_id arguments) =
    let e = push-output gob lsn command_id arguments s.wal in
    let (d, g) = add_request-disk gob lsn command_id arguments s.wal in
    record {
      disk = ap (λ (o : Output). o.disk) e ∙ d;
      segment = ap (λ (o : Output). o.segment) e ∙ g;
      table = push-table gob lsn command_id arguments s.wal;
      remaining = refl;
      finished = refl;
    }
CallerStep-SameFiles (sends s before after c wal listed some_sealed sent) =
    let e = (send-IsSent c.sealed s.wal wal sent).same in
    record {
      disk = ap (λ (w : Wal). w.output.disk) e;
      segment = ap (λ (w : Wal). w.output.segment) e;
      table = ap (λ (w : Wal). w.command_hash_table) e;
      remaining = refl;
      finished = refl;
    }
CallerStep-SameFiles (reads s before after c e channels listed none_sealed got) = record {
  disk = refl;
  segment = refl;
  table = refl;
  remaining = refl;
  finished = refl;
}

SameFiles-IsDurable :
    {table : HashTable} {s t : System} → SameFiles s t → IsDurable table s → IsDurable table t
SameFiles-IsDurable {table} {s} {t} same h = record {
  there =
      subst₂ (λ segment disk. IsThere segment.file disk) (sym same.segment) (sym same.disk) h.there;
  kept = subst₂ (λ disk fs. All (IsKept disk) fs) (sym same.disk) (sym same.finished) h.kept;
  same = rw (same.remaining, same.table, same.finished) h.same;
}

-- Between two batches the table is that of the batches that were written.
pub idle_table :
    (table : HashTable) (s : System)
    → s.remaining ≡ []
    → IsDurable table s
    → s.wal.command_hash_table ≡ apply_finished s.finished table
unfolding apply_logged
idle_table table s idle h =
    subst (λ l. apply_logged l s.wal.command_hash_table ≡ apply_finished s.finished table) idle
      h.same

apply_logged-next :
    (log : Log) (logs : List Log) (wal : Wal)
    → apply_logged logs (apply_next log wal).command_hash_table
      ≡ apply_logged (log ∷ logs) wal.command_hash_table
unfolding apply_logged apply_next
apply_logged-next log logs wal = refl

FlusherStep-IsDurable :
    {gob : Gob} {table : HashTable} {s t : System}
    → FlusherStep gob s t
    → IsWaiting s
    → IsDurable table s
    → IsDurable table t
FlusherStep-IsDurable {gob} {table} (flushes s os batch wal wal' phase e logs idle picks begun) w
      h =
    let b = Picks-IsBegun gob os {s = s} picks begun w in
    let o : wal.output ≡ s.wal.output = Picks-output picks in
    let there = subst (λ (x : Output). IsThere x.segment.file x.disk) (sym o) h.there in
    let extends = subst (λ (x : Output). Extends x.disk wal'.output.disk) o b.extends in
    record {
      there = b.there there;
      kept =
          (b.stands there, All-map _ _ s.finished (λ f k n. Stands-Extends extends (k n)) h.kept);
      same = ap₂ apply_logged b.records (
          ap (λ (x : Wal). x.command_hash_table) b.same
          ∙ Picks-table picks
          ∙ idle_table table s idle h);
    }
FlusherStep-IsDurable {table = table} (applies s log logs left) w h = record {
  there = unfold apply_next in h.there;
  kept = unfold apply_next in h.kept;
  same =
      apply_logged-next log logs s.wal
      ∙ subst (λ l. apply_logged l s.wal.command_hash_table ≡ apply_finished s.finished table) left
          h.same;
}
FlusherStep-IsDurable (cancels s idle runs) w h = record {
  there = h.there;
  kept = h.kept;
  same = h.same;
}

Step-IsDurable :
    {gob : Gob} {table : HashTable} {s t : System}
    → Step gob s t
    → IsWaiting s
    → IsDurable table s
    → IsDurable table t
Step-IsDurable (caller st) w h = SameFiles-IsDurable (CallerStep-SameFiles st) h
Step-IsDurable (flusher st) w h = FlusherStep-IsDurable st w h

-- In every run from a Wal whose batch and channel are empty and whose segment's file, if it has one,
-- is in the directory, whatever the order of the steps and the answers of the system: the records of
-- every batch whose Write returned nil stand together in some file,
-- and the table, once the records that are left are applied, is the one that the batches make that
-- were written, in the order in which they were, and no other.
pub Reach-IsDurable :
    {gob : Gob} {wal : Wal} {s : System}
    → wal.batch ≡ []
    → wal.batches ≡ []
    → IsThere wal.output.segment.file wal.output.disk
    → Reach gob wal s
    → IsDurable wal.command_hash_table s
unfolding apply_logged
Reach-IsDurable e f there start = record { there = there; kept = tt; same = refl }
Reach-IsDurable e f there (next r st) =
    Step-IsDurable st (Reach-IsWaiting e f r) (Reach-IsDurable e f there r)
