-- ===== src/Service/Session.antt =====
-- The program behind one connection: a conversation as the specification has it.
use in_memory_base.Base.{ℕ, ◌+◌, ◌≤◌, ◌≡◌, refl, ap, Bool, List, [], ◌∷◌, map, length, arith}
use in_memory_base.Base.Int.{max_int64}
use in_memory_base.Base.Text.{Text}
use in_memory_base.Compute.Parse.{parse_and_validate}
use in_memory_base.Compute.Grammar.{parse_and_validate-IsCommand}
use in_memory_base.Concurrency.Promise.{Outcome, ◌>>=◌, done}
use in_memory_base.Engine.Calls.{Engine}
use in_memory_base.Filesystem.Disk.{Os}
use in_memory_base.Filesystem.Contents.{Extends, Extends-refl, Extends-trans}
use in_memory_base.HashTable.{HashTable}
use in_memory_base.Network.Option.{ServerSettings}
use in_memory_base.Network.Connection.{reads, handle_connections}
use in_memory_base.Network.Replies.{Serves, no_more, serves, round_of, handle_connections-Serves}
use in_memory_base.Wal.Log.{Log, Gob}
use in_memory_base.Wal.Writer.{Output}
use in_memory_base.Wal.Batch.{WalConfig}
use in_memory_base.Service.Call.{Running}
use in_memory_base.Service.Served.{serve, idle}
use in_memory_base.Service.Spec.{Conversation, silence, says, Line-of}
use in_memory_base.Service.Reply.{view_of, Line-IsAnswered}

-- The handler of a connection, over the program and the number of requests so far: `os k` is what the
-- system answers to the Write of the k-th request, if it comes to one, and `applied k` whether the
-- flusher is through with its loop when the request reads the table, if it does.
abbrev pub timed :
    Gob
    → (ℕ → Os)
    → (ℕ → Bool)
    → (ℕ → ℕ)
    → Text
    → ℕ × Engine Running
    → Outcome (Text × (ℕ × Engine Running))
timed gob os applied upper raw (k, s) =
    serve gob (os k) (applied k) upper raw s >>= λ (answer, s'). done (answer, (k + 1, s'))

-- A whole conversation: the replies, and the state in which the program is after it.
pub record Converses (gob : Gob) (os : ℕ → Os) (applied : ℕ → Bool) (upper : ℕ → ℕ)
    (lines : List Text) (config : WalConfig) (k n : ℕ) (before : Output) (table : HashTable)
    (remaining : List Log) : Type 0 where
  pub replies : List Text
  pub last : ℕ
  pub m : ℕ
  pub output : Output
  pub table' : HashTable
  pub remaining' : List Log
  pub served :
      Serves
        (timed gob os applied upper)
        lines
        (k, idle config n before table remaining)
        replies
        (last, idle config m output table' remaining')
  pub as_specified :
      Conversation upper lines (view_of table remaining) replies (view_of table' remaining')
  pub extends : Extends before.disk output.disk

lines-Converses :
    (gob : Gob) (os : ℕ → Os) (applied : ℕ → Bool) (upper : ℕ → ℕ) (lines : List Text)
    (config : WalConfig) (k n : ℕ) (before : Output) (table : HashTable) (remaining : List Log)
    → n + length lines ≤ max_int64
    → Converses gob os applied upper lines config k n before table remaining
lines-Converses gob os applied upper [] config k n before table remaining h = record {
  replies = [];
  last = k;
  m = n;
  output = before;
  table' = table;
  remaining' = remaining;
  served = no_more (k, idle config n before table remaining);
  as_specified = silence (view_of table remaining);
  extends = Extends-refl before.disk;
}
lines-Converses gob os applied upper (line ∷ lines) config k n before table remaining h =
    let a =
      Line-IsAnswered gob (os k) (applied k) upper line config n before table remaining
        (parse_and_validate upper line)
        (Line-of (parse_and_validate upper line) (parse_and_validate-IsCommand upper line [])) refl
        (omega (arith, h)) in
    let rest =
      lines-Converses gob os applied upper lines config (k + 1) a.m a.output a.table' a.remaining'
        (omega (arith, h, a.counted)) in
    record {
      replies = a.answer ∷ rest.replies;
      last = rest.last;
      m = rest.m;
      output = rest.output;
      table' = rest.table';
      remaining' = rest.remaining';
      served =
          serves line a.answer (k, idle config n before table remaining)
            (k + 1, idle config a.m a.output a.table' a.remaining')
            (rest.last, idle config rest.m rest.output rest.table' rest.remaining') lines
            rest.replies (ap (λ o. o >>= λ (answer, s'). done (answer, (k + 1, s'))) a.result)
            rest.served;
      as_specified =
          says line a.answer lines rest.replies (view_of table remaining)
            (view_of a.table' a.remaining') (view_of rest.table' rest.remaining') a.replies
            rest.as_specified;
      extends = Extends-trans a.extends rest.extends;
    }

-- The program refines the specification: with one client, and fewer than MaxInt64 calls in all, a
-- connection that answers well gets, to any lines it sends, whatever the system answers to the files
-- and however far the flusher is at each of them, replies that the specification allows, one to each
-- line and in their order; no file has lost anything, and the connection waits for the next line.
pub handle_connections-Converses :
    (server : ServerSettings) (gob : Gob) (os : ℕ → Os) (applied : ℕ → Bool) (upper : ℕ → ℕ)
    (lines : List Text) (config : WalConfig) (k n : ℕ) (before : Output) (table : HashTable)
    (remaining : List Log)
    → n + length lines ≤ max_int64
    → (c : Converses gob os applied upper lines config k n before table remaining)
      × (handle_connections server
            (timed gob os applied upper)
            (map round_of lines)
            (k, idle config n before table remaining)
          ≡ record {
            sent = c.replies;
            state = (c.last, idle config c.m c.output c.table' c.remaining');
            ending = reads;
          })
handle_connections-Converses server gob os applied upper lines config k n before table remaining h =
    let c = lines-Converses gob os applied upper lines config k n before table remaining h in
    (c, handle_connections-Serves server (timed gob os applied upper) c.served)
