-- ===== src/Service/Started.antt =====
-- The server from NewInitializer (internal/initialization/initializer.go) on: a connection to it.
use mathlib.Core.Path.{subst, subst₂}
use in_memory_base.Base.{
  ℕ, ◌≤◌, ◌≡◌, refl, sym, ap, ◌∙◌, Bool, true, List, [], map, Option, none, some, length, arith,
}
use in_memory_base.Base.Int.{max_int64}
use in_memory_base.Base.Text.{Text}
use in_memory_base.Base.Errors.{Error, Result, ok, err, ◌>>=◌}
use in_memory_base.Engine.Calls.{Engine, new_engine}
use in_memory_base.Filesystem.Disk.{Os}
use in_memory_base.Filesystem.Directory.{make_directory}
use in_memory_base.Filesystem.Segment.{new_segment}
use in_memory_base.HashTable.{HashTable, new_hash_table}
use in_memory_base.Network.Server.{create_tcp_network}
use in_memory_base.Network.Connection.{reads, handle_connections}
use in_memory_base.Network.Replies.{round_of}
use in_memory_base.Initialization.Start.{
  Machine, Config, Initializer, recovered, open_wal, create_wal, create_engine, new_initializer,
}
use in_memory_base.Wal.Writer.{Output}
use in_memory_base.Wal.Batch.{Wal, WalConfig, new_wal}
use in_memory_base.Wal.Recovery.{recovery}
use in_memory_base.Wal.Idle.{IsIdle, recovery-IsIdle}
use in_memory_base.Service.Call.{Running}
use in_memory_base.Service.Served.{idle}
use in_memory_base.Service.Session.{Converses, timed, handle_connections-Converses}

>>=-ok :
    {A B : Type 0} (r : Result A) (f : A → Result B) (b : B)
    → (r >>= f) ≡ ok b
    → (a : A) × (r ≡ ok a) × (f a ≡ ok b)
>>=-ok (ok a) f b h = (a, refl, h)
>>=-ok (err e) f b h = cc h

same_ok : {A : Type 0} {x y : A} → ok x ≡ ok y → x ≡ y
same_ok h = cc

recovered-ok : (r : Option Error × Wal) (wal : Wal) → recovered r ≡ ok wal → r.1 ≡ wal
unfolding recovered
recovered-ok (none, w) wal h = same_ok h
recovered-ok (some e, w) wal h = cc h

open_wal-IsIdle :
    (machine : Machine) (cfg : Config) (directory : Text) (wal : Wal)
    → open_wal machine cfg directory ≡ ok wal
    → IsIdle cfg.wal wal
unfolding open_wal
open_wal-IsIdle machine cfg directory wal h =
    let output : Output = record {
      segment = new_segment directory cfg.mask_name cfg.max_segment_size;
      disk = machine.disk_at directory;
      channels = machine.channels;
    } in
    subst (IsIdle cfg.wal)
      (recovered-ok (recovery machine.gob machine.os (new_wal cfg.wal output new_hash_table)) wal h)
      (recovery-IsIdle machine.gob machine.os cfg.wal output new_hash_table)

create_wal-IsIdle :
    (machine : Machine) (cfg : Config) (wal : Wal)
    → create_wal machine true cfg ≡ ok wal
    → IsIdle cfg.wal wal
unfolding create_wal
create_wal-IsIdle machine cfg wal h =
    let (directory, made, opened) =
      >>=-ok (make_directory machine.host cfg.segment_storage_path) (open_wal machine cfg) wal h in
    open_wal-IsIdle machine cfg directory wal opened

-- The engine is over the WAL that CreateWal made.
new_initializer-engine :
    (machine : Machine) (cfg : Config) (init : Initializer)
    → new_initializer machine (some cfg) ≡ ok init
    → (wal : Wal) × (create_wal machine true cfg ≡ ok wal) × (init.engine ≡ new_engine wal)
unfolding new_initializer create_engine
new_initializer-engine machine cfg init h =
    let (wal, made, rest) = >>=-ok (create_wal machine true cfg) _ init h in
    let (server, listening, same) =
      >>=-ok (create_tcp_network machine.listens true cfg.network) _ init rest in
    (wal, made, ap (λ (i : Initializer). i.engine) (sym (same_ok same)))

-- Wal.Start starts the flusher, which has nothing to apply.
abbrev pub running_of : Engine Wal → Engine Running
running_of engine = record {
  current_lsn = engine.current_lsn;
  backend = record { wal = engine.backend; remaining = [] };
}

abbrev idle_engine : WalConfig → Output → HashTable → Engine Wal
idle_engine config output table = new_engine (new_wal config output table)

-- A program that has started is idle, with no identifier out.
new_initializer-idle :
    (machine : Machine) (cfg : Config) (init : Initializer)
    → new_initializer machine (some cfg) ≡ ok init
    → init.engine
      ≡ idle_engine cfg.wal init.engine.backend.output init.engine.backend.command_hash_table
new_initializer-idle machine cfg init h =
    let (wal, made, same) = new_initializer-engine machine cfg init h in
    let i = create_wal-IsIdle machine cfg wal made in
    let e : init.engine ≡ idle_engine cfg.wal i.output i.table = same ∙ ap new_engine i.same in
    subst₂ (λ o t. init.engine ≡ idle_engine cfg.wal o t)
      (sym (ap (λ (x : Engine Wal). x.backend.output) e))
      (sym (ap (λ (x : Engine Wal). x.backend.command_hash_table) e)) e

-- A server that has started refines the specification: whatever its configuration, the files that it
-- found and what the system answered at its start, a client that is alone and whose connection answers
-- well gets, to fewer than MaxInt64 lines, whatever the system answers to the files from there on and
-- however far the flusher is when a GET reads the table, replies that the specification allows from
-- what the table held after the start, one to each line and in their order: in it a write is
-- acknowledged before it is seen, and seen before the next write is acknowledged. No file has lost
-- anything, and the connection waits for the next line.
pub started-Converses :
    (machine : Machine) (cfg : Config) (init : Initializer) (os : ℕ → Os) (applied : ℕ → Bool)
    (upper : ℕ → ℕ) (lines : List Text)
    → new_initializer machine (some cfg) ≡ ok init
    → length lines ≤ max_int64
    → (c : Converses machine.gob os applied upper lines cfg.wal 0 0 init.engine.backend.output
        init.engine.backend.command_hash_table [])
      × (handle_connections init.server
            (timed machine.gob os applied upper)
            (map round_of lines)
            (0, running_of init.engine)
          ≡ record {
            sent = c.replies;
            state = (c.last, idle cfg.wal c.m c.output c.table' c.remaining');
            ending = reads;
          })
started-Converses machine cfg init os applied upper lines h few =
    let (c, e) =
      handle_connections-Converses init.server machine.gob os applied upper lines cfg.wal 0 0
        init.engine.backend.output init.engine.backend.command_hash_table [] (omega (arith, few)) in
    (
      c,
      ap
            (λ (x : Engine Wal).
              handle_connections init.server (timed machine.gob os applied upper)
                (map round_of lines) (0, running_of x))
            (new_initializer-idle machine cfg init h)
          ∙ e,
    )
