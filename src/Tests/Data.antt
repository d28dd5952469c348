-- ===== src/Tests/Data.antt =====
-- A small program for the tests: a directory, a segment, a WAL, and a system that grants all.
use in_memory_base.Base.{ℕ, true, false, [], ◌∷◌, List, none, some}
use in_memory_base.Base.Int.{pos}
use in_memory_base.Base.Text.{Text, runes}
use in_memory_base.Concurrency.Promise.{empty_store}
use in_memory_base.Filesystem.Disk.{Disk, Os, Handle, written}
use in_memory_base.Filesystem.Segment.{Segment, new_segment}
use in_memory_base.HashTable.{new_hash_table}
use in_memory_base.Wal.Log.{Log, Gob, Message}
use in_memory_base.Wal.Request.{Channels, WriteRequest}
use in_memory_base.Wal.Writer.{Output}
use in_memory_base.Wal.Batch.{Wal, WalConfig, new_wal}

abbrev pub gob : Gob
gob = record { size = λ m. 10; fits = λ log. true }

abbrev pub os : Os
os = record {
  unix_nano = 7;
  creates = true;
  landing = written;
  lists = true;
  reads = λ path. true;
  opens = true;
  stats = true;
}

abbrev pub systems : ℕ → Os
systems n = record os { unix_nano = n }

abbrev pub set_log : ℕ → Text → Text → Log
set_log lsn key value = record { lsn = pos lsn; command_id = pos 1; arguments = key ∷ value ∷ [] }

-- The request that waits on the channel at an address.
abbrev pub request : ℕ → Log → WriteRequest
request address log = record { log = log; promise = record { result = address; promised = false } }

abbrev pub channels : Channels
channels = empty_store none

abbrev pub empty_disk : Disk
empty_disk = record { files = [] }

abbrev pub segment : Segment
segment = new_segment (runes "wal") (runes "segment_") (pos 100)

abbrev pub output : Output
output = record { segment = segment; disk = empty_disk; channels = channels }

abbrev pub config : WalConfig
config = record { flushing_batch_count = pos 2; flushing_batch_volume = pos 100 }

abbrev pub wal : Wal
wal = new_wal config output new_hash_table

-- Two records that came in the other order.
abbrev pub first : Log
first = set_log 1 (runes "a") (runes "x")

abbrev pub second : Log
second = set_log 2 (runes "a") (runes "y")

abbrev pub requests : List WriteRequest
requests = request 0 second ∷ request 1 first ∷ []

-- A segment with one file, open, that holds one batch.
abbrev pub path : Text
path = runes "wal/segment_1.log"

abbrev pub file : Handle
file = record { path = path; is_open = true }

abbrev pub used_segment : Segment
used_segment = record segment { file = some file; segment_size = 20 }

abbrev pub used_disk : List Message → Disk
used_disk messages = record {
  files = record { path = path; is_dir = false; contents = messages } ∷ [];
}
