-- ===== src/Tests/Started.antt =====
-- A server that starts in an empty directory, and a conversation with it.
use in_memory_base.Base.{◌≡◌, refl, true, false, List, [], ◌∷◌, map, some, arith}
use in_memory_base.Base.Decimal.{digits}
use in_memory_base.Base.Int.{pos}
use in_memory_base.Base.Text.{Text, runes, text_eq}
use in_memory_base.Base.Errors.{ok}
use in_memory_base.Filesystem.Disk.{
  create_file, open_exclusive, find_file, get_file_list, regular_paths,
}
use in_memory_base.Filesystem.Segment.{create, adopt, set_file}
use in_memory_base.Filesystem.Directory.{make_directory, resolve_wal_path}
use in_memory_base.Initialization.Start.{
  Machine, Config, Initializer, create_wal, create_engine, open_wal, recovered, new_initializer,
}
use in_memory_base.Network.Option.{
  with_server_tcp_idle_timeout, with_server_tcp_max_connection_number, with_server_tcp_buffer_size,
}
use in_memory_base.Network.Server.{
  NetworkConfig, address_of, create_tcp_network, new_tcp_server, options_of, with_options,
}
use in_memory_base.Network.Connection.{reads, handle_connections}
use in_memory_base.Network.Replies.{round_of}
use in_memory_base.Service.Served.{idle}
use in_memory_base.Service.Session.{Converses, timed}
use in_memory_base.Service.Started.{running_of, started-Converses}
use in_memory_base.Wal.Recovery.{recovery, recover_files, after_files, after_list}
use in_memory_base.Tests.Data.{gob, os, systems, channels, config, empty_disk}

abbrev machine : Machine
machine = record {
  gob = gob;
  os = os;
  host = record { work_dir = some (runes "/srv"); makes = true };
  disk_at = λ directory. empty_disk;
  channels = channels;
  listens = λ address. true;
}

abbrev network : NetworkConfig
network = record {
  address = runes "127.0.0.1:3323";
  idle_timeout = pos 1;
  max_connections = pos 1;
  buffer_size = pos 64;
}

abbrev cfg : Config
cfg = record {
  network = some network;
  wal = config;
  segment_storage_path = runes "/wal";
  mask_name = runes "segment_";
  max_segment_size = pos 100;
}

starts : (init : Initializer) × (new_initializer machine (some cfg) ≡ ok init)
unfolding new_initializer create_wal open_wal recovered create_engine make_directory
    resolve_wal_path recovery after_list after_files recover_files get_file_list regular_paths
    create create_file open_exclusive adopt set_file find_file text_eq digits create_tcp_network
    new_tcp_server with_options options_of address_of with_server_tcp_idle_timeout
    with_server_tcp_max_connection_number with_server_tcp_buffer_size
starts = (_, refl)

abbrev lines : List Text
lines = runes "set a x" ∷ runes "get a" ∷ []

started-Converses_example :
    (c : Converses gob systems
      (λ k. false)
      (λ c. c)
      lines
      config
      0
      0
      starts.0.engine.backend.output
      starts.0.engine.backend.command_hash_table
      [])
    × (handle_connections starts.0.server
          (timed gob systems (λ k. false) (λ c. c))
          (map round_of lines)
          (0, running_of starts.0.engine)
        ≡ record {
          sent = c.replies;
          state = (c.last, idle config c.m c.output c.table' c.remaining');
          ending = reads;
        })
started-Converses_example =
    started-Converses machine cfg starts.0 systems (λ k. false) (λ c. c) lines starts.1
      (omega arith)
