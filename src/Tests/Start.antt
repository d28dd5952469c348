-- ===== src/Tests/Start.antt =====
-- The theorems of the set-up and of the command line client at concrete inputs.
use in_memory_base.Base.{Bool, ◌≡◌, refl, true, List, [], ◌∷◌, ◌++◌, none, some}
use in_memory_base.Base.Int.{pos, negsuc}
use in_memory_base.Base.Text.{Text, runes, text_eq}
use in_memory_base.Base.Errors.{Result, ok, err, io}
use in_memory_base.Filesystem.Disk.{get_file_list, regular_paths, find_file, read_file}
use in_memory_base.Filesystem.Directory.{
  Host, is_abs, make_directory, resolve_wal_path, join_rooted, make_directory-is_abs,
}
use in_memory_base.Initialization.Start.{Machine, Config, new_initializer}
use in_memory_base.Initialization.Refusal.{Fails, new_initializer-HoldsTwo}
use in_memory_base.Wal.Stream.{stream}
use in_memory_base.Wal.Replay.{HoldsTwo}
use in_memory_base.Cli.Flags.{Flags, default_flags}
use in_memory_base.Cli.Repl.{repl_loop}
use in_memory_base.Base.{◌*◌, if◌then◌else◌, Option}
use in_memory_base.Base.Int.{ℤ, ltb_ℤ}
use in_memory_base.Network.Option.{minute}
use in_memory_base.Network.Client.{dial_timeout}
use in_memory_base.Cli.Flags.{parse_flags, build_client}
use in_memory_base.Cli.Requests.{requests_in}
use in_memory_base.Cli.Run.{run, ended, exits_with_1, run-requests_in}
use in_memory_base.Tests.Data.{gob, os, channels, config, first, second, path, used_disk}

abbrev host : Host
host = record { work_dir = some (runes "/srv"); makes = true }

made : make_directory host (runes "./wal/../log") ≡ ok (runes "/srv/log")
unfolding make_directory resolve_wal_path join_rooted text_eq
made = refl

made_again : make_directory host (runes "/wal") ≡ ok (runes "/wal")
unfolding make_directory resolve_wal_path text_eq
made_again = refl

make_directory-is_abs_example :
    (is_abs (runes "/srv/log") ≡ true)
    × (true ≡ true → make_directory host (runes "/srv/log") ≡ ok (runes "/srv/log"))
make_directory-is_abs_example =
    make_directory-is_abs host host (runes "./wal/../log") (runes "/srv/log") made

abbrev cfg : Config
cfg = record {
  network = none;
  wal = config;
  segment_storage_path = runes "/wal";
  mask_name = runes "segment_";
  max_segment_size = pos 100;
}

abbrev machine : Machine
machine = record {
  gob = gob;
  os = os;
  host = host;
  disk_at = λ directory. used_disk (stream (first ∷ []) ++ (stream (second ∷ []) ++ []));
  channels = channels;
  listens = λ address. true;
}

file_listed : get_file_list os (machine.disk_at (runes "/wal")) ≡ ok ([] ++ (path ∷ []))
unfolding get_file_list regular_paths
file_listed = refl

two_batches : HoldsTwo os (machine.disk_at (runes "/wal")) path
unfolding read_file find_file text_eq
two_batches = record {
  first = first;
  logs = [];
  second = second;
  more = [];
  rest = [];
  data_in = refl;
}

new_initializer-HoldsTwo_example : Fails (new_initializer machine (some cfg))
new_initializer-HoldsTwo_example =
    new_initializer-HoldsTwo machine cfg (runes "/wal") [] path [] made_again file_listed
      two_batches

-- Every request fails.
abbrev refuse : Text → Text → Result Text × Text
refuse request last = (err io, request)

abbrev typed : List Text
typed = runes " get a\n" ∷ runes "\n" ∷ runes "Exit\n" ∷ runes "get b\n" ∷ []

abbrev flags : Flags
flags = record default_flags { idle = negsuc 0; mes_size = pos 0 }

abbrev dials : Option ℤ → Text → Bool
dials limit address = true

run-requests_in_example :
    (run dials refuse flags typed [] ≡ (
      if dials
        (dial_timeout (build_client (parse_flags flags).0))
        (build_client (parse_flags flags).0).address
      then ended (build_client (parse_flags flags).0) (repl_loop refuse typed [])
      else exits_with_1))
    × (build_client (parse_flags flags).0 ≡ record (parse_flags flags).0 {
      idle_timeout = if ltb_ℤ flags.idle (pos 0) then pos (5 * minute) else flags.idle;
    })
    × ((repl_loop refuse typed []).attempted ≡ requests_in typed)
run-requests_in_example = run-requests_in dials refuse flags typed []
