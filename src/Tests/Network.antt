-- ===== src/Tests/Network.antt =====
-- The theorems of the server at concrete inputs.
use in_memory_base.Base.{◌≡◌, refl, true, false, List, [], ◌∷◌, map, some}
use in_memory_base.Base.Int.{pos, negsuc, ltb_ℤ}
use in_memory_base.Base.Text.{Text, runes}
use in_memory_base.Base.Errors.{ok}
use in_memory_base.Concurrency.Promise.{Outcome, done}
use in_memory_base.Concurrency.Semaphore.{acquire}
use in_memory_base.Concurrency.Slots.{Reach, start, next, acquires, IsBounded, Reach-IsBounded}
use in_memory_base.Network.Option.{ServerSettings}
use in_memory_base.Network.Server.{NetworkConfig, create_tcp_network}
use in_memory_base.Network.Defaults.{settings_of, create_tcp_network-settings_of}
use in_memory_base.Network.Connection.{Round, reads, handle_connections}
use in_memory_base.Network.Replies.{
  Serves, no_more, serves, HasReplied, round_of, handle_connections-HasReplied,
  handle_connections-Serves,
}

-- A caller passes, and a second one has to wait.
two_callers :
    Reach 1 (record { sem = record { count = 1; max = 1; waiting = 1; woken = 0 }; inside = 1 })
unfolding acquire
two_callers = next (next start (acquires _)) (acquires _)

Reach-IsBounded_example :
    IsBounded 1 (record { sem = record { count = 1; max = 1; waiting = 1; woken = 0 }; inside = 1 })
Reach-IsBounded_example = Reach-IsBounded two_callers

abbrev cfg : NetworkConfig
cfg = record {
  address = [];
  idle_timeout = pos 0;
  max_connections = negsuc 0;
  buffer_size = pos 512;
}

create_tcp_network-settings_of_example :
    (create_tcp_network (λ address. true) true (some cfg) ≡ ok (settings_of cfg))
    × (ltb_ℤ (pos 0) (settings_of cfg).idle_timeout ≡ true)
    × (ltb_ℤ (pos 0) (settings_of cfg).max_connections ≡ true)
    × (ltb_ℤ (pos 0) (settings_of cfg).buffer_size ≡ true)
create_tcp_network-settings_of_example = create_tcp_network-settings_of (λ address. true) cfg

abbrev server : ServerSettings
server = settings_of cfg

-- The state is the last request, which is also the reply.
abbrev echo : Text → Text → Outcome (Text × Text)
echo query last = done (last, query)

-- The second reply cannot be written.
abbrev rounds : List Round
rounds =
    round_of (runes "a")
    ∷ record (round_of (runes "b")) { writes = false }
    ∷ round_of (runes "c")
    ∷ []

handle_connections-HasReplied_example :
    HasReplied echo
      (runes "a" ∷ runes "b" ∷ runes "c" ∷ [])
      []
      (handle_connections server echo rounds []).sent
handle_connections-HasReplied_example = handle_connections-HasReplied server echo rounds []

two_served : Serves echo (runes "a" ∷ runes "b" ∷ []) [] ([] ∷ runes "a" ∷ []) (runes "b")
two_served =
    serves (runes "a") [] [] (runes "a") (runes "b") (runes "b" ∷ []) (runes "a" ∷ []) refl (
      serves (runes "b") (runes "a") (runes "a") (runes "b") (runes "b") [] [] refl
        (no_more (runes "b")))

handle_connections-Serves_example :
    handle_connections server echo (map round_of (runes "a" ∷ runes "b" ∷ [])) []
    ≡ record { sent = [] ∷ runes "a" ∷ []; state = runes "b"; ending = reads }
handle_connections-Serves_example = handle_connections-Serves server echo two_served
