-- ===== src/Witnesses/Configs.antt =====
-- Concrete environments, read.
use log_replicator_raft.Common.{
  ℕ, ◌*◌, String, ◌≡◌, refl, true, [], ◌∷◌, same, if◌then◌else◌, arith,
}
use log_replicator_raft.Common.Decimal.{decimal}
use log_replicator_raft.Raft.Types.{Peer}
use log_replicator_raft.Config.Text.{trim_space, trim_left, trim_right, is_space, split, cut}
use log_replicator_raft.Config.Numbers.{le64, millisecond, atoi, natural, digits, of_milliseconds}
use log_replicator_raft.Config.Peers.{good, bad, duplicate_peer, parse_peers, read_items}
use log_replicator_raft.Config.Env.{
  Environment, Config, env, env_duration, env_uint, env_log_level, validated, from_env,
}
use log_replicator_raft.Config.Sensible.{IsSensible, from_env-IsSensible}
use log_replicator_raft.Config.Durations.{env_duration-decimal, env_duration_overflow}
use log_replicator_raft.Config.Shared.{written, others, parse_peers-written}

abbrev two : Environment
two key =
    if same key "RAFT_PEERS"
    then "node1=a:1, node2=b:2"
    else if same key "RAFT_HEARTBEAT_MS"
    then " 250"
    else ""

abbrev two_config : Config
two_config = record {
  node_id = "node1";
  grpc_addr = ":9001";
  http_addr = ":8001";
  data_dir = "data/node1";
  peers = record { id = "node2"; address = "b:2" } ∷ [];
  election_min = 500000000;
  election_max = 900000000;
  heartbeat_interval = 250000000;
  snapshot_threshold = 10000;
  log_level = 0;
}

two_read : from_env two ≡ good two_config
unfolding from_env env env_duration env_uint env_log_level validated trim_space trim_left trim_right
    is_space parse_peers read_items split cut le64 atoi natural digits of_milliseconds
two_read = refl

from_env-IsSensible_example : IsSensible two_config
from_env-IsSensible_example = from_env-IsSensible two two_config two_read

abbrev heartbeat : String
heartbeat = "RAFT_HEARTBEAT_MS"

two_heartbeat : env two heartbeat "" ≡ decimal 250 ""
unfolding env trim_space trim_left trim_right is_space decimal
two_heartbeat = refl

env_duration-decimal_example : env_duration two heartbeat 100000000 ≡ good (250 * millisecond)
env_duration-decimal_example =
    env_duration-decimal two heartbeat 100000000 250 two_heartbeat (omega arith) (omega arith)

-- A heartbeat that is too long for a Duration.
abbrev long : Environment
long key = if same key heartbeat then "9223372036855" else ""

long_heartbeat : env long heartbeat "" ≡ decimal 9223372036855 ""
unfolding env trim_space trim_left trim_right is_space decimal
long_heartbeat = refl

env_duration_overflow_example :
    (d : ℕ) × (env_duration long heartbeat 100000000 ≡ good d) × (le64 d 0 ≡ true)
env_duration_overflow_example =
    env_duration_overflow long heartbeat 100000000 9223372036855 long_heartbeat (omega arith)
      (omega arith)

-- The whole configuration is accepted with it, as the negative number of nanoseconds is below the timeouts.
long_read :
    from_env long
    ≡ good (record two_config { peers = []; heartbeat_interval = 9223372036855 * millisecond })
unfolding from_env env env_duration env_uint env_log_level validated trim_space trim_left trim_right
    is_space parse_peers read_items split cut le64 atoi natural digits of_milliseconds
long_read = refl

abbrev first_peer : Peer
first_peer = record { id = "a"; address = "x" }

abbrev second_peer : Peer
second_peer = record { id = "b"; address = "y" }

parse_peers-written_example :
    parse_peers (written first_peer (second_peer ∷ [])) "a"
    ≡ good (others "a" (first_peer ∷ second_peer ∷ []))
unfolding is_space
parse_peers-written_example =
    parse_peers-written "a" first_peer (second_peer ∷ [])
      (
        (refl, refl, (refl, tt), (refl, (refl, (refl, tt))), (refl, (refl, (refl, tt)))),
        ((refl, refl, (refl, tt), (refl, (refl, (refl, tt))), (refl, (refl, (refl, tt)))), tt),
      )
      (refl, (refl, tt))

twice : parse_peers "node2=b:2,node2=c:3" "node1" ≡ bad (duplicate_peer "node2")
unfolding trim_space trim_left trim_right is_space parse_peers read_items split cut
twice = refl
