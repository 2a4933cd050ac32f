-- ===== src/Config/Env.antt =====
-- `FromEnv` of internal/config/config.go and the readers of single variables.
use log_replicator_raft.Common.{ℕ, ◌*◌, String, Option, none, some, List, not, if◌then◌else◌}
use log_replicator_raft.Raft.Types.{Peer}
use log_replicator_raft.Config.Text.{trim_space, is_empty}
use log_replicator_raft.Config.Numbers.{
  parse_uint, atoi, le64, of_milliseconds, millisecond, parse_level,
}
use log_replicator_raft.Config.Peers.{
  Problem, bad_duration, bad_uint, bad_level, heartbeat_too_long, max_below_min, Checked, good, bad,
  parse_peers, ◌>>=◌,
}

-- `os.Getenv`: a variable that is not set reads as the empty text.
abbrev pub Environment : Type 0
Environment = String → String

pub record Config : Type 0 where
  pub node_id : String
  pub grpc_addr : String
  pub http_addr : String
  pub data_dir : String
  pub peers : List Peer
  pub election_min : ℕ
  pub election_max : ℕ
  pub heartbeat_interval : ℕ
  pub snapshot_threshold : ℕ
  pub log_level : ℕ

-- The checks between values at the end of `FromEnv`.
unfoldable pub validated : Config → Checked Config
unfolding le64
validated cfg =
    if le64 cfg.election_min cfg.heartbeat_interval
    then bad heartbeat_too_long
    else if not (le64 cfg.election_min cfg.election_max)
    then bad max_below_min
    else good cfg

-- The number of milliseconds that `envDuration` reads.
abbrev pub positive : String → Option ℕ → Checked ℕ
positive key none = bad (bad_duration key)
positive key (some n) = if le64 n 0 then bad (bad_duration key) else good (of_milliseconds n)

abbrev pub or_bad : Problem → Option ℕ → Checked ℕ
or_bad p none = bad p
or_bad p (some n) = good n

module _ (environment : Environment) where
  unfoldable pub env : String → String → String
  unfolding trim_space
  env key fallback =
      let value = trim_space (environment key) in if is_empty value then fallback else value

  unfoldable pub env_duration : String → ℕ → Checked ℕ
  unfolding env atoi le64 of_milliseconds
  env_duration key fallback =
      if is_empty (env key "") then good fallback else positive key (atoi (env key ""))

  unfoldable pub env_uint : String → ℕ → Checked ℕ
  unfolding env parse_uint
  env_uint key fallback =
      if is_empty (env key "")
      then good fallback
      else or_bad (bad_uint key) (parse_uint (env key ""))

  unfoldable pub env_log_level : String → ℕ → Checked ℕ
  unfolding env parse_level
  env_log_level key fallback =
      if is_empty (env key "")
      then good fallback
      else or_bad (bad_level key) (parse_level (env key ""))

  unfoldable pub from_env : Checked Config
  unfolding env_duration env_uint env_log_level parse_peers validated env
  from_env = do
    election_min ← env_duration "RAFT_ELECTION_MIN_MS" (500 * millisecond)
    election_max ← env_duration "RAFT_ELECTION_MAX_MS" (900 * millisecond)
    heartbeat ← env_duration "RAFT_HEARTBEAT_MS" (100 * millisecond)
    threshold ← env_uint "RAFT_SNAPSHOT_THRESHOLD" 10000
    level ← env_log_level "RAFT_LOG_LEVEL" 0
    peers ← parse_peers (env "RAFT_PEERS" "") (env "NODE_ID" "node1")
    validated (record {
      node_id = env "NODE_ID" "node1";
      grpc_addr = env "RAFT_GRPC_ADDR" ":9001";
      http_addr = env "RAFT_HTTP_ADDR" ":8001";
      data_dir = env "RAFT_DATA_DIR" "data/node1";
      peers = peers;
      election_min = election_min;
      election_max = election_max;
      heartbeat_interval = heartbeat;
      snapshot_threshold = threshold;
      log_level = level;
    })
