-- ===== src/Config/Sensible.antt =====
-- What holds between the values of a configuration that `FromEnv` (internal/config/config.go) returned.
use mathlib.Core.Path.{subst}
use log_replicator_raft.Common.{
  ℕ, ◌+◌, ◌%◌, ◌^◌, ◌≤◌, ◌<◌, String, Bool, true, false, ◌≡◌, refl, not, [], arith, if◌then◌else◌,
}
use log_replicator_raft.Config.Numbers.{le64}
use log_replicator_raft.Config.Peers.{
  Checked, good, bad, heartbeat_too_long, max_below_min, parse_peers, ◌>>=◌,
}
use log_replicator_raft.Config.Env.{
  Environment, Config, env, validated, from_env, env_duration, env_uint, env_log_level,
}
use log_replicator_raft.Config.Valid.{Accepts, IsPeers, parse_peers-IsPeers}

-- An int64 moved up by 2^63, so that numbers compare as the int64 do.
abbrev pub rank64 : ℕ → ℕ
rank64 n = (n + 2 ^ 63) % 2 ^ 64

unfoldable pub IsSensible : Config → Type 0
IsSensible cfg =
    (rank64 cfg.heartbeat_interval < rank64 cfg.election_min)
    × (rank64 cfg.election_min ≤ rank64 cfg.election_max)
    × IsPeers cfg.node_id cfg.peers

Accepts-bind {ℓ κ} :
    {A B : Type ℓ} (P : B → Type κ) (m : Checked A) (f : A → Checked B)
    → ((a : A) → m ≡ good a → Accepts P (f a))
    → Accepts P (m >>= f)
Accepts-bind P (good a) f h = h a refl
Accepts-bind P (bad p) f h = tt

validated-IsSensible :
    (cfg : Config) → IsPeers cfg.node_id cfg.peers → Accepts IsSensible (validated cfg)
unfolding validated le64 IsSensible
validated-IsSensible cfg h =
    on (le64 cfg.election_min cfg.heartbeat_interval) refl (le64 cfg.election_min cfg.election_max)
      refl
  where
    on :
        (b : Bool)
        → le64 cfg.election_min cfg.heartbeat_interval ≡ b
        → (c : Bool) → le64 cfg.election_min cfg.election_max ≡ c
        → Accepts IsSensible
            (if b then bad heartbeat_too_long else if not c then bad max_below_min else good cfg)
    on true e c k = tt
    on false e false k = tt
    on false e true k = (ground arith, ground arith, h)

-- In a configuration that `FromEnv` returns, the heartbeat is shorter than the shorter election timeout,
-- that one is at most the longer one, as int64, and the peers are other nodes, each named once and with
-- an address.
pub from_env-IsSensible :
    (environment : Environment) (cfg : Config) → from_env environment ≡ good cfg → IsSensible cfg
unfolding from_env
from_env-IsSensible environment cfg h = subst (Accepts IsSensible) h (
    Accepts-bind IsSensible (env_duration environment "RAFT_ELECTION_MIN_MS" _) _ λ election_min _.
      Accepts-bind IsSensible (env_duration environment "RAFT_ELECTION_MAX_MS" _) _
        λ election_max _.
          Accepts-bind IsSensible (env_duration environment "RAFT_HEARTBEAT_MS" _) _ λ heartbeat _.
            Accepts-bind IsSensible (env_uint environment "RAFT_SNAPSHOT_THRESHOLD" _) _
              λ threshold _.
                Accepts-bind IsSensible (env_log_level environment "RAFT_LOG_LEVEL" _) _ λ level _.
                  last
                    (record {
                      node_id = env environment "NODE_ID" "node1";
                      grpc_addr = env environment "RAFT_GRPC_ADDR" ":9001";
                      http_addr = env environment "RAFT_HTTP_ADDR" ":8001";
                      data_dir = env environment "RAFT_DATA_DIR" "data/node1";
                      peers = [];
                      election_min = election_min;
                      election_max = election_max;
                      heartbeat_interval = heartbeat;
                      snapshot_threshold = threshold;
                      log_level = level;
                    })
                    (env environment "RAFT_PEERS" ""))
  where
    last :
        (cfg : Config) (raw : String)
        → Accepts IsSensible
            (parse_peers raw cfg.node_id >>= λ peers. validated (record cfg { peers = peers }))
    last cfg raw =
        Accepts-bind IsSensible (parse_peers raw cfg.node_id)
          (λ peers. validated (record cfg { peers = peers }))
          λ peers e.
            validated-IsSensible (record cfg { peers = peers })
              (parse_peers-IsPeers raw cfg.node_id peers e)
