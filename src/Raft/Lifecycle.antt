-- ===== src/Raft/Lifecycle.antt =====
-- A node that is created over a data directory (`New` of internal/raft/node.go and the options of
-- options.go). The store is what the directory holds; opening it is not modelled.
use log_replicator_raft.Common.{ℕ, ◌*◌, String, false, List, ◌==◌, same, if◌then◌else◌}
use log_replicator_raft.Common.Action.{Result, ok, err, missing_option, ◌>>◌}
use log_replicator_raft.Storage.Statement.{Store}
use log_replicator_raft.Storage.Store.{current_term_vote, last_applied}
use log_replicator_raft.Raft.Types.{Node, follower, Peer}
use log_replicator_raft.Raft.Node.{publish_state, reset_election_deadline}

pub record Options : Type 0 where
  pub node_id : String
  pub grpc_addr : String
  pub http_addr : String
  pub data_dir : String
  pub peers : List Peer
  pub election_min : ℕ
  pub election_max : ℕ
  pub heartbeat_interval : ℕ
  pub snapshot_threshold : ℕ

-- time.Millisecond, in nanoseconds
abbrev pub millisecond : ℕ
millisecond = 1000000

abbrev pub or_default : ℕ → ℕ → ℕ
or_default value fallback = if value == 0 then fallback else value

-- What persists becomes the state of a follower that has applied nothing since.
unfoldable pub restored_node : Options → ℕ → List ℕ → Store → ℕ × String → ℕ → Node
restored_node opts clock draws store vote applied = record {
  id = opts.node_id;
  peers = opts.peers;
  election_min = or_default opts.election_min (500 * millisecond);
  election_max = or_default opts.election_max (900 * millisecond);
  heartbeat = or_default opts.heartbeat_interval (100 * millisecond);
  snapshot_threshold = opts.snapshot_threshold;
  store = store;
  role = follower;
  current_term = vote.0;
  voted_for = vote.1;
  leader_id = "";
  commit_index = applied;
  last_applied = applied;
  next_index = λ _. 0;
  match_index = λ _. 0;
  unreachable = λ _. false;
  election_deadline = 0;
  wake = λ _. false;
  clock = clock;
  draws = draws;
}

-- The end of `New`: the node is published by the same calls as later changes.
abbrev pub started : Result (ℕ × String) → Result ℕ → Options → ℕ → List ℕ → Store → Result Node
started (ok vote) (ok applied) opts clock draws store =
    ok
      ((do reset_election_deadline; publish_state)
        (restored_node opts clock draws store vote applied)).1
started (err e) applied opts clock draws store = err e
started (ok vote) (err e) opts clock draws store = err e

unfoldable pub new_node : Options → ℕ → List ℕ → Store → Result Node
unfolding current_term_vote last_applied restored_node
new_node opts clock draws store =
    if same opts.node_id ""
    then err missing_option
    else if same opts.grpc_addr ""
    then err missing_option
    else if same opts.data_dir ""
    then err missing_option
    else let (vote, s) = current_term_vote store in
      let (applied, s') = last_applied s in started vote applied opts clock draws s'
