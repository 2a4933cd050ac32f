-- ===== src/Witnesses/Reads.antt =====
-- A concrete read of a leader whose second peer is cut off.
use log_replicator_raft.Common.{
  String, Bool, true, false, ◌≡◌, ◌≤◌, ◌+◌, refl, none, some, [], ◌∷◌, same,
}
use log_replicator_raft.Common.Action.{ok, pure}
use log_replicator_raft.Storage.Rows.{
  Tables, empty_tables, find_entry, find_kv, last_entry, entries_ge,
}
use log_replicator_raft.Storage.Store.{
  get, term_at, entries_from, snapshot_index_term, last_index_and_term,
}
use log_replicator_raft.Raft.Types.{Node, leader}
use log_replicator_raft.Raft.Node.{is_leader, majority, publish_state, observe_higher_term}
use log_replicator_raft.Raft.Replication.{
  next_index_of, peer_needs_snapshot, record_peer_progress, advance_commit, scan_commit,
  replica_count, last_entry_index,
}
use log_replicator_raft.Raft.Lifecycle.{restored_node}
use log_replicator_raft.Raft.Sender.{
  Network, append_answered, append_called, built, build_from, build_append_request, send_entries,
  replicate_rounds, attempt,
}
use log_replicator_raft.Raft.Client.{ReadReply, replicate_all, confirm_leadership, read_here}
use log_replicator_raft.Raft.Silence.{IsSilent}
use log_replicator_raft.Raft.Yields.{pure-Yields}
use log_replicator_raft.Raft.Fresh.{answering, read_here_fresh}
use log_replicator_raft.Witnesses.{codec, node}

abbrev tables : Tables
tables = record empty_tables {
  log_entries = record { index = 1; term = 3; command = "1" } ∷ [];
  kv = record { key = "a"; value = "1"; log_index = 1 } ∷ [];
}

abbrev leading : Node
leading = record node {
  role = leader;
  current_term = 3;
  commit_index = 1;
  last_applied = 1;
  store = record { tables = tables; faults = [] };
  next_index = λ _. 2;
  match_index = λ _. 1;
}

abbrev network : Bool → Network
network true = record {
  append = λ req. pure (some (record { term = 3; success = true; match_index = 1 }));
  install = λ req. pure none;
  cancelled = pure false;
}
network false = record {
  append = λ req. pure none;
  install = λ req. pure none;
  cancelled = pure false;
}

abbrev reachable : String → Bool
reachable peer = same peer "n2"

silent : (b : Bool) → b ≡ false → IsSilent (network b)
silent true e = absurd (cc)
silent false e = record {
  append = λ req. pure-Yields none refl;
  install = λ req. pure-Yields none refl;
}

abbrev answer : ReadReply
answer = record { leader_id = "n1"; value = "1" }

read_a : (read_here codec (λ peer. network (reachable peer)) "a" leading).0 ≡ ok answer
unfolding read_here confirm_leadership replicate_all replicate_rounds send_entries built
    append_called append_answered build_from build_append_request attempt next_index_of
    peer_needs_snapshot record_peer_progress advance_commit scan_commit replica_count
    observe_higher_term publish_state majority get term_at entries_from snapshot_index_term
    last_index_and_term find_entry find_kv last_entry entries_ge restored_node last_entry_index
read_a = refl

read_here_fresh_example :
    (is_leader (confirm_leadership codec (λ peer. network (reachable peer)) leading).1.role ≡ true)
    × (majority (confirm_leadership codec (λ peer. network (reachable peer)) leading).1.peers
        ≤ 1 + answering reachable leading.peers)
unfolding restored_node
read_here_fresh_example =
    read_here_fresh codec (λ peer. network (reachable peer)) reachable
      (λ peer e. silent (reachable peer) e) "a" leading answer read_a
