-- ===== src/Witnesses/Writes.antt =====
-- A concrete write and its answer.
use log_replicator_raft.Common.{◌≡◌, refl, [], ◌∷◌, ◌≤◌}
use log_replicator_raft.Common.Action.{ok, Action, Done, pure, ◌>>◌}
use log_replicator_raft.Storage.Rows.{last_entry, upsert_entry, find_entry, delete_ge}
use log_replicator_raft.Storage.Store.{
  last_index_and_term, append_entries, term_at, entry_at, apply_set, save_term_vote, delete_from,
  snapshot_index_term,
}
use log_replicator_raft.Raft.Types.{Node, AppendRequest, leader}
use log_replicator_raft.Raft.Node.{majority, publish_state, step_down, reset_election_deadline}
use log_replicator_raft.Raft.Lifecycle.{restored_node}
use log_replicator_raft.Raft.Command.{set_command, encode, decode_command, apply_to}
use log_replicator_raft.Raft.Follower.{append_entries_rpc}
use log_replicator_raft.Raft.Replication.{advance_commit, apply_committed}
use log_replicator_raft.Raft.Client.{
  WriteReply, tick, propose, wait_for_commit, append_client_entry,
}
use log_replicator_raft.Raft.Acknowledged.{propose-commit_index}
use log_replicator_raft.Witnesses.{codec, node}

-- A leader without peers, and a write that it answers.
abbrev alone : Node
alone = record node { peers = []; role = leader; current_term = 1 }

abbrev answer : WriteReply
answer = record { leader_id = "n1"; index = 1; term = 1 }

answered : (propose codec (pure tt) (tick ∷ []) (set_command "a" "5") alone).0 ≡ ok answer
unfolding restored_node propose set_command encode append_client_entry last_index_and_term
    last_entry append_entries advance_commit upsert_entry term_at find_entry majority
    apply_committed entry_at decode_command apply_to apply_set publish_state
answered = refl

propose-commit_index_example :
    1 ≤ (propose codec (pure tt) (tick ∷ []) (set_command "a" "5") alone).1.commit_index
unfolding restored_node
propose-commit_index_example =
    propose-commit_index codec (pure tt) (tick ∷ []) (set_command "a" "5") alone answer answered

-- A leader of three nodes loses its term before the first poll: the new leader replaces the entry by
-- one of its own and commits that. The write is answered as done, and its entry is gone.
abbrev leading : Node
leading = record node { role = leader; current_term = 1 }

abbrev replaced : AppendRequest
replaced = record {
  term = 2;
  leader_id = "n2";
  prev_log_index = 0;
  prev_log_term = 0;
  entries = record { index = 1; term = 2; command = "7" } ∷ [];
  leader_commit = 1;
}

abbrev taken_over : Action Node Done
taken_over = do append_entries_rpc (apply_committed codec) replaced; pure tt

overwritten :
    let (result, n) = propose codec taken_over (tick ∷ []) (set_command "a" "5") leading in
    (result ≡ ok answer)
    × (n.store.tables.log_entries ≡ record { index = 1; term = 2; command = "7" } ∷ [])
unfolding propose encode set_command last_index_and_term restored_node last_entry append_entries
    publish_state upsert_entry append_entries_rpc step_down save_term_vote reset_election_deadline
    term_at find_entry delete_from delete_ge apply_committed append_client_entry wait_for_commit
    apply_to decode_command entry_at apply_set snapshot_index_term majority
overwritten = (refl, refl)
