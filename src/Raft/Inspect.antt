-- ===== src/Raft/Inspect.antt =====
-- What a node tells of itself: `Status` and `InspectLog` of internal/raft/client.go.
use log_replicator_raft.Common.{ℕ, String, List, map, succ64, if◌then◌else◌}
use log_replicator_raft.Common.Action.{Action, gets, ◌>>=◌}
use log_replicator_raft.Storage.Rows.{Entry}
use log_replicator_raft.Storage.Store.{last_index_and_term, snapshot_index_term, entries_from, all}
use log_replicator_raft.Raft.Types.{Node, Role}
use log_replicator_raft.Raft.Node.{lift_internal, is_leader}

pub record PeerStatus : Type 0 where
  pub id : String
  pub address : String
  pub match_index : ℕ
  pub next_index : ℕ

pub record StatusReply : Type 0 where
  pub id : String
  pub role : Role
  pub term : ℕ
  pub leader_id : String
  pub commit_index : ℕ
  pub last_applied : ℕ
  pub last_log_index : ℕ
  pub snapshot_index : ℕ
  pub peers : List PeerStatus

-- `Status`
unfoldable pub node_status : Action Node StatusReply
unfolding lift_internal
node_status = do
  (last, _) ← lift_internal last_index_and_term
  (snapshot_index, _) ← lift_internal snapshot_index_term
  gets (λ n. record {
    id = n.id;
    role = n.role;
    term = n.current_term;
    leader_id = if is_leader n.role then n.id else n.leader_id;
    commit_index = n.commit_index;
    last_applied = n.last_applied;
    last_log_index = last;
    snapshot_index = snapshot_index;
    peers =
        map
          (λ p. record {
            id = p.id;
            address = p.address;
            match_index = n.match_index p.id;
            next_index = n.next_index p.id;
          })
          n.peers;
  })

pub record LogReply : Type 0 where
  pub id : String
  pub role : Role
  pub term : ℕ
  pub commit_index : ℕ
  pub last_applied : ℕ
  pub snapshot_index : ℕ
  pub entries : List Entry
  pub state : List (String × String)

-- `InspectLog`
unfoldable pub inspect_log : Action Node LogReply
unfolding lift_internal
inspect_log = do
  (snapshot_index, _) ← lift_internal snapshot_index_term
  entries ← lift_internal (entries_from (succ64 snapshot_index) 0)
  state ← lift_internal all
  gets (λ n. record {
    id = n.id;
    role = n.role;
    term = n.current_term;
    commit_index = n.commit_index;
    last_applied = n.last_applied;
    snapshot_index = snapshot_index;
    entries = entries;
    state = state;
  })
