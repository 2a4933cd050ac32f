-- ===== src/Raft/Types.antt =====
-- The state of a node (internal/raft/node.go, options.go) and the messages between nodes.
use log_replicator_raft.Common.{ℕ, String, Bool, List, if◌then◌else◌, same}
use log_replicator_raft.Storage.Rows.{Entry}
use log_replicator_raft.Storage.Statement.{Store}

pub data Role : Type 0 where
  follower candidate leader : Role

pub record Peer : Type 0 where
  pub id : String
  pub address : String

-- The fields of the Go struct that the mutex guards, with its configuration. A Go map from peer ids
-- is a function; a key that was never written reads as zero or false. `clock` is what `time.Now`
-- returns and `draws` what the random generator returns next; `wake` says for which peers the
-- channel `replicateNow` holds a pending wake-up.
pub record Node : Type 0 where
  pub id : String
  pub peers : List Peer
  pub election_min : ℕ
  pub election_max : ℕ
  pub heartbeat : ℕ
  pub snapshot_threshold : ℕ
  pub store : Store
  pub role : Role
  pub current_term : ℕ
  pub voted_for : String
  pub leader_id : String
  pub commit_index : ℕ
  pub last_applied : ℕ
  pub next_index : String → ℕ
  pub match_index : String → ℕ
  pub unreachable : String → Bool
  pub election_deadline : ℕ
  pub wake : String → Bool
  pub clock : ℕ
  pub draws : List ℕ

-- `m[k] = v` on a Go map.
abbrev pub put {ℓ} : {A : Type ℓ} → String → A → (String → A) → String → A
put k v m j = if same k j then v else m j

pub record VoteRequest : Type 0 where
  pub term : ℕ
  pub candidate_id : String
  pub last_log_index : ℕ
  pub last_log_term : ℕ

pub record VoteReply : Type 0 where
  pub term : ℕ
  pub vote_granted : Bool

pub record AppendRequest : Type 0 where
  pub term : ℕ
  pub leader_id : String
  pub prev_log_index : ℕ
  pub prev_log_term : ℕ
  pub entries : List Entry
  pub leader_commit : ℕ

pub record AppendReply : Type 0 where
  pub term : ℕ
  pub success : Bool
  pub match_index : ℕ

pub record SnapshotRequest : Type 0 where
  pub term : ℕ
  pub leader_id : String
  pub last_included_index : ℕ
  pub last_included_term : ℕ
  pub payload : String
