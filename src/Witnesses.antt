-- ===== src/Witnesses.antt =====
-- Concrete codecs, nodes and stores; the children apply each result to such inputs.
mod Rounds
mod Commands
mod Snapshots
mod Writes
mod Votes
mod Stores
mod Texts
mod Comparisons
mod Routes
mod Reads
mod Elections
mod Logs
mod Configs
use log_replicator_raft.Common.{
  not, ◌&&◌, named_apart, String, true, false, ◌≡◌, ◌≢◌, ◌⊎◌, refl, Option, none, some, List, [],
  ◌∷◌, same, if◌then◌else◌,
}
use log_replicator_raft.Common.Action.{ok, ◌>>◌}
use log_replicator_raft.Storage.Rows.{Entry, Snapshot, Tables, empty_tables}
use log_replicator_raft.Storage.Statement.{Store}
use log_replicator_raft.Storage.Store.{
  StateCodec, last_index_and_term, current_term_vote, last_applied, install_snapshot,
  create_snapshot, append_entries, save_term_vote,
}
use log_replicator_raft.Storage.Spec.{with_term_vote, with_log, upsert_entries, created, installed}
use log_replicator_raft.Storage.Refine.{Faulted, Agrees}
use log_replicator_raft.Storage.Atomic.{
  save_term_vote_atomic, append_entries_atomic, create_snapshot_atomic, install_snapshot_atomic,
}
use log_replicator_raft.Raft.Types.{Node, VoteRequest, VoteReply}
use log_replicator_raft.Raft.Command.{Codec, set_command, apply_to}
use log_replicator_raft.Raft.Machine.{effect, apply_to_atomic}
use log_replicator_raft.Raft.Election.{request_vote, become_candidate, Candidacy}
use log_replicator_raft.Raft.Lifecycle.{Options, restored_node, new_node}
use log_replicator_raft.Raft.Node.{majority, step_down, reset_election_deadline, publish_state}
use log_replicator_raft.Storage.Rows.{last_entry}
use log_replicator_raft.Raft.Votes.Granted.{
  HasVoted, request_vote-HasVoted, become_candidate-HasVoted,
}
use log_replicator_raft.Raft.Votes.Safety.{
  here, next, restart, one_vote_per_term, candidate_votes_for_itself,
}

-- A codec for maps with at most the key "a" and for the commands that set or delete it.
abbrev pub marshal_state : List (String × String) → Option String
marshal_state [] = some "{}"
marshal_state ((key, value) ∷ []) =
    if same key "a" && not (same value "{}") && not (same value "") then some value else none
marshal_state (_ ∷ _ ∷ _) = none

abbrev pub unmarshal_state : String → Option (List (String × String))
unmarshal_state payload = if same payload "{}" then some [] else some (("a", payload) ∷ [])

abbrev pub state_codec : StateCodec
state_codec = record { marshal = marshal_state; unmarshal = unmarshal_state }

-- Commands that it has no text for are refused.
abbrev pub codec : Codec
codec = record {
  marshal = λ cmd.
      if same cmd.op "set" && same cmd.key "a" && not (same cmd.value "-")
      then some cmd.value
      else if same cmd.op "delete" && same cmd.key "a" && same cmd.value ""
      then some "-"
      else none;
  unmarshal = λ raw.
      if same raw "-"
      then some (record { op = "delete"; key = "a"; value = "" })
      else some (record { op = "set"; key = "a"; value = raw });
  states = state_codec;
}

abbrev pub options : Options
options = record {
  node_id = "n1";
  grpc_addr = ":7001";
  http_addr = ":8001";
  data_dir = "/data";
  peers =
      record { id = "n2"; address = "n2:7001" } ∷ record { id = "n3"; address = "n3:7001" } ∷ [];
  election_min = 0;
  election_max = 0;
  heartbeat_interval = 0;
  snapshot_threshold = 100;
}

abbrev pub quiet_store : Store
quiet_store = record { tables = empty_tables; faults = [] }

abbrev pub node : Node
node = restored_node options 5 (7 ∷ []) quiet_store (0, "") 0

-- A store with a log and a key, whose driver fails at the third coming call.
abbrev pub used_tables : Tables
used_tables = record empty_tables {
  log_entries =
      record { index = 1; term = 1; command = "1" }
      ∷ record { index = 2; term = 1; command = "2" }
      ∷ [];
  kv = record { key = "a"; value = "1"; log_index = 1 } ∷ [];
}

abbrev pub failing_store : Store
failing_store = record { tables = used_tables; faults = false ∷ false ∷ true ∷ [] }

abbrev pub new_entries : List Entry
new_entries =
    record { index = 2; term = 2; command = "9" }
    ∷ record { index = 3; term = 2; command = "-" }
    ∷ []

abbrev pub sent_snapshot : Snapshot
sent_snapshot = record { last_included_index = 7; last_included_term = 2; payload = "9" }
