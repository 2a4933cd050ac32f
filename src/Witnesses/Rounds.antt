-- ===== src/Witnesses/Rounds.antt =====
-- Concrete leaders and followers, and each result about them.
use log_replicator_raft.Common.{ℕ, ◌≡◌, refl, false, true, some, [], ◌∷◌, arith, ◌≤◌, ◌+◌}
use log_replicator_raft.Storage.Rows.{
  Entry, Tables, empty_tables, find_entry, last_entry, delete_kv, upsert_kv,
}
use log_replicator_raft.Storage.Spec.{known_term, last_position, with_set, with_delete}
use log_replicator_raft.Raft.Types.{Node, leader}
use log_replicator_raft.Raft.Lifecycle.{restored_node}
use log_replicator_raft.Raft.Replication.{next_index_of, advance_commit, apply_loop}
use log_replicator_raft.Raft.Commit.{holders, IsCommittable, Justified, advance_commit_rule}
use log_replicator_raft.Raft.Complete.{advance_commit_complete}
use log_replicator_raft.Raft.Apply.{replay, apply_loop-replay}
use log_replicator_raft.Common.Action.{ok}
use log_replicator_raft.Raft.Stall.{Diverges, Stuck, catches_up}
use log_replicator_raft.Raft.Livelock.{catches_up_never}
use log_replicator_raft.Witnesses.{codec, node}

-- A leader of term 3 whose log and that of the follower differ at the indexes 2 and 3, where the
-- follower's log ends.
abbrev entry : ℕ → ℕ → Entry
entry index term = record { index = index; term = term; command = "-" }

abbrev leading_tables : Tables
leading_tables = record empty_tables {
  log_entries = entry 1 1 ∷ entry 2 2 ∷ entry 3 2 ∷ entry 4 3 ∷ [];
}

abbrev lagging_tables : Tables
lagging_tables = record empty_tables { log_entries = entry 1 1 ∷ entry 2 1 ∷ entry 3 1 ∷ [] }

abbrev leading : Node
leading = record node {
  role = leader;
  current_term = 3;
  store = record { tables = leading_tables; faults = [] };
  next_index = λ _. 5;
}

abbrev lagging : Node
lagging = record node { current_term = 3; store = record { tables = lagging_tables; faults = [] } }

apart : Diverges 3 leading_tables lagging_tables
unfolding known_term last_position find_entry last_entry
apart = record {
  long = ground arith;
  fits = ground arith;
  ends = refl;
  beyond = λ i h. ground arith;
  compacted = ground arith;
  known = (2, refl);
  before = λ e. ground arith;
  at_last = λ e. ground arith;
}

at_odds : Stuck "n2" 3 leading lagging
unfolding restored_node next_index_of
at_odds = record {
  quiet = (refl, refl);
  leads = (refl, refl);
  terms = refl;
  logs = apart;
  position = ground arith;
}

catches_up_never_example : catches_up codec 1000 "n2" (leading, lagging) ≡ false
catches_up_never_example = catches_up_never codec "n2" 1000 3 leading lagging at_odds

-- The leader once one follower of two holds the entry of its term.
abbrev acknowledged : Node
acknowledged = record leading { match_index = λ _. 4 }

at_majority : IsCommittable acknowledged 4
unfolding restored_node known_term find_entry holders
at_majority = (refl, ground arith)

advance_commit_rule_example : Justified acknowledged (advance_commit codec acknowledged).1
advance_commit_rule_example = advance_commit_rule codec acknowledged

advance_commit_complete_example : 4 ≤ (advance_commit codec acknowledged).1.commit_index
unfolding restored_node last_position last_entry
advance_commit_complete_example =
    advance_commit_complete codec acknowledged 4 refl at_majority (ground arith) (ground arith)

-- A node with two committed commands: the key is set and deleted again.
abbrev pending_tables : Tables
pending_tables = record empty_tables {
  log_entries = record { index = 1; term = 1; command = "5" } ∷ entry 2 1 ∷ [];
}

abbrev pending : Node
pending = record node { commit_index = 2; store = record { tables = pending_tables; faults = [] } }

abbrev settled_tables : Tables
settled_tables = record pending_tables {
  metadata = record empty_tables.metadata { last_applied = 2 };
}

replayed : replay codec 2 (pending.last_applied + 1) pending_tables ≡ some settled_tables
unfolding restored_node replay with_set with_delete delete_kv upsert_kv
replayed = refl

apply_loop-replay_example : apply_loop codec 2 pending ≡ (
  ok true,
  record pending { last_applied = 2; store = record { tables = settled_tables; faults = [] } },
)
unfolding restored_node
apply_loop-replay_example =
    apply_loop-replay codec 2 pending settled_tables refl refl (ground arith) replayed
