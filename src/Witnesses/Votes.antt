-- ===== src/Witnesses/Votes.antt =====
-- Concrete votes, and each result about them.
use log_replicator_raft.Common.{named_apart, String, true, ◌≡◌, ◌≢◌, refl, some, []}
use log_replicator_raft.Common.Action.{ok, ◌>>◌}
use log_replicator_raft.Storage.Rows.{empty_tables}
use log_replicator_raft.Storage.Statement.{Store}
use log_replicator_raft.Storage.Store.{
  last_index_and_term, current_term_vote, last_applied, save_term_vote,
}
use log_replicator_raft.Raft.Types.{Node, VoteRequest, VoteReply}
use log_replicator_raft.Raft.Election.{request_vote, become_candidate, Candidacy}
use log_replicator_raft.Raft.Lifecycle.{restored_node, new_node}
use log_replicator_raft.Raft.Node.{majority, step_down, reset_election_deadline, publish_state}
use log_replicator_raft.Storage.Rows.{last_entry}
use log_replicator_raft.Raft.Votes.Granted.{
  HasVoted, request_vote-HasVoted, become_candidate-HasVoted,
}
use log_replicator_raft.Raft.Votes.Safety.{
  here, next, restart, one_vote_per_term, candidate_votes_for_itself,
}
use log_replicator_raft.Witnesses.{codec, options, node}

abbrev ask : String → VoteRequest
ask candidate = record { term = 3; candidate_id = candidate; last_log_index = 0; last_log_term = 0 }

abbrev granted : VoteReply
granted = record { term = 3; vote_granted = true }

ask_n2 : (request_vote (ask "n2") node).0 ≡ ok granted
unfolding request_vote restored_node step_down save_term_vote reset_election_deadline publish_state
    last_index_and_term last_entry
ask_n2 = refl

abbrev n2 : String
n2 = "n2"

n2_named : n2 ≢ ""
n2_named = named_apart n2 "" refl

abbrev voted : Node
voted = (request_vote (ask "n2") node).1

request_vote-HasVoted_example : HasVoted n2 voted × (3 ≡ voted.current_term)
request_vote-HasVoted_example = request_vote-HasVoted (ask "n2") node ask_n2 refl

abbrev kept : Store
kept = record {
  tables = record empty_tables {
    metadata = record empty_tables.metadata { current_term = 3; voted_for = "n2" };
  };
  faults = [];
}

same_tables : kept.tables ≡ voted.store.tables
unfolding request_vote restored_node step_down save_term_vote reset_election_deadline publish_state
    last_index_and_term last_entry
same_tables = refl

-- The node of `voted` after a restart: it still holds the vote.
abbrev restarted : Node
restarted =
    ((do reset_election_deadline; publish_state) (restored_node options 9 [] kept (3, "n2") 0)).1

restart_step : new_node options 9 [] kept ≡ ok restarted
unfolding new_node current_term_vote last_applied
restart_step = refl

ask_again : (request_vote (ask "n2") restarted).0 ≡ ok granted
unfolding request_vote restored_node step_down save_term_vote reset_election_deadline publish_state
    last_index_and_term last_entry new_node current_term_vote last_applied
ask_again = refl

one_vote_per_term_example : n2 ≡ n2
one_vote_per_term_example =
    one_vote_per_term codec node restarted (ask "n2") (ask "n2") granted granted ask_n2 refl
      (next here (restart options 9 [] kept same_tables restart_step)) ask_again refl refl n2_named

abbrev n1 : String
n1 = "n1"

n1_named : n1 ≢ ""
n1_named = named_apart n1 "" refl

abbrev round : Candidacy
round = record {
  term = 1;
  last_log_index = 0;
  last_log_term = 0;
  peers = options.peers;
  majority = 2;
}

stands : (become_candidate node).0 ≡ ok (some round)
unfolding become_candidate restored_node save_term_vote reset_election_deadline publish_state
    last_index_and_term last_entry majority
stands = refl

become_candidate-HasVoted_example :
    HasVoted n1 (become_candidate node).1 × (1 ≡ (become_candidate node).1.current_term)
unfolding restored_node
become_candidate-HasVoted_example = become_candidate-HasVoted node stands

abbrev standing : Node
standing = (become_candidate node).1

abbrev ask_itself : VoteRequest
ask_itself = record { term = 1; candidate_id = "n1"; last_log_index = 0; last_log_term = 0 }

abbrev granted_itself : VoteReply
granted_itself = record { term = 1; vote_granted = true }

grants_itself : (request_vote ask_itself standing).0 ≡ ok granted_itself
unfolding request_vote become_candidate restored_node save_term_vote reset_election_deadline
    publish_state last_index_and_term last_entry majority
grants_itself = refl

candidate_votes_for_itself_example : n1 ≡ n1
unfolding restored_node
candidate_votes_for_itself_example =
    candidate_votes_for_itself codec node standing round ask_itself granted_itself stands here
      grants_itself refl refl n1_named
