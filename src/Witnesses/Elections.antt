-- ===== src/Witnesses/Elections.antt =====
-- A concrete election, and each result about it.
use log_replicator_raft.Common.{
  length, ◌*◌, ◌<◌, String, Bool, true, false, ◌≡◌, ◌≢◌, ◌+◌, refl, sym, Option, none, some, List,
  [], ◌∷◌, named_apart, same, arith,
}
use log_replicator_raft.Common.Action.{ok, Action, Done, pure}
use log_replicator_raft.Storage.Store.{last_index_and_term, save_term_vote}
use log_replicator_raft.Storage.Rows.{last_entry}
use log_replicator_raft.Raft.Types.{Node, VoteRequest, VoteReply}
use log_replicator_raft.Raft.Node.{
  is_leader, majority, step_down, reset_election_deadline, publish_state, observe_higher_term,
}
use log_replicator_raft.Raft.Election.{
  Candidacy, request_vote, become_candidate, become_leader, collect, start_election, start_progress,
  signal_replication,
}
use log_replicator_raft.Raft.Lifecycle.{restored_node}
use log_replicator_raft.Raft.Quorum.{count}
use log_replicator_raft.Raft.Votes.Granted.{request_vote-HasVoted, become_candidate-HasVoted}
use log_replicator_raft.Raft.Votes.Safety.{here}
use log_replicator_raft.Raft.Elected.{Member, Voted, one_winner_per_term}
use log_replicator_raft.Raft.Tally.{granted, start_election_won}
use log_replicator_raft.Witnesses.{codec, options, node}

abbrev n1 : String
n1 = "n1"

n1_named : n1 ≢ ""
n1_named = named_apart n1 "" refl

abbrev nothing : Action Node Done
nothing = pure tt

abbrev yes_from_one : Candidacy → List (Option VoteReply)
yes_from_one _ = none ∷ some (record { term = 1; vote_granted = true }) ∷ []

out : is_leader node.role ≡ false
unfolding restored_node
out = refl

won : is_leader (start_election nothing nothing yes_from_one node).1.role ≡ true
unfolding start_election become_candidate collect become_leader observe_higher_term restored_node
    save_term_vote reset_election_deadline publish_state last_index_and_term last_entry majority
    start_progress signal_replication
won = refl

start_election_won_example :
    (round : Candidacy) × ((become_candidate node).0 ≡ ok (some round))
    × (length node.peers + 1 < 2 * (1 + granted (yes_from_one round)))
start_election_won_example = start_election_won nothing nothing (λ n h. h) yes_from_one node out won

abbrev round : Candidacy
round = record {
  term = 1;
  last_log_index = 0;
  last_log_term = 0;
  peers = options.peers;
  majority = 2;
}

stands : (become_candidate node).0 ≡ ok (some round)
unfolding become_candidate restored_node save_term_vote reset_election_deadline publish_state
    last_index_and_term last_entry majority
stands = refl

abbrev ask : VoteRequest
ask = record { term = 1; candidate_id = "n1"; last_log_index = 0; last_log_term = 0 }

-- The same node as a voter, under another name.
abbrev other : Node
other = record node { id = "n2" }

grants : (request_vote ask other).0 ≡ ok (record { term = 1; vote_granted = true })
unfolding request_vote restored_node step_down save_term_vote reset_election_deadline publish_state
    last_index_and_term last_entry
grants = refl

abbrev member : Bool → Member codec
member true = record {
  first = (become_candidate node).1;
  last = (become_candidate node).1;
  life = here;
}
member false = record {
  first = (request_vote ask other).1;
  last = (request_vote ask other).1;
  life = here;
}

abbrev cluster : String → Member codec
cluster m = member (same m "n1")

voted : (b : Bool) → Voted codec n1 1 (member b).life
unfolding Voted restored_node
voted true = let (h, at) = become_candidate-HasVoted node stands in record { vote = h; at = sym at }
voted false =
    let (h, at) = request_vote-HasVoted ask other grants refl in record { vote = h; at = sym at }

one_winner_per_term_example : n1 ≡ n1
unfolding count majority
one_winner_per_term_example =
    one_winner_per_term codec cluster ("n1" ∷ "n2" ∷ "n3" ∷ []) options.peers n1 n1 1 (λ _. true)
      (λ _. true) refl (λ m _. voted (same m "n1")) (λ m _. voted (same m "n1")) (omega arith)
      (omega arith) n1_named n1_named
