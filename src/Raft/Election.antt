-- ===== src/Raft/Election.antt =====
-- Leader election (internal/raft/election.go).
use log_replicator_raft.Common.{
  ℕ, ◌+◌, String, Bool, true, false, Option, none, some, List, [], ◌∷◌, not, ◌&&◌, ◌||◌, ltb, leb,
  ◌==◌, same, succ64, if◌then◌else◌,
}
use log_replicator_raft.Common.Action.{Action, Done, pure, gets, modify, ◌>>=◌, ◌>>◌}
use log_replicator_raft.Storage.Store.{save_term_vote, last_index_and_term}
use log_replicator_raft.Raft.Types.{
  Node, Role, candidate, leader, Peer, put, VoteRequest, VoteReply,
}
use log_replicator_raft.Raft.Node.{
  lift, lift_internal, recover, when, this, is_leader, publish_state, reset_election_deadline,
  step_down, majority, observe_higher_term,
}

pub record Candidacy : Type 0 where
  pub term : ℕ
  pub last_log_index : ℕ
  pub last_log_term : ℕ
  pub peers : List Peer
  pub majority : ℕ

-- The state changes at the start of `becomeCandidate`.
abbrev pub promoted : Node → Node
promoted n = record n {
  role = candidate;
  current_term = succ64 n.current_term;
  voted_for = n.id;
  leader_id = "";
}

-- The candidacy of a node whose term and vote are on disk.
unfoldable pub candidacy_of : Node → Action Node (Option Candidacy)
unfolding lift
candidacy_of n = do
  (index, term) ← lift last_index_and_term
  publish_state
  let round : Candidacy = record {
    term = n.current_term;
    last_log_index = index;
    last_log_term = term;
    peers = n.peers;
    majority = majority n.peers;
  }
  pure (some round)

-- The rest of `becomeCandidate`: both values are on disk before the candidacy is returned.
unfoldable pub announce : Action Node (Option Candidacy)
unfolding lift candidacy_of
announce = do
  reset_election_deadline
  n ← this
  lift (save_term_vote n.current_term n.voted_for)
  candidacy_of n

unfoldable pub become_candidate : Action Node (Option Candidacy)
unfolding announce recover
become_candidate = do
  n ← this
  if is_leader n.role then pure none else recover none (do modify promoted; announce)

abbrev pub is_candidate : Role → Bool
is_candidate candidate = true
is_candidate _ = false

-- The loop that sets `nextIndex` and `matchIndex` of every peer.
unfoldable pub start_progress : ℕ → List Peer → Node → Node
start_progress next [] n = n
start_progress next (p ∷ peers) n =
    start_progress next peers
      (record n { next_index = put p.id next n.next_index; match_index = put p.id 0 n.match_index })

-- `signalReplication`: a wake-up for every peer that has a replication loop.
abbrev pub among : String → List Peer → Bool
among id [] = false
among id (p ∷ peers) = same p.id id || among id peers

unfoldable pub signal_replication : Action Node Done
signal_replication = modify (λ n. record n { wake = λ id. among id n.peers || n.wake id })

abbrev pub is_empty : List Peer → Bool
is_empty [] = true
is_empty _ = false

-- `commit` stands for `commitAndApply` of replication.go, which a node without peers calls.
module _ (commit : Action Node Done) where
  unfoldable pub become_leader : ℕ → Action Node Done
  unfolding lift recover start_progress signal_replication
  become_leader term = do
    n ← this
    if not (is_candidate n.role) || not (n.current_term == term)
        then pure tt
        else recover tt do
          (index, _) ← lift last_index_and_term
          modify (λ n.
              start_progress (succ64 index) n.peers (record n { role = leader; leader_id = n.id }))
          publish_state
          if is_empty n.peers then commit else signal_replication

  -- The votes of `startElection`, in the order in which the replies come in; `none` is a call that
  -- failed. Other handlers run between two replies: `between` is what they do.
  module _ (between : Action Node Done) where
    unfoldable pub collect : Candidacy → ℕ → List (Option VoteReply) → Action Node Done
    unfolding become_leader
    collect round votes [] = pure tt
    collect round votes (none ∷ replies) = collect round votes replies
    collect round votes (some reply ∷ replies) = do
      between
      newer ← observe_higher_term reply.term
      let rest = collect round votes replies
      let counted = collect round (votes + 1) replies
      if newer
          then pure tt
          else if not reply.vote_granted
          then rest
          else if leb round.majority (votes + 1)
          then become_leader round.term
          else counted

    -- `replies` is what the peers answer to this candidacy.
    unfoldable pub start_election : (Candidacy → List (Option VoteReply)) → Action Node Done
    unfolding become_candidate collect
    start_election replies = do
      candidacy ← become_candidate
      elim candidacy [
        | none ↦ pure tt
        | some round ↦
            if leb round.majority 1
            then become_leader round.term
            else collect round 1 (replies round)
      ]

abbrev pub up_to_date : VoteRequest → ℕ → ℕ → Bool
up_to_date req last_log_index last_log_term =
    ltb last_log_term req.last_log_term
    || ((req.last_log_term == last_log_term) && leb last_log_index req.last_log_index)

abbrev pub voted_for_someone_else : String → String → Bool
voted_for_someone_else voted_for candidate_id =
    not (same voted_for "") && not (same voted_for candidate_id)

-- The vote itself: it is on disk before it is answered.
unfoldable pub grant : VoteRequest → Action Node VoteReply
unfolding lift_internal
grant req = do
  modify (λ n. record n { voted_for = req.candidate_id })
  n ← this
  lift_internal (save_term_vote n.current_term n.voted_for)
  reset_election_deadline
  publish_state
  gets (λ n. record { term = n.current_term; vote_granted = true })

abbrev pub refuse : Action Node VoteReply
refuse = gets (λ n. record { term = n.current_term; vote_granted = false })

-- `RequestVote`
unfoldable pub request_vote : VoteRequest → Action Node VoteReply
unfolding lift_internal grant
request_vote req = do
  n ← this
  if ltb req.term n.current_term then refuse else do
    when (ltb n.current_term req.term) (step_down req.term "")
    (index, term) ← lift_internal last_index_and_term
    n ← this
    if voted_for_someone_else n.voted_for req.candidate_id || not (up_to_date req index term)
        then refuse
        else grant req
