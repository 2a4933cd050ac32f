-- ===== src/Raft/Standing.antt =====
-- The candidacy that `becomeCandidate` (internal/raft/election.go) returns, and the nodes it asks for.
use mathlib.Core.Path.{subst}
use log_replicator_raft.Common.{
  Bool, true, false, ◌≡◌, refl, sym, ap, Option, none, some, List, arith, if◌then◌else◌,
}
use log_replicator_raft.Common.Action.{Result, ok, err, Action, Done, pure, resume, modify, ◌>>◌}
use log_replicator_raft.Storage.Store.{save_term_vote, last_index_and_term}
use log_replicator_raft.Raft.Types.{Node, Peer}
use log_replicator_raft.Raft.Node.{
  is_leader, majority, lift, recover, or_value, reset_election_deadline, publish_state,
}
use log_replicator_raft.Raft.Election.{
  Candidacy, become_candidate, announce, candidacy_of, promoted,
}
use log_replicator_raft.Raft.Votes.Granted.{ok-injective}
use log_replicator_raft.Raft.Apply.{some-injective}
use log_replicator_raft.Raft.Yields.{Yields, pure-Yields, bind-Yields}

-- A candidacy, if there is one, asks for a majority of these peers and the node.
abbrev AsksMajority : List Peer → Option Candidacy → Type 0
AsksMajority peers o = (round : Candidacy) → o ≡ some round → round.majority ≡ majority peers

candidacy_of-Yields : (n : Node) → Yields (AsksMajority n.peers) (candidacy_of n)
unfolding candidacy_of
candidacy_of-Yields n = bind-Yields (lift last_index_and_term) λ p.
    bind-Yields publish_state
      λ _. pure-Yields _ (λ round e. sym (ap (λ (r : Candidacy). r.majority) (some-injective e)))

reset-peers : (n : Node) → (reset_election_deadline n).1.peers ≡ n.peers
unfolding reset_election_deadline
reset-peers n = ground arith

announced : (n : Node) (o : Option Candidacy) → (announce n).0 ≡ ok o → AsksMajority n.peers o
unfolding announce
announced n o e = on (reset_election_deadline n) (reset-peers n) e
  where
    saved : Node → Action Node (Option Candidacy)
    saved k = lift (save_term_vote k.current_term k.voted_for) >> candidacy_of k

    on :
        (x : Result Done × Node)
        → x.1.peers ≡ n.peers
        → (resume x.0 (λ _ k. saved k k) x.1).0 ≡ ok o
        → AsksMajority n.peers o
    on (ok d, k) same_peers h =
        subst (λ peers. AsksMajority peers o) same_peers
          ((bind-Yields (lift (save_term_vote k.current_term k.voted_for))
              (λ _. candidacy_of-Yields k)).at
            k o h)
    on (err x, k) same_peers h = absurd (cc)

-- The candidacy of a node carries the majority of its own cluster.
pub become_candidate-majority :
    (n : Node) (round : Candidacy)
    → (become_candidate n).0 ≡ ok (some round)
    → round.majority ≡ majority n.peers
unfolding become_candidate recover
become_candidate-majority n round = on (is_leader n.role)
  where
    recovered :
        (r : Result (Option Candidacy))
        → ((o : Option Candidacy) → r ≡ ok o → AsksMajority n.peers o)
        → or_value none r ≡ ok (some round)
        → round.majority ≡ majority n.peers
    recovered (ok o) h e = h o refl round (ok-injective e)
    recovered (err x) h e = absurd (cc)

    on :
        (b : Bool)
        → ((if b then pure none else recover none (do modify promoted; announce)) n).0
          ≡ ok (some round)
        → round.majority ≡ majority n.peers
    on true e = absurd (cc)
    on false e = recovered (announce (promoted n)).0 (announced (promoted n)) e
