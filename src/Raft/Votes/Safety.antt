-- ===== src/Raft/Votes/Safety.antt =====
-- A node over its whole life, restarts and failing disks included: the steps that handlers and
-- critical sections take, and the votes that it gives.
use mathlib.Core.Path.{subst}
use log_replicator_raft.Common.{
  ℕ, ◌+◌, ◌<◌, ◌≤◌, ◌^◌, String, Bool, true, ◌≡◌, ◌≢◌, ◌⊎◌, sym, ◌∙◌, some, List, arith, inr,
}
use log_replicator_raft.Common.Action.{Result, ok, err, Action, ◌>>◌}
use log_replicator_raft.Storage.Rows.{Snapshot}
use log_replicator_raft.Storage.Statement.{Store}
use log_replicator_raft.Storage.Store.{current_term_vote, last_applied}
use log_replicator_raft.Storage.Refine.{Faulted}
use log_replicator_raft.Storage.Methods.{current_term_vote-Refines, last_applied-Refines}
use log_replicator_raft.Raft.Types.{
  Node, VoteRequest, VoteReply, AppendRequest, AppendReply, SnapshotRequest,
}
use log_replicator_raft.Raft.Command.{Codec}
use log_replicator_raft.Raft.Node.{publish_state, reset_election_deadline, observe_higher_term}
use log_replicator_raft.Raft.Election.{
  Candidacy, request_vote, become_candidate, become_leader, signal_replication,
}
use log_replicator_raft.Raft.Follower.{append_entries_rpc, install_snapshot_rpc}
use log_replicator_raft.Raft.Replication.{
  apply_committed, commit_and_apply, note_peer, peer_needs_snapshot,
}
use log_replicator_raft.Raft.Sender.{build_append_request, append_answered, snapshot_answered}
use log_replicator_raft.Raft.Client.{append_client_entry}
use log_replicator_raft.Raft.Lifecycle.{Options, new_node, started, restored_node}
use log_replicator_raft.Raft.Votes.Frame.{
  Advances, Advances-refl, Advances-trans, IsAhead, Moves, Same, Same-Moves, IsFrame, disk_term,
  disk_vote, bind-IsFrame,
}
use log_replicator_raft.Raft.Votes.Stores.{publish_state-IsFrame, reset_election_deadline-IsFrame}
use log_replicator_raft.Raft.Votes.Handlers.{
  request_vote-IsVoteSafe, become_candidate-Moves, observe_higher_term-IsVoteSafe,
}
use log_replicator_raft.Raft.Votes.Logs.{
  apply_committed-IsFrame, append_entries_rpc-IsVoteSafe, install_snapshot_rpc-IsVoteSafe,
}
use log_replicator_raft.Raft.Votes.Leader.{
  become_leader-IsFrame, peer_needs_snapshot-IsFrame, build_append_request-IsFrame,
  append_answered-IsFrame, snapshot_answered-IsFrame, note_peer-IsFrame,
  append_client_entry-IsFrame, signal_replication-IsFrame,
}
use log_replicator_raft.Raft.Votes.Granted.{
  HasVoted, ok-injective, request_vote-HasVoted, become_candidate-HasVoted,
}

module _ (codec : Codec) where
  -- What may happen to a node between two moments at which its mutex is free: a handler, a critical
  -- section of the leader's loops, the environment (time passes, the driver's coming answers change),
  -- or a new process over the same tables.
  pub data Step : Node → Node → Type 0 where
    vote : {n : Node} (req : VoteRequest) → Step n (request_vote req n).1
    stand : {n : Node} → n.current_term + 1 < 2 ^ 64 → Step n (become_candidate n).1
    win : {n : Node} (term : ℕ) → Step n (become_leader (commit_and_apply codec) term n).1
    observe : {n : Node} (term : ℕ) → Step n (observe_higher_term term n).1
    append :
        {n : Node} (req : AppendRequest)
        → Step n (append_entries_rpc (apply_committed codec) req n).1
    install : {n : Node} (req : SnapshotRequest) → Step n (install_snapshot_rpc codec req n).1
    check : {n : Node} (peer : String) → Step n (peer_needs_snapshot peer n).1
    build : {n : Node} (peer : String) → Step n (build_append_request peer n).1
    answered :
        {n : Node} (peer : String) (term : ℕ) (req : AppendRequest) (reply : AppendReply)
        → Step n (append_answered codec peer term req reply n).1
    shipped :
        {n : Node} (peer : String) (term : ℕ) (s : Snapshot)
        → Step n (snapshot_answered codec peer term s n).1
    lost : {n : Node} (peer : String) → Step n (note_peer true peer n).1
    propose : {n : Node} (payload : String) → Step n (append_client_entry codec payload n).1
    signal : {n : Node} → Step n (signal_replication n).1
    environment :
        {n : Node} (clock : ℕ) (draws : List ℕ) (faults : List Bool)
        → Step n
            (record n { clock = clock; draws = draws; store = record n.store { faults = faults } })
    restart :
        {n n' : Node} (opts : Options) (clock : ℕ) (draws : List ℕ) (store : Store)
        → store.tables ≡ n.store.tables
        → new_node opts clock draws store ≡ ok n'
        → Step n n'

  pub data Reach (n : Node) : Node → Type 0 where
    here : Reach n n
    next : {m k : Node} → Reach n m → Step m k → Reach n k

-- The disk only advances, and memory stays ahead of it.
pub record Safe (n n' : Node) : Type 0 where
  pub ahead : IsAhead n'
  pub disk : Advances (disk_term n) (disk_vote n) (disk_term n') (disk_vote n')

Moves-Safe : {n n' : Node} → Moves n n' → Safe n n'
Moves-Safe m = record { ahead = m.ahead; disk = m.disk }

Frame-Safe : {A : Type 0} {m : Action Node A} → IsFrame m → (n : Node) → IsAhead n → Safe n (m n).1
Frame-Safe f n a = Moves-Safe (Same-Moves a (f.at n))

opening-IsFrame : IsFrame (do reset_election_deadline; publish_state)
opening-IsFrame = bind-IsFrame reset_election_deadline-IsFrame (λ _. publish_state-IsFrame)

-- A node with the tables and the vote of the disk of another one.
opened-Safe :
    {n n₀ n₁ : Node} (s : Store)
    → s.tables ≡ n.store.tables
    → n₀.store ≡ s
    → (n₀.current_term ≡ disk_term n) × (n₀.voted_for ≡ disk_vote n)
    → Same n₀ n₁
    → Safe n n₁
opened-Safe s tables held ballot same = record {
  ahead = inr (ground arith, inr (ground arith));
  disk = inr (ground arith, inr (ground arith));
}

-- A new process takes both values from the disk.
started-Safe :
    (opts : Options) (clock : ℕ) (draws : List ℕ) (store : Store) {n n' : Node}
    → store.tables ≡ n.store.tables
    → new_node opts clock draws store ≡ ok n'
    → Safe n n'
unfolding new_node restored_node
started-Safe opts clock draws store {n} {n'} same made =
    let (ballot, s) = current_term_vote store in
    let (applied, s') = last_applied s in
    begun ballot applied s s' (current_term_vote-Refines.outcome store)
      (last_applied-Refines.outcome s) (ground arith)
  where
    Read : {A : Type 0} → Result A → A → Store → Store → Type 0
    Read r a s s' = (Faulted r s × (s'.tables ≡ s.tables)) ⊎ ((r ≡ ok a) × (s'.tables ≡ s.tables))

    begun :
        (ballot : Result (ℕ × String)) (applied : Result ℕ) (s s' : Store)
        → Read ballot (store.tables.metadata.current_term, store.tables.metadata.voted_for) store s
        → Read applied s.tables.metadata.last_applied s s'
        → started ballot applied opts clock draws s' ≡ ok n'
        → Safe n n'
    begun (ok ballot) (ok applied) s s' read read' e =
        let n₀ = restored_node opts clock draws s' ballot applied in
        let frame = opening-IsFrame.at n₀ in
        subst (λ k. Safe n k) (ok-injective e)
          (opened-Safe s' (ground arith) (ground arith) (ground arith) frame)
    begun (ok ballot) (err x) s s' read read' e = absurd (cc)
    begun (err x) applied s s' read read' e = absurd (cc)

module _ (codec : Codec) where
  pub Step-Safe : {n n' : Node} → Step codec n n' → IsAhead n → Safe n n'
  Step-Safe {n} (vote req) a = Moves-Safe ((request_vote-IsVoteSafe req).at n a)
  Step-Safe {n} (stand fits) a = Moves-Safe (become_candidate-Moves n a fits)
  Step-Safe {n} (win term) a = Frame-Safe (become_leader-IsFrame codec term) n a
  Step-Safe {n} (observe term) a = Moves-Safe ((observe_higher_term-IsVoteSafe term).at n a)
  Step-Safe {n} (append req) a =
      Moves-Safe ((append_entries_rpc-IsVoteSafe (apply_committed-IsFrame codec) req).at n a)
  Step-Safe {n} (install req) a = Moves-Safe ((install_snapshot_rpc-IsVoteSafe codec req).at n a)
  Step-Safe {n} (check peer) a = Frame-Safe (peer_needs_snapshot-IsFrame peer) n a
  Step-Safe {n} (build peer) a = Frame-Safe (build_append_request-IsFrame peer) n a
  Step-Safe {n} (answered peer term req reply) a =
      Frame-Safe (append_answered-IsFrame codec peer term req reply) n a
  Step-Safe {n} (shipped peer term s) a =
      Frame-Safe (snapshot_answered-IsFrame codec peer term s) n a
  Step-Safe {n} (lost peer) a = Frame-Safe (note_peer-IsFrame true peer) n a
  Step-Safe {n} (propose payload) a = Frame-Safe (append_client_entry-IsFrame codec payload) n a
  Step-Safe {n} signal a = Frame-Safe signal_replication-IsFrame n a
  Step-Safe {n} (environment clock draws faults) a = record {
    ahead = a;
    disk = Advances-refl (disk_term n) (disk_vote n);
  }
  Step-Safe {n} (restart opts clock draws store same made) a =
      started-Safe opts clock draws store same made

  Reach-Safe : {n m : Node} → Reach codec n m → IsAhead n → Safe n m
  Reach-Safe {n} here a = record { ahead = a; disk = Advances-refl (disk_term n) (disk_vote n) }
  Reach-Safe (next r st) a =
      let s = Reach-Safe r a in
      let s' = Step-Safe st s.ahead in
      record { ahead = s'.ahead; disk = Advances-trans s.disk s'.disk }

  HasVoted-IsAhead : {c : String} (n : Node) → HasVoted c n → IsAhead n
  HasVoted-IsAhead n h = ground arith

  -- In one term a node gives its vote to one candidate, whatever happens between two votes.
  pub same_vote :
      {n m : Node} (c c' : String)
      → HasVoted c n
      → Reach codec n m
      → HasVoted c' m
      → m.current_term ≡ n.current_term
      → c ≢ ""
      → c' ≡ c
  same_vote {n} {m} c c' h r h' e named = let s = Reach-Safe r (HasVoted-IsAhead n h) in kept s.disk
    where
      kept : Advances (disk_term n) (disk_vote n) (disk_term m) (disk_vote m) → c' ≡ c
      kept d = ground arith

  -- A node that granted its vote to a named candidate grants no other vote in the same term,
  -- whatever handlers, failing database calls and restarts come between the two requests,
  -- candidacies at the largest 64-bit term excepted.
  pub one_vote_per_term :
      (n m : Node) (req req' : VoteRequest) (r r' : VoteReply)
      → (request_vote req n).0 ≡ ok r
      → r.vote_granted ≡ true
      → Reach codec (request_vote req n).1 m
      → (request_vote req' m).0 ≡ ok r'
      → r'.vote_granted ≡ true
      → r'.term ≡ r.term
      → req.candidate_id ≢ ""
      → req'.candidate_id ≡ req.candidate_id
  one_vote_per_term n m req req' r r' e g path e' g' terms named =
      let (voted, at) = request_vote-HasVoted req n e g in
      let (voted', at') = request_vote-HasVoted req' m e' g' in
      same_vote req.candidate_id req'.candidate_id voted (next path (vote req')) voted'
        (sym at' ∙ (terms ∙ at)) named

  -- A named node that stood for election grants no vote to another candidate in that term, whatever
  -- handlers, failing database calls and restarts come between, candidacies at the largest 64-bit
  -- term excepted.
  pub candidate_votes_for_itself :
      (n m : Node) (round : Candidacy) (req : VoteRequest) (r : VoteReply)
      → (become_candidate n).0 ≡ ok (some round)
      → Reach codec (become_candidate n).1 m
      → (request_vote req m).0 ≡ ok r
      → r.vote_granted ≡ true
      → r.term ≡ round.term
      → n.id ≢ ""
      → req.candidate_id ≡ n.id
  candidate_votes_for_itself n m round req r e path e' g' terms named =
      let (voted, at) = become_candidate-HasVoted n e in
      let (voted', at') = request_vote-HasVoted req m e' g' in
      same_vote n.id req.candidate_id voted (next path (vote req)) voted' (sym at' ∙ (terms ∙ at))
        named

  -- The term on disk never falls, whatever handlers, failing database calls and restarts come,
  -- candidacies at the largest 64-bit term excepted, and the term in memory never falls behind it,
  -- when memory was not behind the disk at first.
  pub terms_never_fall :
      (n m : Node)
      → Reach codec n m
      → IsAhead n
      → (disk_term n ≤ disk_term m) × (disk_term m ≤ m.current_term)
  terms_never_fall n m path a = let s = Reach-Safe path a in bounds s.disk s.ahead
    where
      bounds :
          Advances (disk_term n) (disk_vote n) (disk_term m) (disk_vote m)
          → IsAhead m
          → (disk_term n ≤ disk_term m) × (disk_term m ≤ m.current_term)
      bounds d a = (ground arith, ground arith)
