-- ===== src/Raft/Intact/Handlers.antt =====
-- Elections and the leader's side of replication (internal/raft/election.go and replication.go) keep the
-- tables intact.
use log_replicator_raft.Common.{
  ℕ, ◌-◌, ◌≡◌, refl, Bool, true, false, Option, none, some, String, List, [], ◌∷◌, arith, ltb, ◌==◌,
  ◌||◌, not, max, succ64, if◌then◌else◌,
}
use log_replicator_raft.Common.Action.{Result, ok, Done, pure, ◌>>◌}
use log_replicator_raft.Storage.Rows.{Snapshot}
use log_replicator_raft.Storage.Store.{save_term_vote}
use log_replicator_raft.Storage.Methods.{
  last_index_and_term-Refines, snapshot_index_term-Refines, term_at-Refines, entries_from-Refines,
}
use log_replicator_raft.Raft.Types.{
  Node, Peer, leader, put, VoteRequest, AppendRequest, AppendReply,
}
use log_replicator_raft.Raft.Node.{
  lift, lift_internal, recover, ignoring, is_leader, adopt_term, step_down, publish_state,
  observe_higher_term,
}
use log_replicator_raft.Raft.Command.{Codec}
use log_replicator_raft.Raft.Election.{
  request_vote, grant, voted_for_someone_else, up_to_date, become_candidate, announce, candidacy_of,
  promoted, become_leader, start_progress, signal_replication, is_empty, is_candidate,
}
use log_replicator_raft.Raft.Replication.{
  commit_and_apply, record_peer_progress, advance_commit, note_peer, peer_needs_snapshot, rejected,
  failed, accepted, next_index_of, next_index_after_rejection, last_entry_index, append_batch_size,
}
use log_replicator_raft.Raft.Sender.{
  build_from, build_append_request, append_answered, snapshot_answered,
}
use log_replicator_raft.Raft.Intact.Rules.{
  Intact, Keeps, pure-Keeps, gets-Keeps, modify-Keeps, recover-Keeps, internally-Keeps, if-Keeps,
  when-Keeps, bind-Keeps, this-Keeps, read-Keeps, save_term_vote-Keeps, publish_state-Keeps,
  reset_election_deadline-Keeps,
}
use log_replicator_raft.Raft.Intact.Commits.{advance_commit-Keeps}

adopt_term-Keeps : (term : ℕ) → Keeps (adopt_term term)
unfolding adopt_term ignoring
adopt_term-Keeps term = record { at = λ n i. on (ltb n.current_term term) n i }
  where
    saved : Keeps (recover tt (lift (save_term_vote term "")))
    saved = recover-Keeps tt (save_term_vote-Keeps term "")

    on :
        (b : Bool) (n : Node)
        → Intact n
        → Intact
            (if◌then◌else◌ {A = Result Done × Node} b
              (recover tt
                (lift (save_term_vote term ""))
                (record n { current_term = term; voted_for = "" }))
              (ok tt, n)).1
    on true n i = saved.at (record n { current_term = term; voted_for = "" }) i
    on false n i = i

pub step_down-Keeps : (term : ℕ) (leader_id : String) → Keeps (step_down term leader_id)
unfolding step_down
step_down-Keeps term leader_id = bind-Keeps (adopt_term-Keeps term) (λ _.
    bind-Keeps (modify-Keeps _ (λ n. refl))
      (λ _. bind-Keeps reset_election_deadline-Keeps (λ _. publish_state-Keeps)))

pub observe_higher_term-Keeps : (term : ℕ) → Keeps (observe_higher_term term)
unfolding observe_higher_term
observe_higher_term-Keeps term = this-Keeps (λ n.
    if-Keeps (ltb n.current_term term) (bind-Keeps (step_down-Keeps term "") (λ _. pure-Keeps true))
      (pure-Keeps false))

grant-Keeps : (req : VoteRequest) → Keeps (grant req)
unfolding grant lift_internal
grant-Keeps req =
    bind-Keeps (modify-Keeps (λ n. record n { voted_for = req.candidate_id }) (λ n. refl)) (λ _.
      this-Keeps (λ n.
        bind-Keeps (internally-Keeps (save_term_vote-Keeps n.current_term n.voted_for)) (λ _.
          bind-Keeps reset_election_deadline-Keeps (λ _.
            bind-Keeps publish_state-Keeps
              (λ _. gets-Keeps (λ n. record { term = n.current_term; vote_granted = true }))))))

pub request_vote-Keeps : (req : VoteRequest) → Keeps (request_vote req)
unfolding request_vote lift_internal
request_vote-Keeps req = this-Keeps (λ n. if-Keeps (ltb req.term n.current_term) (gets-Keeps _) (
    bind-Keeps (when-Keeps (ltb n.current_term req.term) (step_down-Keeps req.term "")) (λ _.
      bind-Keeps (internally-Keeps (read-Keeps last_index_and_term-Refines)) (λ p. this-Keeps (λ n.
        if-Keeps
          (voted_for_someone_else n.voted_for req.candidate_id || not (up_to_date req p.0 p.1))
          (gets-Keeps _) (grant-Keeps req))))))

candidacy_of-Keeps : (n : Node) → Keeps (candidacy_of n)
unfolding candidacy_of
candidacy_of-Keeps n =
    bind-Keeps (read-Keeps last_index_and_term-Refines)
      (λ p. bind-Keeps publish_state-Keeps (λ _. pure-Keeps _))

pub become_candidate-Keeps : Keeps become_candidate
unfolding become_candidate announce
become_candidate-Keeps = this-Keeps (λ n. if-Keeps (is_leader n.role) (pure-Keeps none) (
    recover-Keeps none (
      bind-Keeps (modify-Keeps promoted (λ n. refl)) (λ _.
        bind-Keeps reset_election_deadline-Keeps (λ _. this-Keeps (λ n.
          bind-Keeps (save_term_vote-Keeps n.current_term n.voted_for)
            (λ _. candidacy_of-Keeps n)))))))

pub signal_replication-Keeps : Keeps signal_replication
unfolding signal_replication
signal_replication-Keeps = modify-Keeps _ (λ n. refl)

store-start_progress :
    (first : ℕ) (peers : List Peer) (n : Node) → (start_progress first peers n).store ≡ n.store
unfolding start_progress
store-start_progress first [] n = refl
store-start_progress first (p ∷ peers) n =
    store-start_progress first peers (record n {
      next_index = put p.id first n.next_index;
      match_index = put p.id 0 n.match_index;
    })

pub note_peer-Keeps : (b : Bool) (peer : String) → Keeps (note_peer b peer)
note_peer-Keeps b peer = modify-Keeps _ (λ n. refl)

abbrev recorded : String → ℕ → Node → Node
recorded peer index n =
    if ltb (n.match_index peer) index
    then record n { match_index = put peer index n.match_index }
    else n

record_peer_progress-Keeps : (peer : String) (index : ℕ) → Keeps (record_peer_progress peer index)
unfolding record_peer_progress ignoring
record_peer_progress-Keeps peer index =
    bind-Keeps (modify-Keeps (recorded peer index) (λ n. ground arith)) (λ _.
      bind-Keeps
        (modify-Keeps
          (λ n. record n { next_index = put peer (succ64 (n.match_index peer)) n.next_index })
          (λ n. refl))
        (λ _.
          recover-Keeps tt
            (bind-Keeps (read-Keeps last_index_and_term-Refines) (λ _. pure-Keeps tt))))

pub peer_needs_snapshot-Keeps : (peer : String) → Keeps (peer_needs_snapshot peer)
unfolding peer_needs_snapshot
peer_needs_snapshot-Keeps peer =
    bind-Keeps (read-Keeps snapshot_index_term-Refines) (λ p. gets-Keeps _)

build_from-Keeps :
    (peer : String) (first : ℕ) (known : Option ℕ) → Keeps (build_from peer first known)
unfolding build_from
build_from-Keeps peer first none = bind-Keeps (modify-Keeps _ (λ n. refl)) (λ _. pure-Keeps none)
build_from-Keeps peer first (some prev_term) =
    bind-Keeps (read-Keeps (entries_from-Refines first append_batch_size)) (λ _. gets-Keeps _)

pub build_append_request-Keeps : (peer : String) → Keeps (build_append_request peer)
unfolding build_append_request
build_append_request-Keeps peer = this-Keeps (λ n.
    bind-Keeps (read-Keeps (term_at-Refines (next_index_of peer n - 1)))
      (build_from-Keeps peer (next_index_of peer n)))

module _ (codec : Codec) where
  commit_and_apply-Keeps : Keeps (commit_and_apply codec)
  unfolding commit_and_apply
  commit_and_apply-Keeps = bind-Keeps (advance_commit-Keeps codec) (λ _. publish_state-Keeps)

  pub become_leader-Keeps : (term : ℕ) → Keeps (become_leader (commit_and_apply codec) term)
  unfolding become_leader
  become_leader-Keeps term = this-Keeps (λ n.
      if-Keeps (not (is_candidate n.role) || not (n.current_term == term)) (pure-Keeps tt) (
        recover-Keeps tt (
          bind-Keeps (read-Keeps last_index_and_term-Refines) (λ p.
            bind-Keeps
              (modify-Keeps _ (λ n.
                store-start_progress (succ64 p.0) n.peers
                  (record n { role = leader; leader_id = n.id })))
              (λ _. bind-Keeps publish_state-Keeps (λ _.
                if-Keeps (is_empty n.peers) commit_and_apply-Keeps signal_replication-Keeps))))))

  progressed-Keeps :
      {A : Type 0} (peer : String) (index : ℕ) (a : A)
      → Keeps (do record_peer_progress peer index; advance_commit codec; publish_state; pure a)
  progressed-Keeps peer index a = bind-Keeps (record_peer_progress-Keeps peer index) (λ _.
      bind-Keeps (advance_commit-Keeps codec)
        (λ _. bind-Keeps publish_state-Keeps (λ _. pure-Keeps a)))

  pub append_answered-Keeps :
      (peer : String) (term : ℕ) (req : AppendRequest) (reply : AppendReply)
      → Keeps (append_answered codec peer term req reply)
  unfolding append_answered
  append_answered-Keeps peer term req reply = bind-Keeps (note_peer-Keeps false peer) (λ _.
      this-Keeps (λ n.
        if-Keeps (not (is_leader n.role) || not (n.current_term == term)) (pure-Keeps failed) (
          if-Keeps (not reply.success)
            (bind-Keeps
              (modify-Keeps
                (λ n. record n {
                  next_index =
                      put peer (next_index_after_rejection (next_index_of peer n) reply.match_index)
                        n.next_index;
                })
                (λ n. refl))
              (λ _. pure-Keeps rejected))
            (progressed-Keeps peer
              (max reply.match_index (last_entry_index req.prev_log_index req.entries)) accepted))))

  pub snapshot_answered-Keeps :
      (peer : String) (term : ℕ) (s : Snapshot) → Keeps (snapshot_answered codec peer term s)
  unfolding snapshot_answered
  snapshot_answered-Keeps peer term s = bind-Keeps (note_peer-Keeps false peer) (λ _.
      this-Keeps (λ n.
        if-Keeps (not (is_leader n.role) || not (n.current_term == term)) (pure-Keeps false)
          (progressed-Keeps peer s.last_included_index true)))
