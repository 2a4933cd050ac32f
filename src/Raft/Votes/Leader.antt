-- ===== src/Raft/Votes/Leader.antt =====
-- The leader's side and the client calls leave term and vote alone.
use log_replicator_raft.Common.{
  ℕ, ◌-◌, String, Bool, true, false, refl, Option, none, some, List, [], ◌∷◌, arith, not, ◌||◌, max,
  ◌==◌, ltb, succ64, if◌then◌else◌,
}
use log_replicator_raft.Common.Action.{Action}
use log_replicator_raft.Storage.Rows.{Snapshot}
use log_replicator_raft.Storage.Statement.{Store}
use log_replicator_raft.Storage.Store.{entries_from}
use log_replicator_raft.Storage.Methods.{entries_from-Refines}
use log_replicator_raft.Raft.Types.{Node, leader, Peer, put, AppendRequest, AppendReply}
use log_replicator_raft.Raft.Command.{Codec}
use log_replicator_raft.Raft.Node.{lift, lift_internal, is_leader, ignoring}
use log_replicator_raft.Raft.Election.{
  become_leader, start_progress, signal_replication, is_empty, is_candidate,
}
use log_replicator_raft.Raft.Replication.{
  commit_and_apply, record_peer_progress, note_peer, peer_needs_snapshot, rejected, failed,
  accepted, next_index_of, next_index_after_rejection, last_entry_index, append_batch_size,
}
use log_replicator_raft.Raft.Sender.{
  build_from, build_append_request, append_answered, snapshot_answered,
}
use log_replicator_raft.Raft.Client.{append_client_entry, not_leader_error}
use log_replicator_raft.Raft.Votes.Frame.{
  Same, Same-refl, Same-trans, IsFrame, bind-IsFrame, this-IsFrame, pure-IsFrame, fail-IsFrame,
  gets-IsFrame, modify-IsFrame, recover-IsFrame, if-IsFrame, internally-IsFrame, lift-IsFrame,
}
use log_replicator_raft.Raft.Votes.Stores.{
  last_index_and_term-IsFrame, snapshot_index_term-IsFrame, term_at-IsFrame, append_entries-IsFrame,
  publish_state-IsFrame,
}
use log_replicator_raft.Raft.Votes.Logs.{advance_commit-IsFrame, when-IsFrame}

lift_internal-IsFrame :
    {A : Type 0} (m : Action Store A) → IsFrame (lift m) → IsFrame (lift_internal m)
unfolding lift_internal
lift_internal-IsFrame m h = internally-IsFrame h

-- A write to fields other than term, vote and store.
abbrev HasSameVote : (Node → Node) → Type 0
HasSameVote f = (n : Node) → Same n (f n)

recorded-HasSameVote :
    (peer : String) (index : ℕ)
    → HasSameVote (λ n.
      if ltb (n.match_index peer) index
      then record n { match_index = put peer index n.match_index }
      else n)
recorded-HasSameVote peer index n = ground arith

next_index-HasSameVote : (f : Node → String → ℕ) → HasSameVote (λ n. record n { next_index = f n })
next_index-HasSameVote f n = record {
  term = refl;
  vote = refl;
  stored_term = refl;
  stored_vote = refl;
}

record_peer_progress-IsFrame :
    (peer : String) (index : ℕ) → IsFrame (record_peer_progress peer index)
unfolding record_peer_progress ignoring
record_peer_progress-IsFrame peer index =
    bind-IsFrame (modify-IsFrame _ (recorded-HasSameVote peer index)) (λ _.
      bind-IsFrame
        (modify-IsFrame _
          (next_index-HasSameVote (λ n. put peer (succ64 (n.match_index peer)) n.next_index)))
        (λ _. recover-IsFrame tt (bind-IsFrame last_index_and_term-IsFrame (λ _. pure-IsFrame tt))))

pub note_peer-IsFrame : (b : Bool) (peer : String) → IsFrame (note_peer b peer)
note_peer-IsFrame b peer =
    modify-IsFrame _
      (λ n. record { term = refl; vote = refl; stored_term = refl; stored_vote = refl })

pub signal_replication-IsFrame : IsFrame signal_replication
unfolding signal_replication
signal_replication-IsFrame =
    modify-IsFrame _
      (λ n. record { term = refl; vote = refl; stored_term = refl; stored_vote = refl })

start_progress-Same :
    (first : ℕ) (peers : List Peer) (n : Node) → Same n (start_progress first peers n)
unfolding start_progress
start_progress-Same first [] n = Same-refl n
start_progress-Same first (p ∷ peers) n =
    Same-trans (record { term = refl; vote = refl; stored_term = refl; stored_vote = refl })
      (start_progress-Same first peers (record n {
        next_index = put p.id first n.next_index;
        match_index = put p.id 0 n.match_index;
      }))

pub peer_needs_snapshot-IsFrame : (peer : String) → IsFrame (peer_needs_snapshot peer)
unfolding peer_needs_snapshot
peer_needs_snapshot-IsFrame peer = bind-IsFrame snapshot_index_term-IsFrame (λ p. gets-IsFrame _)

entries_from-IsFrame : (start limit : ℕ) → IsFrame (lift (entries_from start limit))
entries_from-IsFrame start limit =
    lift-IsFrame (entries_from-Refines start limit) (λ t. (refl, refl))

build_from-IsFrame :
    (peer : String) (first : ℕ) (known : Option ℕ) → IsFrame (build_from peer first known)
unfolding build_from
build_from-IsFrame peer first none =
    bind-IsFrame
      (modify-IsFrame _ (next_index-HasSameVote (λ n. put peer (max (first - 1) 1) n.next_index)))
      (λ _. pure-IsFrame none)
build_from-IsFrame peer first (some prev_term) =
    bind-IsFrame (entries_from-IsFrame first append_batch_size) (λ _. gets-IsFrame _)

pub build_append_request-IsFrame : (peer : String) → IsFrame (build_append_request peer)
unfolding build_append_request
build_append_request-IsFrame peer = this-IsFrame (λ n.
    bind-IsFrame (term_at-IsFrame (next_index_of peer n - 1))
      (build_from-IsFrame peer (next_index_of peer n)))

module _ (codec : Codec) where
  commit_and_apply-IsFrame : IsFrame (commit_and_apply codec)
  unfolding commit_and_apply
  commit_and_apply-IsFrame =
      bind-IsFrame (advance_commit-IsFrame codec) (λ _. publish_state-IsFrame)

  pub append_answered-IsFrame :
      (peer : String) (term : ℕ) (req : AppendRequest) (reply : AppendReply)
      → IsFrame (append_answered codec peer term req reply)
  unfolding append_answered
  append_answered-IsFrame peer term req reply = bind-IsFrame (note_peer-IsFrame false peer) (λ _.
      this-IsFrame (λ n.
        if-IsFrame (not (is_leader n.role) || not (n.current_term == term)) (pure-IsFrame failed) (
          if-IsFrame (not reply.success)
            (bind-IsFrame
              (modify-IsFrame _ (
                next_index-HasSameVote (λ n.
                  put peer (next_index_after_rejection (next_index_of peer n) reply.match_index)
                    n.next_index)))
              (λ _. pure-IsFrame rejected))
            (bind-IsFrame
              (record_peer_progress-IsFrame peer
                (max reply.match_index (last_entry_index req.prev_log_index req.entries)))
              (λ _.
                bind-IsFrame (advance_commit-IsFrame codec)
                  (λ _. bind-IsFrame publish_state-IsFrame (λ _. pure-IsFrame accepted)))))))

  pub snapshot_answered-IsFrame :
      (peer : String) (term : ℕ) (s : Snapshot) → IsFrame (snapshot_answered codec peer term s)
  unfolding snapshot_answered
  snapshot_answered-IsFrame peer term s = bind-IsFrame (note_peer-IsFrame false peer) (λ _.
      this-IsFrame (λ n.
        if-IsFrame (not (is_leader n.role) || not (n.current_term == term)) (pure-IsFrame false) (
          bind-IsFrame (record_peer_progress-IsFrame peer s.last_included_index) (λ _.
            bind-IsFrame (advance_commit-IsFrame codec)
              (λ _. bind-IsFrame publish_state-IsFrame (λ _. pure-IsFrame true))))))

  pub append_client_entry-IsFrame : (payload : String) → IsFrame (append_client_entry codec payload)
  unfolding append_client_entry
  append_client_entry-IsFrame payload = this-IsFrame (λ n.
      if-IsFrame (not (is_leader n.role)) (fail-IsFrame (not_leader_error n.leader_id)) (
        bind-IsFrame (lift_internal-IsFrame _ last_index_and_term-IsFrame) (λ p.
          bind-IsFrame (lift_internal-IsFrame _ (append_entries-IsFrame _)) (λ _.
            bind-IsFrame (when-IsFrame (is_empty n.peers) (advance_commit-IsFrame codec))
              (λ _. bind-IsFrame publish_state-IsFrame (λ _. gets-IsFrame _))))))

  led-HasSameVote :
      (index : ℕ)
      → HasSameVote (λ n.
        start_progress (succ64 index) n.peers (record n { role = leader; leader_id = n.id }))
  led-HasSameVote index n =
      Same-trans (record { term = refl; vote = refl; stored_term = refl; stored_vote = refl })
        (start_progress-Same (succ64 index) n.peers (record n { role = leader; leader_id = n.id }))

  pub become_leader-IsFrame : (term : ℕ) → IsFrame (become_leader (commit_and_apply codec) term)
  unfolding become_leader
  become_leader-IsFrame term = this-IsFrame (λ n.
      if-IsFrame (not (is_candidate n.role) || not (n.current_term == term)) (pure-IsFrame tt) (
        recover-IsFrame tt (
          bind-IsFrame last_index_and_term-IsFrame (λ p.
            bind-IsFrame (modify-IsFrame _ (led-HasSameVote p.0)) (λ _.
              bind-IsFrame publish_state-IsFrame (λ _.
                if-IsFrame (is_empty n.peers) commit_and_apply-IsFrame
                  signal_replication-IsFrame))))))
