-- ===== src/Raft/Sender.antt =====
-- One peer brought up to date (`replicatePeer`, `sendEntries` and `sendSnapshot` of
-- internal/raft/replication.go). The mutex is released during a call to the peer: `Network` says
-- what is answered and what other handlers did to the node meanwhile.
use log_replicator_raft.Common.{
  ℕ, zero, suc, ◌-◌, String, List, Bool, true, false, Option, none, some, not, ◌||◌, max, ◌==◌,
  if◌then◌else◌,
}
use log_replicator_raft.Common.Action.{Result, ok, err, Action, pure, gets, modify, ◌>>=◌, ◌>>◌}
use log_replicator_raft.Storage.Rows.{Entry, Snapshot}
use log_replicator_raft.Storage.Store.{term_at, entries_from, load_snapshot}
use log_replicator_raft.Raft.Types.{Node, put, AppendRequest, AppendReply, SnapshotRequest}
use log_replicator_raft.Raft.Command.{Codec}
use log_replicator_raft.Raft.Node.{lift, this, is_leader, publish_state, observe_higher_term}
use log_replicator_raft.Raft.Replication.{
  AppendOutcome, accepted, rejected, failed, append_batch_size, next_index_of,
  next_index_after_rejection, last_entry_index, peer_needs_snapshot, record_peer_progress,
  note_peer, advance_commit,
}

-- Calls to one peer; `none` is a call that failed. `cancelled` is `ctx.Err() != nil`.
pub record Network : Type 0 where
  pub append : AppendRequest → Action Node (Option AppendReply)
  pub install : SnapshotRequest → Action Node (Option ℕ)
  pub cancelled : Action Node Bool

-- An error as a value, for a caller that tests it.
unfoldable pub attempt : {A : Type 0} → Action Node A → Action Node (Result A)
attempt m n = let (r, n') = m n in (ok r, n')

abbrev pub append_request : Node → ℕ → ℕ → List Entry → AppendRequest
append_request n prev prev_term entries = record {
  term = n.current_term;
  leader_id = n.id;
  prev_log_index = prev;
  prev_log_term = prev_term;
  entries = entries;
  leader_commit = n.commit_index;
}

-- `buildAppendRequestLocked` once the term before `next` is looked up. An unknown one lowers
-- `nextIndex` for the retry.
unfoldable pub build_from : String → ℕ → Option ℕ → Action Node (Option AppendRequest)
unfolding lift
build_from peer next none = do
  modify (λ n. record n { next_index = put peer (max (next - 1) 1) n.next_index })
  pure none
build_from peer next (some prev_term) = do
  entries ← lift (entries_from next append_batch_size)
  gets (λ n. some (append_request n (next - 1) prev_term entries))

unfoldable pub build_append_request : String → Action Node (Option AppendRequest)
unfolding lift next_index_of build_from
build_append_request peer = do
  n ← this
  known ← lift (term_at (next_index_of peer n - 1))
  build_from peer (next_index_of peer n) known

module _ (codec : Codec) where
  -- What `sendEntries` does with an answer that carries no newer term.
  unfoldable pub append_answered :
      String → ℕ → AppendRequest → AppendReply → Action Node AppendOutcome
  unfolding record_peer_progress next_index_of
  append_answered peer term req reply = do
    note_peer false peer
    n ← this
    if not (is_leader n.role) || not (n.current_term == term)
        then pure failed
        else if not reply.success
        then (do
          modify (λ n. record n {
            next_index =
                put peer (next_index_after_rejection (next_index_of peer n) reply.match_index)
                  n.next_index;
          })
          pure rejected)
        else do
          record_peer_progress peer
              (max reply.match_index (last_entry_index req.prev_log_index req.entries))
          advance_commit codec
          publish_state
          pure accepted

  -- What `sendSnapshot` does with such an answer.
  unfoldable pub snapshot_answered : String → ℕ → Snapshot → Action Node Bool
  unfolding record_peer_progress
  snapshot_answered peer term snapshot = do
    note_peer false peer
    n ← this
    if not (is_leader n.role) || not (n.current_term == term) then pure false else do
      record_peer_progress peer snapshot.last_included_index
      advance_commit codec
      publish_state
      pure true

  module _ (net : Network) (peer : String) where
    unfoldable pub append_called :
        ℕ → AppendRequest → Option AppendReply → Action Node AppendOutcome
    unfolding append_answered observe_higher_term
    append_called term req none = do note_peer true peer; pure failed
    append_called term req (some reply) = do
      newer ← observe_higher_term reply.term
      if newer then pure failed else append_answered peer term req reply

    unfoldable pub built : ℕ → Result (Option AppendRequest) → Action Node AppendOutcome
    unfolding append_called
    built term (err e) = pure failed
    built term (ok none) = pure rejected
    built term (ok (some req)) = do reply ← net.append req; append_called term req reply

    unfoldable pub send_entries : Action Node AppendOutcome
    unfolding built build_append_request attempt
    send_entries = do
      n ← this
      request ← attempt (build_append_request peer)
      built n.current_term request

    unfoldable pub snapshot_called : ℕ → Snapshot → Option ℕ → Action Node Bool
    unfolding snapshot_answered observe_higher_term
    snapshot_called term snapshot none = do note_peer true peer; pure false
    snapshot_called term snapshot (some reply_term) = do
      newer ← observe_higher_term reply_term
      if newer then pure false else snapshot_answered peer term snapshot

    unfoldable pub loaded : Node → Result Snapshot → Action Node Bool
    unfolding snapshot_called
    loaded n (err e) = pure false
    loaded n (ok s) = do
      reply ← net.install (record {
        term = n.current_term;
        leader_id = n.id;
        last_included_index = s.last_included_index;
        last_included_term = s.last_included_term;
        payload = s.payload;
      })
      snapshot_called n.current_term s reply

    unfoldable pub send_snapshot : Action Node Bool
    unfolding loaded lift attempt
    send_snapshot = do n ← this; snapshot ← attempt (lift load_snapshot); loaded n snapshot

    -- `replicatePeer`, by the rounds that are left.
    unfoldable pub replicate_rounds : ℕ → Action Node Bool
    unfolding send_entries send_snapshot peer_needs_snapshot
    replicate_rounds zero = pure false
    replicate_rounds (suc rounds) = do
      stop ← net.cancelled
      n ← this
      if stop || not (is_leader n.role) then pure false else do
        needs ← attempt (peer_needs_snapshot peer)
        elim needs [
          | err _ ↦ pure false
          | ok needed ↦ if needed then send_snapshot else do
            outcome ← send_entries
            elim outcome [
              | accepted ↦ pure true
              | failed ↦ pure false
              | rejected ↦ replicate_rounds rounds
            ]
        ]
