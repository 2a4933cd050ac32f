-- ===== src/Raft/Replication.antt =====
-- The leader's side of replication, commitment and compaction (internal/raft/replication.go).
use log_replicator_raft.Common.{
  ℕ, zero, suc, ◌+◌, ◌-◌, String, Bool, true, false, none, some, List, [], ◌∷◌, ◌&&◌, ◌||◌, min,
  max, ltb, leb, ◌==◌, succ64, if◌then◌else◌,
}
use log_replicator_raft.Common.Action.{ok, Action, Done, pure, gets, modify, ◌>>=◌, ◌>>◌}
use log_replicator_raft.Storage.Rows.{Entry}
use log_replicator_raft.Storage.Store.{
  last_index_and_term, snapshot_index_term, term_at, entry_at, skip_to, create_snapshot,
}
use log_replicator_raft.Raft.Types.{Node, Peer, put}
use log_replicator_raft.Raft.Command.{Codec, decode_command, apply_to}
use log_replicator_raft.Raft.Node.{lift, recover, ignoring, when, this, publish_state, majority}

abbrev pub append_batch_size : ℕ
append_batch_size = 128

abbrev pub max_append_rounds : ℕ
max_append_rounds = 32

pub data AppendOutcome : Type 0 where
  accepted rejected failed : AppendOutcome

unfoldable pub next_index_of : String → Node → ℕ
next_index_of peer n = max (n.next_index peer) 1

unfoldable pub next_index_after_rejection : ℕ → ℕ → ℕ
next_index_after_rejection current follower_last =
    if leb current follower_last
    then succ64 follower_last
    else if leb current 1
    then 1
    else max (min (current - 1) (succ64 follower_last)) 1

-- `lastEntryIndex`
unfoldable pub last_entry_index : ℕ → List Entry → ℕ
last_entry_index prev [] = prev
last_entry_index prev (e ∷ entries) = last_entry_index e.index entries

unfoldable pub replica_count : (String → ℕ) → ℕ → List Peer → ℕ
replica_count match_index index [] = 1
replica_count match_index index (p ∷ peers) =
    let rest = replica_count match_index index peers in
    if leb index (match_index p.id) then rest + 1 else rest

unfoldable pub peer_needs_snapshot : String → Action Node Bool
unfolding lift next_index_of
peer_needs_snapshot peer = do
  (snapshot_index, _) ← lift snapshot_index_term
  gets (λ n. leb (next_index_of peer n) snapshot_index)

-- `recordPeerProgressLocked`; its last step only sets a gauge.
unfoldable pub record_peer_progress : String → ℕ → Action Node Done
unfolding ignoring lift
record_peer_progress peer index = do
  modify (λ n.
      if ltb (n.match_index peer) index
      then record n { match_index = put peer index n.match_index }
      else n)
  modify (λ n. record n { next_index = put peer (succ64 (n.match_index peer)) n.next_index })
  ignoring do lift last_index_and_term; pure tt

-- The effect of `notePeerUnreachable` and `notePeerReachableLocked` beside their log lines.
abbrev pub note_peer : Bool → String → Action Node Done
note_peer lost peer = modify (λ n. record n { unreachable = put peer lost n.unreachable })

-- `skipCompactedLocked`: `false` when no snapshot covers the index.
unfoldable pub skip_compacted : ℕ → Action Node Bool
unfolding lift recover
skip_compacted index = recover false do
  (snapshot_index, _) ← lift snapshot_index_term
  if ltb snapshot_index index then pure false else do
    lift (skip_to snapshot_index)
    modify (λ n. record n { last_applied = snapshot_index })
    pure true

module _ (codec : Codec) where
  -- The command of a committed entry, applied at its index.
  unfoldable pub apply_entry : Entry → ℕ → Action Node Bool
  unfolding lift
  apply_entry entry index = do
    cmd ← λ n. (decode_command codec entry.command, n)
    lift (apply_to cmd index)
    modify (λ n. record n { last_applied = index })
    pure true

  -- One round of the loop in `applyCommittedLocked`; `false` is its early return.
  unfoldable pub apply_next : Action Node Bool
  unfolding lift recover skip_compacted apply_entry
  apply_next = do
    n ← this
    recover false do
      found ← lift (entry_at (succ64 n.last_applied))
      elim found [
        | none ↦ skip_compacted (succ64 n.last_applied)
        | some entry ↦ apply_entry entry (succ64 n.last_applied)
      ]

  -- The loop on fuel; `true` when it ended by its condition.
  unfoldable pub apply_loop : ℕ → Action Node Bool
  unfolding apply_next
  apply_loop zero n = (ok (leb n.commit_index n.last_applied), n)
  apply_loop (suc fuel) n =
      let next =
        (apply_next >>= λ more. let again = apply_loop fuel in if more then again else pure false)
          n in
      if ltb n.last_applied n.commit_index then next else (ok true, n)

  -- `compactIfNeededLocked`; the errors in it end it.
  unfoldable pub compact_if_needed : Action Node Done
  unfolding ignoring lift
  compact_if_needed = do
    n ← this
    if (n.snapshot_threshold == 0) || (n.last_applied == 0)
        then pure tt
        else ignoring do
          (snapshot_index, _) ← lift snapshot_index_term
          if leb n.last_applied snapshot_index
                || ltb (n.last_applied - snapshot_index) n.snapshot_threshold
              then pure tt
              else do
                known ← lift (term_at n.last_applied)
                elim known [
                  | none ↦ pure tt
                  | some term ↦ do lift (create_snapshot codec.states n.last_applied term); pure tt
                ]

  -- `applyCommittedLocked`: every round applies at least one index.
  unfoldable pub apply_committed : Action Node Done
  unfolding apply_loop compact_if_needed
  apply_committed = do
    n ← this
    done ← apply_loop (n.commit_index - n.last_applied)
    when done compact_if_needed

  -- The loop of `advanceCommitLocked`, by the number of indexes that are left.
  unfoldable pub scan_commit : ℕ → ℕ → ℕ → Action Node ℕ
  unfolding lift replica_count
  scan_commit zero index committed = pure committed
  scan_commit (suc rounds) index committed = do
    known ← lift (term_at index)
    n ← this
    scan_commit rounds (index + 1) (elim known [
      | none ↦ committed
      | some term ↦
          if (term == n.current_term)
            && leb (majority n.peers) (replica_count n.match_index index n.peers)
          then index
          else committed
    ])

  -- `advanceCommitLocked`
  unfoldable pub advance_commit : Action Node Done
  unfolding ignoring lift scan_commit
  advance_commit = ignoring do
    n ← this
    (last, _) ← lift last_index_and_term
    committed ← scan_commit (last - n.commit_index) (n.commit_index + 1) n.commit_index
    if committed == n.commit_index
        then pure tt
        else do modify (λ n. record n { commit_index = committed }); apply_committed

  -- `commitAndApply`
  unfoldable pub commit_and_apply : Action Node Done
  unfolding advance_commit
  commit_and_apply = do advance_commit; publish_state
