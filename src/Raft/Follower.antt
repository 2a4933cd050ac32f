-- ===== src/Raft/Follower.antt =====
-- The incoming replication calls (internal/raft/follower.go). `apply` stands for
-- `applyCommittedLocked` of replication.go.
use log_replicator_raft.Common.{
  ℕ, String, Bool, true, false, Option, none, some, List, [], ◌∷◌, ◌++◌, not, ◌||◌, min, max, ltb,
  leb, ◌==◌, if◌then◌else◌,
}
use log_replicator_raft.Common.Action.{Action, Done, pure, gets, modify, ◌>>=◌, ◌>>◌}
use log_replicator_raft.Storage.Rows.{Entry, Snapshot}
use log_replicator_raft.Storage.Store.{
  last_index_and_term, snapshot_index_term, term_at, delete_from, append_entries, install_snapshot,
}
use log_replicator_raft.Raft.Types.{Node, AppendRequest, AppendReply, SnapshotRequest}
use log_replicator_raft.Raft.Command.{Codec}
use log_replicator_raft.Raft.Node.{
  lift, internally, lift_internal, when, this, is_follower, publish_state, reset_election_deadline,
  step_down,
}

-- `rejectAppendLocked`: the answer tells where the local log ends.
unfoldable pub reject_append : Action Node AppendReply
unfolding lift_internal
reject_append = do
  (last, _) ← lift_internal last_index_and_term
  gets (λ n. record { term = n.current_term; success = false; match_index = last })

-- The answer to an entry that is looked up: whether it is missing or in conflict.
abbrev pub holds_term : Option ℕ → ℕ → Bool
holds_term none term = false
holds_term (some t) term = t == term

abbrev pub is_known : Option ℕ → Bool
is_known none = false
is_known (some _) = true

-- The loop of `storeLeaderEntriesLocked`, from the first missing entry on.
unfoldable pub rest_missing : ℕ → List Entry → ℕ → List Entry → ℕ × List Entry
rest_missing snapshot_index [] matched missing = (matched, missing)
rest_missing snapshot_index (e ∷ entries) matched missing =
    if leb e.index snapshot_index
    then rest_missing snapshot_index entries matched missing
    else rest_missing snapshot_index entries (max matched e.index) (missing ++ e ∷ [])

-- The loop while nothing is missing yet. The first missing entry drops a conflicting tail.
unfoldable pub scan_entries : ℕ → List Entry → ℕ → Action Node (ℕ × List Entry)
unfolding lift rest_missing
scan_entries snapshot_index [] matched = pure (matched, [])
scan_entries snapshot_index (e ∷ entries) matched =
    let skip = scan_entries snapshot_index entries matched in
    let keep = scan_entries snapshot_index entries (max matched e.index) in
    if leb e.index snapshot_index then skip else do
      local ← lift (term_at e.index)
      if holds_term local e.term then keep else do
        when (is_known local) (lift (delete_from e.index))
        pure (rest_missing snapshot_index entries (max matched e.index) (e ∷ []))

-- `storeLeaderEntriesLocked`
unfoldable pub store_leader_entries : List Entry → ℕ → ℕ → Action Node ℕ
unfolding lift scan_entries
store_leader_entries entries prev_log_index snapshot_index = do
  (matched, missing) ← scan_entries snapshot_index entries prev_log_index
  lift (append_entries missing)
  pure matched

-- A new term, or a role other than follower, is given up for the sender.
abbrev pub follow : ℕ → String → Action Node Done
follow term leader_id = do
  n ← this
  when (ltb n.current_term term || not (is_follower n.role)) (step_down term leader_id)
  modify (λ n. record n { leader_id = leader_id })
  reset_election_deadline

module _ (apply : Action Node Done) where
  -- `followLeaderCommitLocked`
  unfoldable pub follow_leader_commit : ℕ → Action Node Done
  unfolding lift
  follow_leader_commit leader_commit = do
    n ← this
    if leb leader_commit n.commit_index then pure tt else do
      (last, _) ← lift last_index_and_term
      modify (λ n. record n { commit_index = min leader_commit last })
      apply

  -- The part of `AppendEntries` behind the consistency check.
  unfoldable pub accept_append : AppendRequest → ℕ → Action Node AppendReply
  unfolding store_leader_entries follow_leader_commit
  accept_append req snapshot_index = do
    matched ← internally (store_leader_entries req.entries req.prev_log_index snapshot_index)
    internally (follow_leader_commit req.leader_commit)
    publish_state
    gets (λ n. record { term = n.current_term; success = true; match_index = matched })

  -- `AppendEntries`
  unfoldable pub append_entries_rpc : AppendRequest → Action Node AppendReply
  unfolding lift_internal reject_append accept_append
  append_entries_rpc req = do
    n ← this
    if ltb req.term n.current_term then reject_append else do
      follow req.term req.leader_id
      (snapshot_index, _) ← lift_internal snapshot_index_term
      if ltb req.prev_log_index snapshot_index
          then gets
              (λ n. record { term = n.current_term; success = false; match_index = snapshot_index })
          else do
            prev ← lift_internal (term_at req.prev_log_index)
            if not (holds_term prev req.prev_log_term)
                then reject_append
                else accept_append req snapshot_index

module _ (codec : Codec) where
  -- The answer of `InstallSnapshot` is the node's term.
  unfoldable pub install_snapshot_rpc : SnapshotRequest → Action Node ℕ
  unfolding lift_internal
  install_snapshot_rpc req = do
    n ← this
    if ltb req.term n.current_term then pure n.current_term else do
      follow req.term req.leader_id
      (snapshot_index, _) ← lift_internal snapshot_index_term
      if leb req.last_included_index snapshot_index then gets (λ n. n.current_term) else do
        let s : Snapshot = record {
          last_included_index = req.last_included_index;
          last_included_term = req.last_included_term;
          payload = req.payload;
        }
        lift_internal (install_snapshot codec.states s)
        modify (λ n. record n {
          commit_index = max n.commit_index req.last_included_index;
          last_applied = max n.last_applied req.last_included_index;
        })
        publish_state
        gets (λ n. n.current_term)
