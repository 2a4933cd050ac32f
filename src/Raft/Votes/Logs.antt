-- ===== src/Raft/Votes/Logs.antt =====
-- Replication, commitment and compaction leave term and vote alone, except that a newer term makes a
-- node step down.
use log_replicator_raft.Common.{
  ℕ, zero, suc, ◌+◌, ◌-◌, String, Bool, true, false, refl, Option, none, some, List, [], ◌∷◌, ◌||◌,
  max, min, ltb, leb, ◌==◌, succ64, if◌then◌else◌,
}
use log_replicator_raft.Common.Action.{ok, Action, Done, pure, modify, ◌>>◌}
use log_replicator_raft.Storage.Rows.{Entry}
use log_replicator_raft.Storage.Statement.{Store}
use log_replicator_raft.Storage.Store.{create_snapshot}
use log_replicator_raft.Raft.Types.{Node, AppendRequest, SnapshotRequest}
use log_replicator_raft.Raft.Command.{Codec, decode_command}
use log_replicator_raft.Raft.Node.{lift, lift_internal, ignoring, when}
use log_replicator_raft.Raft.Follower.{
  scan_entries, store_leader_entries, follow_leader_commit, accept_append, reject_append, follow,
  append_entries_rpc, install_snapshot_rpc, is_known, holds_term,
}
use log_replicator_raft.Raft.Replication.{
  skip_compacted, apply_entry, apply_next, apply_loop, compact_if_needed, apply_committed,
  scan_commit, advance_commit,
}
use log_replicator_raft.Raft.Votes.Frame.{
  IsFrame, IsVoteSafe, Same, Same-refl, IsFrame-IsVoteSafe, bind-IsFrame, bind-IsVoteSafe,
  pure-IsFrame, gets-IsFrame, modify-IsFrame, recover-IsFrame, if-IsFrame, this-IsFrame,
  this-IsVoteSafe, if-IsVoteSafe, when-IsVoteSafe, internally-IsFrame,
}
use log_replicator_raft.Raft.Votes.Stores.{
  snapshot_index_term-IsFrame, last_index_and_term-IsFrame, term_at-IsFrame, entry_at-IsFrame,
  append_entries-IsFrame, delete_from-IsFrame, skip_to-IsFrame, apply_to-IsFrame,
  create_snapshot-IsFrame, install_snapshot-IsFrame, publish_state-IsFrame,
  reset_election_deadline-IsFrame,
}
use log_replicator_raft.Raft.Votes.Handlers.{step_down-IsVoteSafe}

pub when-IsFrame : (b : Bool) {m : Action Node Done} → IsFrame m → IsFrame (when b m)
when-IsFrame true h = h
when-IsFrame false h = pure-IsFrame tt

ruleset log_rules = (
  bind-IsFrame, pure-IsFrame, gets-IsFrame, if-IsFrame, when-IsFrame, recover-IsFrame,
  internally-IsFrame, publish_state-IsFrame, snapshot_index_term-IsFrame,
  last_index_and_term-IsFrame, term_at-IsFrame, append_entries-IsFrame, delete_from-IsFrame,
  skip_to-IsFrame, apply_to-IsFrame, create_snapshot-IsFrame,
)

scan_entries-IsFrame :
    (snapshot_index : ℕ) (entries : List Entry) (matched : ℕ)
    → IsFrame (scan_entries snapshot_index entries matched)
unfolding scan_entries
scan_entries-IsFrame snapshot_index [] matched = pure-IsFrame (matched, [])
scan_entries-IsFrame snapshot_index (e ∷ entries) matched =
    if-IsFrame (leb e.index snapshot_index) (scan_entries-IsFrame snapshot_index entries matched) (
      bind-IsFrame (term_at-IsFrame e.index) (λ local.
        if-IsFrame (holds_term local e.term)
          (scan_entries-IsFrame snapshot_index entries (max matched e.index))
          (bind-IsFrame (when-IsFrame (is_known local) (delete_from-IsFrame e.index))
            (λ _. pure-IsFrame _))))

store_leader_entries-IsFrame :
    (entries : List Entry) (prev snapshot_index : ℕ)
    → IsFrame (store_leader_entries entries prev snapshot_index)
unfolding store_leader_entries
store_leader_entries-IsFrame entries prev snapshot_index =
    search (log_rules, scan_entries-IsFrame) depth 9

applied_to-IsFrame : (index : ℕ) → IsFrame (modify (λ n. record n { last_applied = index }))
applied_to-IsFrame index =
    modify-IsFrame _
      (λ n. record { term = refl; vote = refl; stored_term = refl; stored_vote = refl })

committed_to-IsFrame : (index : ℕ) → IsFrame (modify (λ n. record n { commit_index = index }))
committed_to-IsFrame index =
    modify-IsFrame _
      (λ n. record { term = refl; vote = refl; stored_term = refl; stored_vote = refl })

skip_compacted-IsFrame : (index : ℕ) → IsFrame (skip_compacted index)
unfolding skip_compacted
skip_compacted-IsFrame index = search (log_rules, applied_to-IsFrame) depth 9

-- The head of the loop of `apply_loop`.
guarded-IsFrame :
    {m : Action Node Bool}
    → IsFrame m
    → IsFrame
        (λ n. let next = m n in if ltb n.last_applied n.commit_index then next else (ok true, n))
guarded-IsFrame {m} h = record { at = λ n. by_test n (ltb n.last_applied n.commit_index) }
  where
    by_test : (n : Node) (b : Bool) → Same n (if b then m n else (ok true, n)).1
    by_test n true = h.at n
    by_test n false = Same-refl n

module _ (codec : Codec) where
  decoded-IsFrame : (raw : String) → IsFrame (λ n. (decode_command codec raw, n))
  decoded-IsFrame raw = record { at = λ n. Same-refl n }

  apply_entry-IsFrame : (e : Entry) (index : ℕ) → IsFrame (apply_entry codec e index)
  unfolding apply_entry
  apply_entry-IsFrame e index = search (log_rules, applied_to-IsFrame, decoded-IsFrame) depth 9

  found-IsFrame :
      (index : ℕ) (found : Option Entry)
      → IsFrame (elim found [ none ↦ skip_compacted index | some e ↦ apply_entry codec e index ])
  found-IsFrame index none = skip_compacted-IsFrame index
  found-IsFrame index (some e) = apply_entry-IsFrame e index

  apply_next-IsFrame : IsFrame (apply_next codec)
  unfolding apply_next
  apply_next-IsFrame = this-IsFrame (λ n. recover-IsFrame false (
      bind-IsFrame (entry_at-IsFrame (succ64 n.last_applied))
        (found-IsFrame (succ64 n.last_applied))))

  apply_loop-IsFrame : (fuel : ℕ) → IsFrame (apply_loop codec fuel)
  unfolding apply_loop
  apply_loop-IsFrame zero = record { at = λ n. Same-refl n }
  apply_loop-IsFrame (suc fuel) = guarded-IsFrame (
      bind-IsFrame apply_next-IsFrame
        (λ more. if-IsFrame more (apply_loop-IsFrame fuel) (pure-IsFrame false)))

  created_done-IsFrame :
      (index term : ℕ) → IsFrame (do lift (create_snapshot codec.states index term); pure tt)
  created_done-IsFrame index term =
      bind-IsFrame (create_snapshot-IsFrame codec.states index term) (λ _. pure-IsFrame tt)

  compact_if_needed-IsFrame : IsFrame (compact_if_needed codec)
  unfolding compact_if_needed ignoring
  compact_if_needed-IsFrame = this-IsFrame (λ n.
      if-IsFrame ((n.snapshot_threshold == 0) || (n.last_applied == 0)) (pure-IsFrame tt) (
        recover-IsFrame tt (
          bind-IsFrame snapshot_index_term-IsFrame (λ p.
            if-IsFrame _ (pure-IsFrame tt)
              (bind-IsFrame (term_at-IsFrame n.last_applied) (by_term n.last_applied))))))
    where
      by_term :
          (index : ℕ) (known : Option ℕ)
          → IsFrame (elim known [
            | none ↦ pure tt
            | some term ↦ do lift (create_snapshot codec.states index term); pure tt
          ])
      by_term index none = pure-IsFrame tt
      by_term index (some term) = created_done-IsFrame index term

  pub apply_committed-IsFrame : IsFrame (apply_committed codec)
  unfolding apply_committed
  apply_committed-IsFrame = this-IsFrame (λ n.
      bind-IsFrame (apply_loop-IsFrame (n.commit_index - n.last_applied))
        (λ done. when-IsFrame done compact_if_needed-IsFrame))

  scan_commit-IsFrame :
      (rounds index committed : ℕ) → IsFrame (scan_commit codec rounds index committed)
  unfolding scan_commit
  scan_commit-IsFrame zero index committed = pure-IsFrame committed
  scan_commit-IsFrame (suc rounds) index committed =
      bind-IsFrame (term_at-IsFrame index)
        (λ known. this-IsFrame (λ n. scan_commit-IsFrame rounds (index + 1) _))

  pub advance_commit-IsFrame : IsFrame (advance_commit codec)
  unfolding advance_commit ignoring
  advance_commit-IsFrame = recover-IsFrame tt (
      this-IsFrame (λ n. bind-IsFrame last_index_and_term-IsFrame (λ p.
        bind-IsFrame
          (scan_commit-IsFrame (p.0 - n.commit_index) (n.commit_index + 1) n.commit_index)
          (λ committed.
            if-IsFrame (committed == n.commit_index) (pure-IsFrame tt)
              (bind-IsFrame (committed_to-IsFrame committed) (λ _. apply_committed-IsFrame))))))

-- The followers' handlers, whatever frame `apply` is.
follow-IsVoteSafe : (term : ℕ) (leader_id : String) → IsVoteSafe (follow term leader_id)
follow-IsVoteSafe term leader_id = this-IsVoteSafe (λ n.
    bind-IsVoteSafe (when-IsVoteSafe _ (step_down-IsVoteSafe term leader_id)) (λ _.
      IsFrame-IsVoteSafe
        (bind-IsFrame (led_by-IsFrame leader_id) (λ _. reset_election_deadline-IsFrame))))
  where
    led_by-IsFrame :
        (leader_id : String) → IsFrame (modify (λ n. record n { leader_id = leader_id }))
    led_by-IsFrame leader_id =
        modify-IsFrame _
          (λ n. record { term = refl; vote = refl; stored_term = refl; stored_vote = refl })

lift_internal-IsFrame :
    {A : Type 0} (m : Action Store A) → IsFrame (lift m) → IsFrame (lift_internal m)
unfolding lift_internal
lift_internal-IsFrame m h = internally-IsFrame h

reject_append-IsFrame : IsFrame reject_append
unfolding reject_append
reject_append-IsFrame =
    bind-IsFrame (lift_internal-IsFrame _ last_index_and_term-IsFrame) (λ p. gets-IsFrame _)

module _ {apply : Action Node Done} (apply_safe : IsFrame apply) where
  follow_leader_commit-IsFrame :
      (leader_commit : ℕ) → IsFrame (follow_leader_commit apply leader_commit)
  unfolding follow_leader_commit
  follow_leader_commit-IsFrame leader_commit = this-IsFrame (λ n.
      if-IsFrame (leb leader_commit n.commit_index) (pure-IsFrame tt) (
        bind-IsFrame last_index_and_term-IsFrame
          (λ p. bind-IsFrame (committed_to-IsFrame (min leader_commit p.0)) (λ _. apply_safe))))

  accept_append-IsFrame :
      (req : AppendRequest) (snapshot_index : ℕ) → IsFrame (accept_append apply req snapshot_index)
  unfolding accept_append
  accept_append-IsFrame req snapshot_index =
      bind-IsFrame (internally-IsFrame (store_leader_entries-IsFrame req.entries _ snapshot_index))
        (λ matched.
          bind-IsFrame (internally-IsFrame (follow_leader_commit-IsFrame req.leader_commit))
            (λ _. bind-IsFrame publish_state-IsFrame (λ _. gets-IsFrame _)))

  pub append_entries_rpc-IsVoteSafe :
      (req : AppendRequest) → IsVoteSafe (append_entries_rpc apply req)
  unfolding append_entries_rpc
  append_entries_rpc-IsVoteSafe req = this-IsVoteSafe (λ n.
      if-IsVoteSafe (ltb req.term n.current_term) (IsFrame-IsVoteSafe reject_append-IsFrame) (
        bind-IsVoteSafe (follow-IsVoteSafe req.term req.leader_id) (λ _. IsFrame-IsVoteSafe (
          bind-IsFrame (lift_internal-IsFrame _ snapshot_index_term-IsFrame) (λ p.
            if-IsFrame (ltb req.prev_log_index p.0) (gets-IsFrame _) (
              bind-IsFrame (lift_internal-IsFrame _ (term_at-IsFrame req.prev_log_index))
                (λ prev. if-IsFrame _ reject_append-IsFrame (accept_append-IsFrame req p.0))))))))

module _ (codec : Codec) where
  restored-IsFrame :
      (index : ℕ)
      → IsFrame (
          modify (λ n. record n {
            commit_index = max n.commit_index index;
            last_applied = max n.last_applied index;
          }))
  restored-IsFrame index =
      modify-IsFrame _
        (λ n. record { term = refl; vote = refl; stored_term = refl; stored_vote = refl })

  pub install_snapshot_rpc-IsVoteSafe :
      (req : SnapshotRequest) → IsVoteSafe (install_snapshot_rpc codec req)
  unfolding install_snapshot_rpc
  install_snapshot_rpc-IsVoteSafe req = this-IsVoteSafe (λ n.
      if-IsVoteSafe (ltb req.term n.current_term) (IsFrame-IsVoteSafe (pure-IsFrame n.current_term))
        (bind-IsVoteSafe (follow-IsVoteSafe req.term req.leader_id) (λ _. IsFrame-IsVoteSafe (
          bind-IsFrame (lift_internal-IsFrame _ snapshot_index_term-IsFrame) (λ p.
            if-IsFrame (leb req.last_included_index p.0) (gets-IsFrame _) (
              bind-IsFrame (lift_internal-IsFrame _ (install_snapshot-IsFrame codec.states _)) (λ _.
                bind-IsFrame (restored-IsFrame req.last_included_index) (λ _.
                  bind-IsFrame publish_state-IsFrame
                    (λ _. gets-IsFrame (λ n. n.current_term))))))))))
