-- ===== src/Raft/Refusal.antt =====
-- A follower asked to store entries behind a position that it holds with another term
-- (`AppendEntries` of internal/raft/follower.go).

use log_replicator_raft.Common.{
  ℕ, ◌≤◌, String, false, ◌≡◌, ◌∙◌, ap, Option, arith, not, ltb, if◌then◌else◌,
}
use log_replicator_raft.Common.Action.{ok, Action, Done, gets, ◌>>=◌, ◌>>◌}
use log_replicator_raft.Storage.Statement.{Store}
use log_replicator_raft.Storage.Spec.{known_term, last_position}
use log_replicator_raft.Storage.Methods.{
  last_index_and_term-Refines, snapshot_index_term-Refines, term_at-Refines,
}
use log_replicator_raft.Storage.Store.{last_index_and_term, snapshot_index_term, term_at}
use log_replicator_raft.Raft.Types.{Node, follower, AppendRequest, AppendReply}
use log_replicator_raft.Raft.Node.{lift_internal, reset_election_deadline}
use log_replicator_raft.Raft.Follower.{
  reject_append, follow, append_entries_rpc, accept_append, holds_term,
}
use log_replicator_raft.Raft.Quiet.{
  else_run, then_branch_run, IsQuiet, lift_internal_quietly, then_run,
}

-- What a rejection leaves of the follower.
abbrev pub Untouched : Node → Node → Type 0
Untouched g g' = (g'.store ≡ g.store) × (g'.role ≡ g.role) × (g'.current_term ≡ g.current_term)

-- The follower, once it has heard from the leader of its term.
abbrev pub heard : String → Node → Node
heard leader_id g = (reset_election_deadline (record g { leader_id = leader_id })).1

pub heard-Untouched : (leader_id : String) (g : Node) → Untouched g (heard leader_id g)
unfolding reset_election_deadline
heard-Untouched leader_id g = ground arith

follow-heard :
    (term : ℕ) (leader_id : String) (g : Node)
    → g.role ≡ follower
    → term ≡ g.current_term
    → follow term leader_id g ≡ (ok tt, heard leader_id g)
unfolding reset_election_deadline
follow-heard term leader_id g f t = ground arith

unfoldable pub refusal : ℕ → ℕ → AppendReply
refusal term last = record { term = term; success = false; match_index = last }

reject_append-refusal :
    (g : Node)
    → IsQuiet g
    → reject_append g ≡ (ok (refusal g.current_term (last_position g.store.tables).0), g)
unfolding reject_append refusal
reject_append-refusal g q =
    then_run (lift_internal last_index_and_term)
      (λ p. gets (λ n. record { term = n.current_term; success = false; match_index = p.0 })) g
      (lift_internal_quietly g last_index_and_term-Refines q)

module _ (apply : Action Node Done) (req : AppendRequest) where
  -- The parts of the consistency check.
  compare_prev : ℕ → Option ℕ → Action Node AppendReply
  compare_prev snapshot_index prev =
      if not (holds_term prev req.prev_log_term)
      then reject_append
      else accept_append apply req snapshot_index

  after_snapshot : ℕ × ℕ → Action Node AppendReply
  unfolding compare_prev
  after_snapshot p =
      if ltb req.prev_log_index p.0
      then gets (λ n. record { term = n.current_term; success = false; match_index = p.0 })
      else lift_internal (term_at req.prev_log_index) >>= compare_prev p.0

  mismatch-refusal :
      (h : Node)
      → IsQuiet h
      → h.store.tables.metadata.snapshot_index ≤ req.prev_log_index
      → holds_term (known_term req.prev_log_index h.store.tables) req.prev_log_term ≡ false
      → (lift_internal snapshot_index_term >>= after_snapshot) h
        ≡ (ok (refusal h.current_term (last_position h.store.tables).0), h)
  unfolding after_snapshot compare_prev
  mismatch-refusal h q above e =
      let si = h.store.tables.metadata.snapshot_index in
      then_run (lift_internal snapshot_index_term) after_snapshot h
        (lift_internal_quietly h snapshot_index_term-Refines q)
      ∙ else_run (gets (λ n. record { term = n.current_term; success = false; match_index = si }))
          (lift_internal (term_at req.prev_log_index) >>= compare_prev si) h (ground arith)
      ∙ then_run (lift_internal (term_at req.prev_log_index)) (compare_prev si) h
          (lift_internal_quietly h (term_at-Refines req.prev_log_index) q)
      ∙ then_branch_run reject_append (accept_append apply req si) h (ap not e)
      ∙ reject_append-refusal h q

  pub append_entries_rpc-refusal :
      (g : Node)
      → IsQuiet g
      → g.role ≡ follower
      → req.term ≡ g.current_term
      → g.store.tables.metadata.snapshot_index ≤ req.prev_log_index
      → holds_term (known_term req.prev_log_index g.store.tables) req.prev_log_term ≡ false
      → append_entries_rpc apply req g
        ≡ (ok (refusal g.current_term (last_position g.store.tables).0), heard req.leader_id g)
  unfolding append_entries_rpc after_snapshot compare_prev
  append_entries_rpc-refusal g q f t above e =
      let h = heard req.leader_id g in
      let (store, role, term) = heard-Untouched req.leader_id g in
      else_run reject_append
        (follow req.term req.leader_id >> (lift_internal snapshot_index_term >>= after_snapshot)) g
        (ground arith)
      ∙ then_run (follow req.term req.leader_id)
          (λ _. lift_internal snapshot_index_term >>= after_snapshot) g
          (follow-heard req.term req.leader_id g f t)
      ∙ mismatch-refusal h (ap (λ (s : Store). s.faults) store ∙ q) (ground arith) (
          ap (λ (s : Store). holds_term (known_term req.prev_log_index s.tables) req.prev_log_term)
            store
          ∙ e)
      ∙ λ i. (ok (refusal (term i) (last_position (store i).tables).0), h)
