-- ===== src/Raft/Votes/Stores.antt =====
-- The methods of the store, called by a node, leave term and vote alone; `save_term_vote` brings
-- the disk up to memory.
use log_replicator_raft.Common.{ℕ, refl, List, arith}
use log_replicator_raft.Storage.Rows.{Entry, Snapshot}
use log_replicator_raft.Storage.Store.{
  StateCodec, save_term_vote, snapshot_index_term, last_index_and_term, term_at, entry_at,
  append_entries, delete_from, skip_to, create_snapshot, install_snapshot,
}
use log_replicator_raft.Storage.Spec.{
  with_term_vote, with_applied, with_set, with_delete, created, installed,
}
use log_replicator_raft.Storage.Methods.{
  save_term_vote-Refines, snapshot_index_term-Refines, last_index_and_term-Refines, term_at-Refines,
  entry_at-Refines, append_entries-Refines, delete_from-Refines, skip_to-Refines,
  create_snapshot-Refines, install_snapshot-Refines,
}
use log_replicator_raft.Raft.Types.{Node}
use log_replicator_raft.Raft.Command.{Command, apply_to}
use log_replicator_raft.Raft.Machine.{effect, apply_to-Refines}
use log_replicator_raft.Raft.Node.{lift, publish_state, reset_election_deadline}
use log_replicator_raft.Raft.Votes.Frame.{
  IsFrame, Moves, IsAhead, lift-IsFrame, bind-IsFrame, pure-IsFrame, recover-IsFrame,
}

pub snapshot_index_term-IsFrame : IsFrame (lift snapshot_index_term)
snapshot_index_term-IsFrame = lift-IsFrame snapshot_index_term-Refines (λ t. (refl, refl))

pub last_index_and_term-IsFrame : IsFrame (lift last_index_and_term)
last_index_and_term-IsFrame = lift-IsFrame last_index_and_term-Refines (λ t. (refl, refl))

pub term_at-IsFrame : (index : ℕ) → IsFrame (lift (term_at index))
term_at-IsFrame index = lift-IsFrame (term_at-Refines index) (λ t. (refl, refl))

pub entry_at-IsFrame : (index : ℕ) → IsFrame (lift (entry_at index))
entry_at-IsFrame index = lift-IsFrame (entry_at-Refines index) (λ t. (refl, refl))

pub append_entries-IsFrame : (entries : List Entry) → IsFrame (lift (append_entries entries))
append_entries-IsFrame entries = lift-IsFrame (append_entries-Refines entries) (λ t. (refl, refl))

pub delete_from-IsFrame : (index : ℕ) → IsFrame (lift (delete_from index))
delete_from-IsFrame index = lift-IsFrame (delete_from-Refines index) (λ t. (refl, refl))

pub skip_to-IsFrame : (index : ℕ) → IsFrame (lift (skip_to index))
unfolding with_applied
skip_to-IsFrame index = lift-IsFrame (skip_to-Refines index) (λ t. (refl, refl))

pub apply_to-IsFrame : (cmd : Command) (index : ℕ) → IsFrame (lift (apply_to cmd index))
unfolding effect with_set with_delete
apply_to-IsFrame cmd index = lift-IsFrame (apply_to-Refines cmd index) (λ t. ground arith)

module _ (codec : StateCodec) where
  pub create_snapshot-IsFrame : (index term : ℕ) → IsFrame (lift (create_snapshot codec index term))
  unfolding created
  create_snapshot-IsFrame index term =
      lift-IsFrame (create_snapshot-Refines codec index term) (λ t. ground arith)

  pub install_snapshot-IsFrame : (s : Snapshot) → IsFrame (lift (install_snapshot codec s))
  unfolding installed
  install_snapshot-IsFrame s = lift-IsFrame (install_snapshot-Refines codec s) (λ t. ground arith)

pub publish_state-IsFrame : IsFrame publish_state
unfolding publish_state
publish_state-IsFrame = recover-IsFrame tt (
    bind-IsFrame last_index_and_term-IsFrame
      (λ _. bind-IsFrame snapshot_index_term-IsFrame (λ _. pure-IsFrame tt)))

pub reset_election_deadline-IsFrame : IsFrame reset_election_deadline
unfolding reset_election_deadline
reset_election_deadline-IsFrame = record { at = λ n. ground arith }

-- Writing the term and vote of memory to disk.
pub persist-Moves :
    (n : Node) → IsAhead n → Moves n (lift (save_term_vote n.current_term n.voted_for) n).1
unfolding lift with_term_vote
persist-Moves n a =
    let o = (save_term_vote-Refines n.current_term n.voted_for).outcome n.store in
    record { ahead = ground arith; memory = ground arith; disk = ground arith }
