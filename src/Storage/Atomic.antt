-- ===== src/Storage/Atomic.antt =====
-- The writing methods of `Store` (internal/storage/storage.go) against the driver's
-- errors.
use log_replicator_raft.Common.{ℕ, ◌≡◌, ◌⊎◌, String, List}
use log_replicator_raft.Common.Action.{ok}
use log_replicator_raft.Storage.Rows.{Entry, Snapshot}
use log_replicator_raft.Storage.Statement.{Store}
use log_replicator_raft.Storage.Store.{
  StateCodec, save_term_vote, append_entries, create_snapshot, install_snapshot,
}
use log_replicator_raft.Storage.Spec.{with_term_vote, with_log, upsert_entries, created, installed}
use log_replicator_raft.Storage.Refine.{Faulted, Agrees}
use log_replicator_raft.Storage.Methods.{
  save_term_vote-Refines, append_entries-Refines, create_snapshot-Refines, install_snapshot-Refines,
}

-- Saving the term and the vote fails only by an error of the driver, with every table as before, or
-- stores both.
pub save_term_vote_atomic :
    (term : ℕ) (vote : String) (s : Store)
    → (Faulted (save_term_vote term vote s).0 s
        × ((save_term_vote term vote s).1.tables ≡ s.tables))
      ⊎ Agrees (save_term_vote term vote s) (ok tt, with_term_vote term vote s.tables)
save_term_vote_atomic term vote s = (save_term_vote-Refines term vote).outcome s

-- Appending entries fails only by an error of the driver, with every table as before, or writes all
-- of them into the log, in their order, each replacing a row of its index.
pub append_entries_atomic :
    (entries : List Entry) (s : Store)
    → (Faulted (append_entries entries s).0 s × ((append_entries entries s).1.tables ≡ s.tables))
      ⊎ Agrees
          (append_entries entries s)
          (ok tt, with_log (upsert_entries entries s.tables.log_entries) s.tables)
append_entries_atomic entries s = (append_entries-Refines entries).outcome s

-- Making a snapshot fails by an error of the driver, with every table as before, or does what
-- `created` says: it refuses a state that the encoder refuses and changes no table, or it records
-- the snapshot, its position and the applied index and drops the log that the snapshot covers.
pub create_snapshot_atomic :
    (codec : StateCodec) (index term : ℕ) (s : Store)
    → (Faulted (create_snapshot codec index term s).0 s
        × ((create_snapshot codec index term s).1.tables ≡ s.tables))
      ⊎ Agrees (create_snapshot codec index term s) (created codec index term s.tables)
create_snapshot_atomic codec index term s = (create_snapshot-Refines codec index term).outcome s

-- Installing a snapshot fails by an error of the driver, with every table as before, or does what
-- `installed` says: it refuses a payload that does not decode and changes no table, or it replaces
-- the whole state machine by the decoded map, where the last member of a key counts, records the
-- snapshot, its position and the applied index and drops the log that the snapshot covers.
pub install_snapshot_atomic :
    (codec : StateCodec) (snapshot : Snapshot) (s : Store)
    → (Faulted (install_snapshot codec snapshot s).0 s
        × ((install_snapshot codec snapshot s).1.tables ≡ s.tables))
      ⊎ Agrees (install_snapshot codec snapshot s) (installed codec snapshot s.tables)
install_snapshot_atomic codec snapshot s = (install_snapshot-Refines codec snapshot).outcome s
