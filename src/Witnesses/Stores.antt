-- ===== src/Witnesses/Stores.antt =====
-- Concrete calls of the store, and each result about them.
use log_replicator_raft.Common.{◌≡◌, ◌⊎◌}
use log_replicator_raft.Common.Action.{ok}
use log_replicator_raft.Storage.Store.{
  install_snapshot, create_snapshot, append_entries, save_term_vote,
}
use log_replicator_raft.Storage.Spec.{with_term_vote, with_log, upsert_entries, created, installed}
use log_replicator_raft.Storage.Refine.{Faulted, Agrees}
use log_replicator_raft.Storage.Atomic.{
  save_term_vote_atomic, append_entries_atomic, create_snapshot_atomic, install_snapshot_atomic,
}
use log_replicator_raft.Raft.Command.{set_command, apply_to}
use log_replicator_raft.Raft.Machine.{effect, apply_to_atomic}
use log_replicator_raft.Witnesses.{
  state_codec, failing_store, used_tables, new_entries, sent_snapshot,
}

save_term_vote_atomic_example :
    (Faulted (save_term_vote 4 "n2" failing_store).0 failing_store
      × ((save_term_vote 4 "n2" failing_store).1.tables ≡ used_tables))
    ⊎ Agrees (save_term_vote 4 "n2" failing_store) (ok tt, with_term_vote 4 "n2" used_tables)
save_term_vote_atomic_example = save_term_vote_atomic 4 "n2" failing_store

append_entries_atomic_example :
    (Faulted (append_entries new_entries failing_store).0 failing_store
      × ((append_entries new_entries failing_store).1.tables ≡ used_tables))
    ⊎ Agrees
        (append_entries new_entries failing_store)
        (ok tt, with_log (upsert_entries new_entries used_tables.log_entries) used_tables)
append_entries_atomic_example = append_entries_atomic new_entries failing_store

create_snapshot_atomic_example :
    (Faulted (create_snapshot state_codec 2 1 failing_store).0 failing_store
      × ((create_snapshot state_codec 2 1 failing_store).1.tables ≡ used_tables))
    ⊎ Agrees (create_snapshot state_codec 2 1 failing_store) (created state_codec 2 1 used_tables)
create_snapshot_atomic_example = create_snapshot_atomic state_codec 2 1 failing_store

install_snapshot_atomic_example :
    (Faulted (install_snapshot state_codec sent_snapshot failing_store).0 failing_store
      × ((install_snapshot state_codec sent_snapshot failing_store).1.tables ≡ used_tables))
    ⊎ Agrees
        (install_snapshot state_codec sent_snapshot failing_store)
        (installed state_codec sent_snapshot used_tables)
install_snapshot_atomic_example = install_snapshot_atomic state_codec sent_snapshot failing_store

apply_to_atomic_example :
    (Faulted (apply_to (set_command "a" "5") 3 failing_store).0 failing_store
      × ((apply_to (set_command "a" "5") 3 failing_store).1.tables ≡ used_tables))
    ⊎ Agrees
        (apply_to (set_command "a" "5") 3 failing_store)
        (ok tt, effect (set_command "a" "5") 3 used_tables)
apply_to_atomic_example = apply_to_atomic (set_command "a" "5") 3 failing_store
