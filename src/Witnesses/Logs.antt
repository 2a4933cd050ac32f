-- ===== src/Witnesses/Logs.antt =====
-- Concrete requests of a leader, stored.
use log_replicator_raft.Common.{ℕ, ◌≡◌, refl, true, some, List, [], ◌∷◌, arith}
use log_replicator_raft.Common.Action.{ok}
use log_replicator_raft.Storage.Rows.{Entry, Tables, empty_tables, find_entry, delete_ge}
use log_replicator_raft.Storage.Store.{append_entries, delete_from, term_at, insert_entries}
use log_replicator_raft.Storage.Intact.{IsIntact}
use log_replicator_raft.Raft.Types.{Node, AppendRequest}
use log_replicator_raft.Raft.Follower.{
  store_leader_entries, scan_entries, rest_missing, append_entries_rpc,
}
use log_replicator_raft.Raft.Matching.{term_of}
use log_replicator_raft.Raft.Merged.{skips}
use log_replicator_raft.Raft.Storing.{find_entry-store_leader_entries, store_leader_entries_held}
use log_replicator_raft.Raft.Votes.Safety.{append}
use log_replicator_raft.Raft.Intact.Life.{start, then_, IsSound, tables-IsIntact}
use log_replicator_raft.Storage.Keys.{IsKeyed}
use log_replicator_raft.Raft.Replication.{apply_committed}
use log_replicator_raft.Witnesses.{codec, node}

abbrev entry : ℕ → ℕ → Entry
entry index term = record { index = index; term = term; command = "-" }

-- A follower whose second entry differs from the one that the leader sends.
abbrev tables : Tables
tables = record empty_tables { log_entries = entry 1 1 ∷ entry 2 1 ∷ [] }

abbrev follower : Node
follower = record node { store = record { tables = tables; faults = [] } }

abbrev sent : List Entry
sent = entry 1 1 ∷ entry 2 2 ∷ entry 3 2 ∷ []

stored_to : (store_leader_entries sent 0 0 follower).0 ≡ ok 3
unfolding store_leader_entries scan_entries rest_missing find_entry delete_ge append_entries
    insert_entries delete_from term_at
stored_to = refl

find_entry-store_leader_entries_example :
    term_of (find_entry 2 (store_leader_entries sent 0 0 follower).1.store.tables.log_entries)
    ≡ some 2
find_entry-store_leader_entries_example =
    find_entry-store_leader_entries 0 1 (entry 1 1 ∷ []) (entry 3 2 ∷ []) (entry 2 2) follower 3
      (record {
        log = (refl, (refl, tt));
        request = (refl, (refl, (refl, tt)));
        meets = omega arith;
      })
      (omega arith) stored_to

held_to : (store_leader_entries (entry 1 1 ∷ []) 0 0 follower).0 ≡ ok 1
unfolding store_leader_entries scan_entries rest_missing find_entry delete_ge append_entries
    insert_entries delete_from term_at
held_to = refl

held : skips 0 (entry 1 1) tables.log_entries ≡ true
unfolding find_entry
held = refl

store_leader_entries_held_example :
    (store_leader_entries (entry 1 1 ∷ []) 0 0 follower).1.store.tables ≡ tables
store_leader_entries_held_example =
    store_leader_entries_held (entry 1 1 ∷ []) 0 follower 1 (held, tt) held_to

intact : IsIntact tables
unfolding IsKeyed
intact = ((refl, (refl, tt)), refl)

abbrev request : AppendRequest
request = record {
  term = 3;
  leader_id = "n2";
  prev_log_index = 0;
  prev_log_term = 0;
  entries = sent;
  leader_commit = 0;
}

sound : IsSound codec {n = follower} (append request)
unfolding IsSound
sound = (refl, (refl, (refl, tt)))

tables-IsIntact_example :
    IsIntact (append_entries_rpc (apply_committed codec) request follower).1.store.tables
tables-IsIntact_example = tables-IsIntact codec (then_ start (append request) sound) intact
