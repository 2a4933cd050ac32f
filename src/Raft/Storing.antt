-- ===== src/Raft/Storing.antt =====
-- A follower's log after `storeLeaderEntriesLocked` (internal/raft/follower.go) returned without an error.

use log_replicator_raft.Common.{
  ℕ, ◌<◌, ◌≡◌, refl, ap, ◌∙◌, ◌⊎◌, inl, inr, some, List, ◌∷◌, ◌++◌, All, true,
}
use log_replicator_raft.Common.Action.{Result, ok, err, Action, Done, pure, resume, ◌>>◌}
use log_replicator_raft.Storage.Rows.{Entry, Tables, find_entry}
use log_replicator_raft.Storage.Statement.{Store}
use log_replicator_raft.Storage.Store.{append_entries}
use log_replicator_raft.Storage.Spec.{upsert_entries, with_log}
use log_replicator_raft.Storage.Refine.{Faulted, Agrees}
use log_replicator_raft.Storage.Methods.{append_entries-Refines}
use log_replicator_raft.Raft.Types.{Node}
use log_replicator_raft.Raft.Node.{lift}
use log_replicator_raft.Raft.Follower.{store_leader_entries, scan_entries}
use log_replicator_raft.Raft.Matching.{term_of, merged, Scanned, scan_entries-Scanned}
use log_replicator_raft.Raft.Merged.{Fits, skips, find_entry-merged, merged_held}

-- The tables are the old ones with the merged log.
store_leader_entries-merged :
    (entries : List Entry) (prev : ℕ) (n : Node) (m : ℕ)
    → (store_leader_entries entries prev n.store.tables.metadata.snapshot_index n).0 ≡ ok m
    → (store_leader_entries entries prev n.store.tables.metadata.snapshot_index n).1.store.tables
      ≡ with_log
          (merged n.store.tables.metadata.snapshot_index entries n.store.tables.log_entries)
          n.store.tables
unfolding store_leader_entries lift
store_leader_entries-merged entries prev n m =
    on (scan_entries si entries prev n) (scan_entries-Scanned entries prev n n.store.tables refl)
  where
    si : ℕ
    si = n.store.tables.metadata.snapshot_index

    finish : ℕ × List Entry → Action Node ℕ
    finish p = lift (append_entries p.1) >> pure p.0

    appended :
        (k : ℕ) (n' : Node) (x : Result Done × Store) (missing : List Entry)
        → ((Faulted x.0 n'.store × (x.1.tables ≡ n'.store.tables))
            ⊎ Agrees x (
              ok tt,
              with_log (upsert_entries missing n'.store.tables.log_entries) n'.store.tables,
            ))
        → (resume x.0 (λ _. pure k) (record n' { store = x.1 })).0 ≡ ok m
        → (resume x.0 (λ _. pure k) (record n' { store = x.1 })).1.store.tables
          ≡ with_log (upsert_entries missing n'.store.tables.log_entries) n'.store.tables
    appended k n' (ok d, s) missing (inl ((_, e), _)) h = absurd (cc)
    appended k n' (ok d, s) missing (inr (_, e)) h = e
    appended k n' (err x, s) missing o h = absurd (cc)

    on :
        (x : Result (ℕ × List Entry) × Node)
        → Scanned entries n.store.tables x
        → (resume x.0 finish x.1).0 ≡ ok m
        → (resume x.0 finish x.1).1.store.tables
          ≡ with_log (merged si entries n.store.tables.log_entries) n.store.tables
    on (ok (k, missing), n') s h =
        appended k n' (append_entries missing n'.store) missing
          ((append_entries-Refines missing).outcome n'.store) h
        ∙ (ap (λ (t : Tables). with_log (upsert_entries missing t.log_entries) t) s.tables
            ∙ ap (λ rows. with_log rows n.store.tables) (s.done k missing refl))
    on (err x, n') s h = absurd (cc)

-- After entries were stored with no error, each entry of the request behind the snapshot stands in the log
-- at its index with its term, when the request has no gaps and starts in the log or right behind it.
pub find_entry-store_leader_entries :
    (prev next : ℕ) (before after : List Entry) (e : Entry) (n : Node) (m : ℕ)
    → Fits n.store.tables.metadata.snapshot_index next n.store.tables.log_entries
        (before ++ e ∷ after)
    → n.store.tables.metadata.snapshot_index < e.index
    → (store_leader_entries (before ++ e ∷ after) prev n.store.tables.metadata.snapshot_index n).0
      ≡ ok m
    → term_of (
        find_entry e.index
          (store_leader_entries
            (before ++ e ∷ after)
            prev
            n.store.tables.metadata.snapshot_index
            n).1.store.tables.log_entries)
      ≡ some e.term
find_entry-store_leader_entries prev next before after e n m f over h =
    ap (λ (t : Tables). term_of (find_entry e.index t.log_entries))
      (store_leader_entries-merged (before ++ e ∷ after) prev n m h)
    ∙ find_entry-merged n.store.tables.metadata.snapshot_index next before after e
        n.store.tables.log_entries f over

-- Storing entries with no error changes no table when the snapshot covers each entry or the log
-- holds it with its term, however far behind the end of the log the request ends.
pub store_leader_entries_held :
    (entries : List Entry) (prev : ℕ) (n : Node) (m : ℕ)
    → All
        (λ e. skips n.store.tables.metadata.snapshot_index e n.store.tables.log_entries ≡ true)
        entries
    → (store_leader_entries entries prev n.store.tables.metadata.snapshot_index n).0 ≡ ok m
    → (store_leader_entries entries prev n.store.tables.metadata.snapshot_index n).1.store.tables
      ≡ n.store.tables
store_leader_entries_held entries prev n m all h =
    store_leader_entries-merged entries prev n m h
    ∙ ap (λ rows. with_log rows n.store.tables)
        (merged_held n.store.tables.metadata.snapshot_index entries n.store.tables.log_entries all)
