-- ===== src/Raft/Intact/Stored.antt =====
-- `storeLeaderEntriesLocked` (internal/raft/follower.go) keeps the tables intact.
use mathlib.Core.Path.{subst}
use log_replicator_raft.Common.{ℕ, ◌+◌, refl, sym, inl, inr, List}
use log_replicator_raft.Common.Action.{Result, ok, err, Action, pure, resume, ◌>>◌}
use log_replicator_raft.Storage.Rows.{Entry, Tables}
use log_replicator_raft.Storage.Store.{append_entries}
use log_replicator_raft.Storage.Spec.{upsert_entries, with_log}
use log_replicator_raft.Storage.Methods.{append_entries-Refines}
use log_replicator_raft.Storage.Contiguous.{IsRun, delete_ge-IsRun}
use log_replicator_raft.Storage.Intact.{IsIntact, with_log-IsIntact}
use log_replicator_raft.Raft.Types.{Node}
use log_replicator_raft.Raft.Node.{lift}
use log_replicator_raft.Raft.Follower.{store_leader_entries, scan_entries}
use log_replicator_raft.Raft.Matching.{IsCut, Scanned, scan_entries-Scanned}
use log_replicator_raft.Raft.Merged.{Fits, merged-IsRun}
use log_replicator_raft.Raft.Intact.Rules.{Intact, pure-Keeps, lift_at, bind_at}

-- `storeLeaderEntriesLocked` on a request that follows on the log.
pub store_leader_entries_at :
    (entries : List Entry) (prev next : ℕ) (n : Node)
    → Fits n.store.tables.metadata.snapshot_index next n.store.tables.log_entries entries
    → Intact n
    → Intact (store_leader_entries entries prev n.store.tables.metadata.snapshot_index n).1
unfolding store_leader_entries
store_leader_entries_at entries prev next n f i =
    on (scan_entries si entries prev n) (scan_entries-Scanned entries prev n n.store.tables refl)
  where
    si : ℕ
    si = n.store.tables.metadata.snapshot_index

    finish : ℕ × List Entry → Action Node ℕ
    finish p = lift (append_entries p.1) >> pure p.0

    cut_run : (rows : List Entry) → IsCut n.store.tables rows → IsRun (si + 1) rows
    cut_run rows c = elim c.from [
      | inl e ↦ subst (IsRun (si + 1)) (sym e) i.0
      | inr (k, e) ↦
          subst (IsRun (si + 1)) (sym e) (delete_ge-IsRun k (si + 1) n.store.tables.log_entries i.0)
    ]

    on :
        (x : Result (ℕ × List Entry) × Node)
        → Scanned entries n.store.tables x
        → Intact (resume x.0 finish x.1).1
    on (ok (m, missing), n') s =
        let t = n.store.tables in
        let here : Intact n' =
          subst IsIntact (sym s.tables) (with_log-IsIntact s.rows t i (cut_run s.rows s.cut)) in
        let all = s.done m missing refl in
        let run : IsRun (si + 1) (upsert_entries missing s.rows) =
          subst (IsRun (si + 1)) (sym all) (merged-IsRun si next entries t.log_entries f) in
        bind_at (lift (append_entries missing)) (λ _. pure m) n'
          (lift_at n' (append_entries-Refines missing) here (
            subst (λ (u : Tables). IsIntact (with_log (upsert_entries missing u.log_entries) u))
              (sym s.tables) (run, i.1)))
          (λ _. pure-Keeps m)
    on (err x, n') s =
        subst IsIntact (sym s.tables)
          (with_log-IsIntact s.rows n.store.tables i (cut_run s.rows s.cut))
