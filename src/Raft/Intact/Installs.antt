-- ===== src/Raft/Intact/Installs.antt =====
-- `InstallSnapshot` (internal/raft/follower.go) keeps the tables intact.
use mathlib.Core.Path.{subst}
use log_replicator_raft.Common.{
  ℕ, ◌≡◌, refl, sym, Bool, true, false, arith, ltb, leb, max, if◌then◌else◌,
}
use log_replicator_raft.Common.Action.{Action, Done, gets, modify, ◌>>=◌, ◌>>◌}
use log_replicator_raft.Storage.Rows.{Snapshot, Tables}
use log_replicator_raft.Storage.Store.{install_snapshot}
use log_replicator_raft.Storage.Methods.{snapshot_index_term-Refines, install_snapshot-Refines}
use log_replicator_raft.Storage.Intact.{IsIntact, installed-IsIntact}
use log_replicator_raft.Raft.Types.{Node, SnapshotRequest}
use log_replicator_raft.Raft.Node.{lift_internal, publish_state}
use log_replicator_raft.Raft.Command.{Codec}
use log_replicator_raft.Raft.Follower.{install_snapshot_rpc}
use log_replicator_raft.Raft.Intact.Rules.{
  Intact, Keeps, pure-Keeps, gets-Keeps, modify-Keeps, if-Keeps, lift_at, bind-Keeps, bind_at,
  read_internal_at, this-Keeps, publish_state-Keeps,
}
use log_replicator_raft.Raft.Intact.Requests.{follow-Keeps}

module _ (codec : Codec) (req : SnapshotRequest) where
  pub install_snapshot_rpc-Keeps : Keeps (install_snapshot_rpc codec req)
  unfolding install_snapshot_rpc lift_internal
  install_snapshot_rpc-Keeps = this-Keeps (λ n.
      if-Keeps (ltb req.term n.current_term) (pure-Keeps n.current_term) (
        bind-Keeps (follow-Keeps req.term req.leader_id) (λ _. record {
          at = λ n i. read_internal_at installing n snapshot_index_term-Refines i (λ k same.
              subst
                (λ (t : Tables).
                  Intact (installing (t.metadata.snapshot_index, t.metadata.snapshot_term) k).1)
                same (installing_at k (subst IsIntact (sym same) i)));
        })))
    where
      sent : Snapshot
      sent = record {
        last_included_index = req.last_included_index;
        last_included_term = req.last_included_term;
        payload = req.payload;
      }

      done : Done → Action Node ℕ
      done _ =
          modify (λ n. record n {
            commit_index = max n.commit_index req.last_included_index;
            last_applied = max n.last_applied req.last_included_index;
          })
          >> (publish_state >> gets (λ n. n.current_term))

      done-Keeps : (d : Done) → Keeps (done d)
      done-Keeps d =
          bind-Keeps
            (modify-Keeps
              (λ n. record n {
                commit_index = max n.commit_index req.last_included_index;
                last_applied = max n.last_applied req.last_included_index;
              })
              (λ n. refl))
            (λ _. bind-Keeps publish_state-Keeps (λ _. gets-Keeps (λ n. n.current_term)))

      installing : ℕ × ℕ → Action Node ℕ
      installing p =
          if leb req.last_included_index p.0
          then gets (λ n. n.current_term)
          else lift_internal (install_snapshot codec.states sent) >>= done

      installing_at :
          (n : Node)
          → Intact n
          → Intact
              (installing
                (n.store.tables.metadata.snapshot_index, n.store.tables.metadata.snapshot_term)
                n).1
      installing_at n i =
          on (leb req.last_included_index n.store.tables.metadata.snapshot_index) refl
        where
          on :
              (b : Bool)
              → leb req.last_included_index n.store.tables.metadata.snapshot_index ≡ b
              → Intact
                  ((if b
                      then gets (λ n. n.current_term)
                      else lift_internal (install_snapshot codec.states sent) >>= done)
                    n).1
          on true e = i
          on false e =
              bind_at (lift_internal (install_snapshot codec.states sent)) done n
                (lift_at n (install_snapshot-Refines codec.states sent) i
                  (installed-IsIntact codec.states sent n.store.tables i (ground arith)))
                done-Keeps
