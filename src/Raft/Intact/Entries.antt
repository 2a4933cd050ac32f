-- ===== src/Raft/Intact/Entries.antt =====
-- A client call that writes an entry (`appendClientEntry` of internal/raft/client.go) keeps the tables
-- intact.
use mathlib.Core.Path.{subst}
use log_replicator_raft.Common.{
  ℕ, ◌+◌, ◌<◌, ◌^◌, ◌≡◌, refl, sym, Bool, true, false, String, [], ◌∷◌, arith, length, not, succ64,
  if◌then◌else◌,
}
use log_replicator_raft.Common.Action.{Action, Done, gets, fail, ◌>>=◌, ◌>>◌}
use log_replicator_raft.Storage.Rows.{Entry, Tables}
use log_replicator_raft.Storage.Store.{append_entries, last_index_and_term}
use log_replicator_raft.Storage.Spec.{last_position, upsert_entries, with_log}
use log_replicator_raft.Storage.Methods.{append_entries-Refines, last_index_and_term-Refines}
use log_replicator_raft.Storage.Contiguous.{IsRun, append-IsRun, upsert_entries-append}
use log_replicator_raft.Storage.Intact.{IsIntact, last_position-end, with_log-IsIntact}
use log_replicator_raft.Raft.Types.{Node}
use log_replicator_raft.Raft.Node.{lift_internal, when, is_leader, publish_state}
use log_replicator_raft.Raft.Command.{Codec}
use log_replicator_raft.Raft.Election.{is_empty}
use log_replicator_raft.Raft.Replication.{advance_commit}
use log_replicator_raft.Raft.Client.{append_client_entry, not_leader_error}
use log_replicator_raft.Raft.Intact.Rules.{
  Intact, Keeps, gets-Keeps, lift_at, when-Keeps, bind-Keeps, bind_at, read_internal_at,
  publish_state-Keeps,
}
use log_replicator_raft.Raft.Intact.Commits.{advance_commit-Keeps}

-- An entry right behind the log.
appended-IsIntact :
    (e : Entry) (t : Tables)
    → IsIntact t
    → e.index ≡ (last_position t).0 + 1
    → IsIntact (with_log (upsert_entries (e ∷ []) t.log_entries) t)
appended-IsIntact e t i at =
    let end = last_position-end t i in
    let here : t.metadata.snapshot_index + 1 + length t.log_entries ≡ e.index = omega arith in
    with_log-IsIntact (upsert_entries (e ∷ []) t.log_entries) t i (
      subst (IsRun (t.metadata.snapshot_index + 1))
        (sym (
          upsert_entries-append (t.metadata.snapshot_index + 1) e.index t.log_entries (e ∷ []) i.0
            here (refl, tt)))
        (append-IsRun (t.metadata.snapshot_index + 1) e.index t.log_entries (e ∷ []) i.0 here
          (refl, tt)))

module _ (codec : Codec) where
  entry_after : Node → String → ℕ × ℕ → Entry
  entry_after n payload p = record { index = succ64 p.0; term = n.current_term; command = payload }

  -- The rest of `appendClientEntry` once the position behind the log is read.
  stored_client_entry : Node → String → ℕ × ℕ → Done → Action Node (Entry × ℕ)
  unfolding entry_after
  stored_client_entry n payload p _ =
      when (is_empty n.peers) (advance_commit codec)
      >> (publish_state >> gets (λ n'. (entry_after n payload p, n'.current_term)))

  written : Node → String → ℕ × ℕ → Action Node (Entry × ℕ)
  unfolding entry_after stored_client_entry lift_internal
  written n payload p =
      lift_internal (append_entries (entry_after n payload p ∷ []))
      >>= stored_client_entry n payload p

  stored_client_entry-Keeps :
      (n : Node) (payload : String) (p : ℕ × ℕ) (d : Done)
      → Keeps (stored_client_entry n payload p d)
  unfolding stored_client_entry
  stored_client_entry-Keeps n payload p d =
      bind-Keeps (when-Keeps (is_empty n.peers) (advance_commit-Keeps codec)) (λ _.
        bind-Keeps publish_state-Keeps
          (λ _. gets-Keeps (λ n'. (entry_after n payload p, n'.current_term))))

  written_at :
      (n k : Node) (payload : String)
      → (last_position k.store.tables).0 + 1 < 2 ^ 64
      → Intact k
      → Intact (written n payload (last_position k.store.tables) k).1
  unfolding written entry_after lift_internal
  written_at n k payload fits i =
      let p = last_position k.store.tables in
      let e = entry_after n payload p in
      bind_at (lift_internal (append_entries (e ∷ []))) (stored_client_entry n payload p) k
        (lift_at k (append_entries-Refines (e ∷ [])) i
          (appended-IsIntact e k.store.tables i (ground arith)))
        (stored_client_entry-Keeps n payload p)

  pub append_client_entry_at :
      (payload : String) (n : Node)
      → (last_position n.store.tables).0 + 1 < 2 ^ 64
      → Intact n
      → Intact (append_client_entry codec payload n).1
  unfolding append_client_entry written stored_client_entry entry_after
  append_client_entry_at payload n fits i = on (not (is_leader n.role))
    where
      on :
          (b : Bool)
          → Intact
              ((if b
                  then fail (not_leader_error n.leader_id)
                  else lift_internal last_index_and_term >>= written n payload)
                n).1
      on true = i
      on false = read_internal_at (written n payload) n last_index_and_term-Refines i (λ k same.
          subst (λ (t : Tables). Intact (written n payload (last_position t) k).1) same
            (written_at n k payload
              (subst (λ (t : Tables). (last_position t).0 + 1 < 2 ^ 64) (sym same) fits)
              (subst IsIntact (sym same) i)))
