-- ===== src/Raft/Intact/Requests.antt =====
-- `AppendEntries` (internal/raft/follower.go) keeps the tables intact.
use mathlib.Core.Path.{subst}
use log_replicator_raft.Common.{
  ℕ, ◌+◌, ◌≤◌, ◌≡◌, refl, sym, ◌∙◌, inl, inr, Bool, true, false, Option, none, some, String, arith,
  length, ltb, leb, ◌==◌, ◌||◌, not, min, if◌then◌else◌, Bool-cases,
}
use log_replicator_raft.Common.Action.{Action, Done, gets, ◌>>=◌, ◌>>◌}
use log_replicator_raft.Storage.Rows.{Entry, Tables, find_entry}
use log_replicator_raft.Storage.Store.{snapshot_index_term, term_at}
use log_replicator_raft.Storage.Spec.{known_term}
use log_replicator_raft.Storage.Methods.{
  snapshot_index_term-Refines, term_at-Refines, last_index_and_term-Refines,
}
use log_replicator_raft.Storage.Contiguous.{IsRun, find_entry-bounds}
use log_replicator_raft.Storage.Intact.{IsIntact}
use log_replicator_raft.Raft.Types.{Node, AppendRequest, AppendReply}
use log_replicator_raft.Raft.Node.{lift_internal, internally, is_follower, publish_state}
use log_replicator_raft.Raft.Follower.{
  holds_term, reject_append, store_leader_entries, follow, follow_leader_commit, accept_append,
  append_entries_rpc,
}
use log_replicator_raft.Raft.Matching.{term_of, known_term-find_entry}
use log_replicator_raft.Raft.Intact.Rules.{
  Intact, Keeps, pure-Keeps, gets-Keeps, modify-Keeps, internally-Keeps, if-Keeps, when-Keeps,
  bind-Keeps, bind_at, read_internal_at, this-Keeps, read-Keeps, publish_state-Keeps,
  reset_election_deadline-Keeps,
}
use log_replicator_raft.Raft.Intact.Handlers.{step_down-Keeps}
use log_replicator_raft.Raft.Intact.Stored.{store_leader_entries_at}

pub follow-Keeps : (term : ℕ) (leader_id : String) → Keeps (follow term leader_id)
follow-Keeps term leader_id = this-Keeps (λ n.
    bind-Keeps
      (when-Keeps (ltb n.current_term term || not (is_follower n.role))
        (step_down-Keeps term leader_id))
      (λ _.
        bind-Keeps (modify-Keeps (λ n. record n { leader_id = leader_id }) (λ n. refl))
          (λ _. reset_election_deadline-Keeps)))

reject_append-Keeps : Keeps reject_append
unfolding reject_append lift_internal
reject_append-Keeps =
    bind-Keeps (internally-Keeps (read-Keeps last_index_and_term-Refines))
      (λ p. gets-Keeps (λ n. record { term = n.current_term; success = false; match_index = p.0 }))

module _ {apply : Action Node Done} (applies : Keeps apply) where
  follow_leader_commit-Keeps :
      (leader_commit : ℕ) → Keeps (follow_leader_commit apply leader_commit)
  unfolding follow_leader_commit
  follow_leader_commit-Keeps leader_commit = this-Keeps (λ n.
      if-Keeps (leb leader_commit n.commit_index) (pure-Keeps tt) (
        bind-Keeps (read-Keeps last_index_and_term-Refines) (λ p.
          bind-Keeps
            (modify-Keeps (λ n. record n { commit_index = min leader_commit p.0 }) (λ n. refl))
            (λ _. applies))))

  module _ (req : AppendRequest) where
    stored_reply : ℕ → Action Node AppendReply
    stored_reply matched =
        internally (follow_leader_commit apply req.leader_commit)
        >> (publish_state
            >> gets (λ n. record { term = n.current_term; success = true; match_index = matched }))

    stored_reply-Keeps : (matched : ℕ) → Keeps (stored_reply matched)
    unfolding stored_reply
    stored_reply-Keeps matched =
        bind-Keeps (internally-Keeps (follow_leader_commit-Keeps req.leader_commit)) (λ _.
          bind-Keeps publish_state-Keeps (λ _.
            gets-Keeps
              (λ n. record { term = n.current_term; success = true; match_index = matched })))

    -- A position that the log knows is inside it or right at the snapshot.
    meets :
        (t : Tables) (known : ℕ)
        → IsIntact t
        → t.metadata.snapshot_index ≤ req.prev_log_index
        → known_term req.prev_log_index t ≡ some known
        → req.prev_log_index + 1 ≤ t.metadata.snapshot_index + 1 + length t.log_entries
    meets t known i low e = elim (Bool-cases (leb req.prev_log_index t.metadata.snapshot_index)) [
      | inl at ↦ ground arith
      | inr over ↦
          inside (find_entry req.prev_log_index t.log_entries) refl
            (sym (known_term-find_entry req.prev_log_index t over) ∙ e)
    ]
      where
        inside :
            (o : Option Entry)
            → find_entry req.prev_log_index t.log_entries ≡ o
            → term_of o ≡ some known
            → req.prev_log_index + 1 ≤ t.metadata.snapshot_index + 1 + length t.log_entries
        inside none f e = absurd (cc)
        inside (some r) f e =
            let b =
              find_entry-bounds req.prev_log_index (t.metadata.snapshot_index + 1) t.log_entries r
                i.0 f in
            omega arith

    compare_prev : ℕ → Option ℕ → Action Node AppendReply
    compare_prev si prev =
        if not (holds_term prev req.prev_log_term)
        then reject_append
        else accept_append apply req si

    compare_prev_at :
        (n : Node)
        → Intact n
        → n.store.tables.metadata.snapshot_index ≤ req.prev_log_index
        → IsRun (req.prev_log_index + 1) req.entries
        → (known : Option ℕ) → known ≡ known_term req.prev_log_index n.store.tables
        → Intact (compare_prev n.store.tables.metadata.snapshot_index known n).1
    unfolding compare_prev accept_append stored_reply
    compare_prev_at n i low run none e = reject_append-Keeps.at n i
    compare_prev_at n i low run (some t) e = on (t == req.prev_log_term)
      where
        si : ℕ
        si = n.store.tables.metadata.snapshot_index

        on :
            (b : Bool)
            → Intact
                ((if not b
                    then reject_append
                    else internally (store_leader_entries req.entries req.prev_log_index si)
                      >>= stored_reply)
                  n).1
        on false = reject_append-Keeps.at n i
        on true =
            bind_at (internally (store_leader_entries req.entries req.prev_log_index si))
              stored_reply n
              (store_leader_entries_at req.entries req.prev_log_index (req.prev_log_index + 1) n
                (record { log = i.0; request = run; meets = meets n.store.tables t i low (sym e) })
                i)
              stored_reply-Keeps

    after_snapshot : ℕ × ℕ → Action Node AppendReply
    unfolding compare_prev
    after_snapshot p =
        if ltb req.prev_log_index p.0
        then gets (λ n. record { term = n.current_term; success = false; match_index = p.0 })
        else lift_internal (term_at req.prev_log_index) >>= compare_prev p.0

    after_snapshot_at :
        (n : Node)
        → Intact n
        → IsRun (req.prev_log_index + 1) req.entries
        → Intact
            (after_snapshot
              (n.store.tables.metadata.snapshot_index, n.store.tables.metadata.snapshot_term)
              n).1
    unfolding after_snapshot
    after_snapshot_at n i run = on (ltb req.prev_log_index si) refl
      where
        si : ℕ
        si = n.store.tables.metadata.snapshot_index

        on :
            (b : Bool)
            → ltb req.prev_log_index si ≡ b
            → Intact
                ((if b
                    then gets
                        (λ n. record { term = n.current_term; success = false; match_index = si })
                    else lift_internal (term_at req.prev_log_index) >>= compare_prev si)
                  n).1
        on true e = i
        on false e =
            read_internal_at (compare_prev si) n (term_at-Refines req.prev_log_index) i (λ k same.
              subst
                (λ (t : Tables).
                  Intact
                    (compare_prev t.metadata.snapshot_index (known_term req.prev_log_index t) k).1)
                same
                (compare_prev_at k (subst IsIntact (sym same) i)
                  (subst (λ (t : Tables). t.metadata.snapshot_index ≤ req.prev_log_index) (sym same)
                    (ground arith))
                  run (known_term req.prev_log_index k.store.tables) refl))

    pub append_entries_rpc_at :
        (n : Node)
        → Intact n
        → IsRun (req.prev_log_index + 1) req.entries
        → Intact (append_entries_rpc apply req n).1
    unfolding append_entries_rpc after_snapshot compare_prev
    append_entries_rpc_at n i run = on (ltb req.term n.current_term)
      where
        checks : Keeps (lift_internal snapshot_index_term >>= after_snapshot)
        checks = record {
          at = λ n i. read_internal_at after_snapshot n snapshot_index_term-Refines i (λ k same.
              subst
                (λ (t : Tables).
                  Intact (after_snapshot (t.metadata.snapshot_index, t.metadata.snapshot_term) k).1)
                same (after_snapshot_at k (subst IsIntact (sym same) i) run));
        }

        on :
            (b : Bool)
            → Intact
                ((if b
                    then reject_append
                    else follow req.term req.leader_id
                      >> (lift_internal snapshot_index_term >>= after_snapshot))
                  n).1
        on true = reject_append-Keeps.at n i
        on false = (bind-Keeps (follow-Keeps req.term req.leader_id) (λ _. checks)).at n i
