-- ===== src/Raft/Complete.antt =====
-- The commit rule (`advanceCommitLocked` of internal/raft/replication.go) over a store
-- without errors.
use log_replicator_raft.Common.{
  ℕ, zero, suc, ◌+◌, ◌-◌, ◌≤◌, ◌<◌, ◌≡◌, refl, ◌∙◌, ap, Bool, true, false, arith, ◌==◌,
  if◌then◌else◌, [],
}
use log_replicator_raft.Common.Action.{Result, ok, Action, Done, pure, ◌>>=◌}
use log_replicator_raft.Storage.Spec.{known_term, last_position}
use log_replicator_raft.Storage.Store.{term_at, last_index_and_term}
use log_replicator_raft.Storage.Methods.{term_at-Refines, last_index_and_term-Refines}
use log_replicator_raft.Raft.Types.{Node}
use log_replicator_raft.Raft.Node.{lift, this, ignoring}
use log_replicator_raft.Raft.Command.{Codec}
use log_replicator_raft.Raft.Replication.{scan_commit, advance_commit}
use log_replicator_raft.Raft.Quiet.{IsQuiet, lift_quietly, then_run}
use log_replicator_raft.Raft.Commit.{
  holders, replica_count-holders, majority-half, IsCommittable, better, moved, commit_index-moved,
}

-- The index that the loop ends with, over a store without errors.
unfoldable best : Node → ℕ → ℕ → ℕ → ℕ
unfolding better known_term
best n zero index committed = committed
best n (suc rounds) index committed =
    best n rounds (index + 1) (better n index committed (known_term index n.store.tables))

better-bounds :
    (n : Node) (index committed : ℕ)
    → committed < index
    → (committed ≤ better n index committed (known_term index n.store.tables))
      × (better n index committed (known_term index n.store.tables) ≤ index)
unfolding better
better-bounds n index committed h = ground arith

committed-le-best :
    (n : Node) (rounds index committed : ℕ)
    → committed < index
    → committed ≤ best n rounds index committed
unfolding best
committed-le-best n zero index committed h = ground arith
committed-le-best n (suc rounds) index committed h =
    let b = better-bounds n index committed h in
    let rest =
      committed-le-best n rounds (index + 1)
        (better n index committed (known_term index n.store.tables)) (ground arith) in
    ground arith

better-at :
    (n : Node) (index committed : ℕ)
    → IsCommittable n index
    → better n index committed (known_term index n.store.tables) ≡ index
unfolding better
better-at n index committed c =
    let count = replica_count-holders n.match_index index n.peers in
    let half = majority-half n.peers (holders n.match_index index n.peers) in ground arith

committable-le-best :
    (n : Node) (rounds index committed k : ℕ)
    → committed < index
    → IsCommittable n k
    → index ≤ k
    → k < index + rounds
    → k ≤ best n rounds index committed
unfolding best
committable-le-best n zero index committed k h c from until = absurd (ground arith)
committable-le-best n (suc rounds) index committed k h c from until =
    let c' = better n index committed (known_term index n.store.tables) in
    let b = better-bounds n index committed h in
    on (k == index) refl (committed-le-best n rounds (index + 1) c' (ground arith))
      (λ later. committable-le-best n rounds (index + 1) c' k (ground arith) c later (ground arith))
  where
    on :
        (b : Bool)
        → (k == index) ≡ b
        → better n index committed (known_term index n.store.tables)
          ≤ best n rounds (index + 1) (better n index committed (known_term index n.store.tables))
        → (index + 1 ≤ k
            → k
              ≤ best n rounds
                  (index + 1)
                  (better n index committed (known_term index n.store.tables)))
        → k ≤ best n rounds (index + 1) (better n index committed (known_term index n.store.tables))
    on true e low later = let a = better-at n index committed in ground arith
    on false e low later = later (ground arith)

module _ (codec : Codec) where
  scan_commit-best :
      (rounds index committed : ℕ) (n : Node)
      → IsQuiet n
      → scan_commit codec rounds index committed n ≡ (ok (best n rounds index committed), n)
  unfolding scan_commit best better
  scan_commit-best zero index committed n q = refl
  scan_commit-best (suc rounds) index committed n q =
      then_run (lift (term_at index))
        (λ k. this >>= λ n. scan_commit codec rounds (index + 1) (better n index committed k)) n
        (lift_quietly n (term_at-Refines index) q)
      ∙ scan_commit-best rounds (index + 1)
          (better n index committed (known_term index n.store.tables)) n q

  advance_commit-best :
      (n : Node)
      → IsQuiet n
      → (advance_commit codec n).1.commit_index
        ≡ best n
            ((last_position n.store.tables).0 - n.commit_index)
            (n.commit_index + 1)
            n.commit_index
  unfolding advance_commit ignoring moved
  advance_commit-best n q = ap (λ (x : Result Done × Node). x.1.commit_index) runs ∙ settled
    where
      scanned : ℕ × ℕ → Action Node ℕ
      scanned p = scan_commit codec (p.0 - n.commit_index) (n.commit_index + 1) n.commit_index

      settle : ℕ → Action Node Done
      settle c = if c == n.commit_index then pure tt else moved codec c

      p : ℕ × ℕ
      p = last_position n.store.tables

      top : ℕ
      top = best n (p.0 - n.commit_index) (n.commit_index + 1) n.commit_index

      runs : (lift last_index_and_term >>= λ p. scanned p >>= settle) n ≡ settle top n
      runs =
          then_run (lift last_index_and_term) (λ p. scanned p >>= settle) n
            (lift_quietly n last_index_and_term-Refines q)
          ∙ then_run (scanned p) settle n
              (scan_commit-best (p.0 - n.commit_index) (n.commit_index + 1) n.commit_index n q)

      settled : (settle top n).1.commit_index ≡ top
      settled = let m = commit_index-moved codec top n in ground arith

  -- While no database call fails, a leader commits at least every entry of its current term in its
  -- log that more than half of the nodes of the cluster hold, the leader and each peer whose match
  -- index reaches it.
  pub advance_commit_complete :
      (n : Node) (k : ℕ)
      → n.store.faults ≡ []
      → IsCommittable n k
      → n.commit_index < k
      → k ≤ (last_position n.store.tables).0
      → k ≤ (advance_commit codec n).1.commit_index
  advance_commit_complete n k q c above within =
      let e = advance_commit-best n q in
      let b =
        committable-le-best n ((last_position n.store.tables).0 - n.commit_index)
          (n.commit_index + 1) n.commit_index k (ground arith) c (ground arith) (ground arith) in
      ground arith
