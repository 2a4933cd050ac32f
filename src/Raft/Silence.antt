-- ===== src/Raft/Silence.antt =====
-- Calls to a peer that answers nothing (`replicatePeer` of internal/raft/replication.go).
use log_replicator_raft.Common.{
  ℕ, zero, suc, String, Bool, true, false, ◌≡◌, ◌≢◌, refl, Option, none, some, ◌||◌, not,
  if◌then◌else◌,
}
use log_replicator_raft.Common.Action.{Result, ok, err, Action, pure, ◌>>=◌}
use log_replicator_raft.Storage.Rows.{Snapshot}
use log_replicator_raft.Raft.Types.{Node, AppendRequest, AppendReply, SnapshotRequest}
use log_replicator_raft.Raft.Command.{Codec}
use log_replicator_raft.Raft.Node.{is_leader, lift}
use log_replicator_raft.Raft.Replication.{
  AppendOutcome, accepted, rejected, failed, peer_needs_snapshot, note_peer,
}
use log_replicator_raft.Raft.Sender.{
  Network, append_called, built, send_entries, snapshot_called, loaded, send_snapshot,
  replicate_rounds, attempt, build_append_request,
}
use log_replicator_raft.Storage.Store.{load_snapshot}
use log_replicator_raft.Raft.Yields.{
  Yields, pure-Yields, if-Yields, this-Yields, known-Yields, bind-Yields,
}

-- Every call to the peer fails.
pub record IsSilent (net : Network) : Type 0 where
  pub append : (req : AppendRequest) → Yields (λ reply. reply ≡ none) (net.append req)
  pub install : (req : SnapshotRequest) → Yields (λ reply. reply ≡ none) (net.install req)

abbrev pub Refused : Bool → Type 0
Refused reached = reached ≡ false

abbrev Unaccepted : AppendOutcome → Type 0
Unaccepted outcome = outcome ≢ accepted

module _ (codec : Codec) (net : Network) (peer : String) (silent : IsSilent net) where
  built-Yields :
      (term : ℕ) (request : Result (Option AppendRequest))
      → Yields Unaccepted (built codec net peer term request)
  unfolding built append_called
  built-Yields term (err e) = pure-Yields failed (λ e. absurd (cc))
  built-Yields term (ok none) = pure-Yields rejected (λ e. absurd (cc))
  built-Yields term (ok (some req)) =
      known-Yields (λ reply. reply ≡ none) (silent.append req) unanswered
    where
      unanswered :
          (reply : Option AppendReply)
          → reply ≡ none
          → Yields Unaccepted (append_called codec net peer term req reply)
      unanswered none e =
          bind-Yields (note_peer true peer) (λ _. pure-Yields failed (λ e. absurd (cc)))
      unanswered (some reply) e = absurd (cc)

  send_entries-Yields : Yields Unaccepted (send_entries codec net peer)
  unfolding send_entries
  send_entries-Yields =
      this-Yields
        (λ n. bind-Yields (attempt (build_append_request peer)) (built-Yields n.current_term))

  loaded-Yields : (n : Node) (s : Result Snapshot) → Yields Refused (loaded codec net peer n s)
  unfolding loaded snapshot_called
  loaded-Yields n (err e) = pure-Yields false refl
  loaded-Yields n (ok s) = known-Yields (λ reply. reply ≡ none) (silent.install _) unanswered
    where
      unanswered :
          (reply : Option ℕ)
          → reply ≡ none
          → Yields Refused (snapshot_called codec net peer n.current_term s reply)
      unanswered none e = bind-Yields (note_peer true peer) (λ _. pure-Yields false refl)
      unanswered (some term) e = absurd (cc)

  send_snapshot-Yields : Yields Refused (send_snapshot codec net peer)
  unfolding send_snapshot
  send_snapshot-Yields =
      this-Yields (λ n. bind-Yields (attempt (lift load_snapshot)) (loaded-Yields n))

  -- A peer that answers nothing is never brought up to date.
  pub replicate_rounds-Yields :
      (rounds : ℕ) → Yields Refused (replicate_rounds codec net peer rounds)
  unfolding replicate_rounds
  replicate_rounds-Yields zero = pure-Yields false refl
  replicate_rounds-Yields (suc rounds) = bind-Yields net.cancelled (λ stop. this-Yields (λ n.
      if-Yields (stop || not (is_leader n.role)) (pure-Yields false refl) (
        bind-Yields (attempt (peer_needs_snapshot peer))
          (needing (replicate_rounds codec net peer rounds) (replicate_rounds-Yields rounds)))))
    where
      judged :
          (more : Action Node Bool)
          → Yields Refused more
          → (outcome : AppendOutcome) → Unaccepted outcome
          → Yields Refused
              (elim outcome [ accepted ↦ pure true | failed ↦ pure false | rejected ↦ more ])
      judged more h accepted out = absurd (out refl)
      judged more h failed out = pure-Yields false refl
      judged more h rejected out = h

      needing :
          (more : Action Node Bool)
          → Yields Refused more
          → (needs : Result Bool)
          → Yields Refused (elim needs [
            | err _ ↦ pure false
            | ok needed ↦ if needed then send_snapshot codec net peer else do
              outcome ← send_entries codec net peer
              elim outcome [ accepted ↦ pure true | failed ↦ pure false | rejected ↦ more ]
          ])
      needing more h (err e) = pure-Yields false refl
      needing more h (ok needed) =
          if-Yields needed send_snapshot-Yields
            (known-Yields Unaccepted send_entries-Yields (judged more h))
