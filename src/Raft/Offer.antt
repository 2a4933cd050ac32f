-- ===== src/Raft/Offer.antt =====
-- What the leader sends and what it does with a refusal (`buildAppendRequestLocked` and
-- `sendEntries` of internal/raft/replication.go).

use log_replicator_raft.Common.{
  ℕ, ◌+◌, ◌-◌, ◌≤◌, ◌<◌, ◌^◌, String, false, ◌≡◌, ◌∙◌, ap, Option, none, some, arith, max,
  same_self,
}
use log_replicator_raft.Common.Action.{Result, ok, gets}
use log_replicator_raft.Storage.Spec.{known_term, tail_from}
use log_replicator_raft.Storage.Methods.{term_at-Refines, entries_from-Refines}
use log_replicator_raft.Storage.Store.{term_at, entries_from}
use log_replicator_raft.Raft.Types.{Node, put, leader, AppendRequest, AppendReply}
use log_replicator_raft.Raft.Command.{Codec}
use log_replicator_raft.Raft.Node.{observe_higher_term, lift}
use log_replicator_raft.Raft.Replication.{
  rejected, append_batch_size, next_index_of, next_index_after_rejection,
}
use log_replicator_raft.Raft.Sender.{
  Network, append_request, build_append_request, build_from, append_answered, append_called, built,
  send_entries, attempt,
}
use log_replicator_raft.Raft.Quiet.{IsQuiet, lift_quietly, then_run}
use log_replicator_raft.Raft.Stall.{
  follower_network, answer_of, follower_last-le-next_index_after_rejection,
}

module _ (codec : Codec) (peer : String) where
  unfoldable pub lowered : Node → Node
  lowered l = record l { next_index = put peer (max (next_index_of peer l - 1) 1) l.next_index }

  pub build-none :
      (l : Node)
      → IsQuiet l
      → known_term (next_index_of peer l - 1) l.store.tables ≡ none
      → build_append_request peer l ≡ (ok none, lowered l)
  unfolding build_append_request build_from lowered
  build-none l q e =
      then_run (lift (term_at (next_index_of peer l - 1))) (build_from peer (next_index_of peer l))
        l (lift_quietly l (term_at-Refines (next_index_of peer l - 1)) q)
      ∙ ap (λ (o : Option ℕ). build_from peer (next_index_of peer l) o l) e

  unfoldable pub sent : Node → ℕ → AppendRequest
  sent l prev_term =
      append_request l (next_index_of peer l - 1) prev_term
        (tail_from (next_index_of peer l) append_batch_size l.store.tables)

  pub build-some :
      (l : Node) (t : ℕ)
      → IsQuiet l
      → known_term (next_index_of peer l - 1) l.store.tables ≡ some t
      → build_append_request peer l ≡ (ok (some (sent l t)), l)
  unfolding build_append_request build_from sent
  build-some l t q e =
      then_run (lift (term_at (next_index_of peer l - 1))) (build_from peer (next_index_of peer l))
        l (lift_quietly l (term_at-Refines (next_index_of peer l - 1)) q)
      ∙ ap (λ (o : Option ℕ). build_from peer (next_index_of peer l) o l) e
      ∙ then_run (lift (entries_from (next_index_of peer l) append_batch_size))
          (λ entries. gets (λ n. some (append_request n (next_index_of peer l - 1) t entries))) l
          (lift_quietly l (entries_from-Refines (next_index_of peer l) append_batch_size) q)

  unfoldable pub raised : Node → ℕ → Node
  raised l hint = record l {
    unreachable = put peer false l.unreachable;
    next_index = put peer (next_index_after_rejection (next_index_of peer l) hint) l.next_index;
  }

  pub append_called-rejected :
      (net : Network) (l : Node) (req : AppendRequest) (reply : AppendReply)
      → l.role ≡ leader
      → reply.term ≡ l.current_term
      → reply.success ≡ false
      → append_called codec net peer l.current_term req (some reply) l
        ≡ (ok rejected, raised l reply.match_index)
  unfolding append_called append_answered observe_higher_term raised next_index_of
  append_called-rejected net l req reply r t f = ground arith

  pub send-none :
      (net : Network) (l : Node)
      → build_append_request peer l ≡ (ok none, lowered l)
      → send_entries codec net peer l ≡ (ok rejected, lowered l)
  unfolding send_entries built attempt
  send-none net l e =
      ap (λ (x : Result (Option AppendRequest) × Node). built codec net peer l.current_term x.0 x.1)
        e

  pub send-some :
      (g l : Node) (req : AppendRequest)
      → build_append_request peer l ≡ (ok (some req), l)
      → send_entries codec (follower_network codec g) peer l
        ≡ append_called codec
            (follower_network codec g)
            peer
            l.current_term
            req
            (answer_of codec g req)
            l
  unfolding send_entries built attempt
  send-some g l req e =
      ap
        (λ (x : Result (Option AppendRequest) × Node).
          built codec (follower_network codec g) peer l.current_term x.0 x.1)
        e

  pub position-lowered :
      (l : Node) (last : ℕ)
      → last + 1 ≤ next_index_of peer l
      → last ≤ next_index_of peer (lowered l)
  unfolding lowered next_index_of
  position-lowered l last h = let s = same_self peer in ground arith

  pub position-raised :
      (l : Node) (last : ℕ) → last + 1 < 2 ^ 64 → last ≤ next_index_of peer (raised l last)
  unfolding raised next_index_of
  position-raised l last fits =
      let s = same_self peer in
      let b = follower_last-le-next_index_after_rejection (max (l.next_index peer) 1) last fits in
      ground arith
