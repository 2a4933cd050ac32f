-- ===== src/Raft/Stall.antt =====
-- Replication rounds between a leader and one follower (`sendEntries` of replication.go against
-- `AppendEntries` of follower.go), and pairs of logs that diverge.

use log_replicator_raft.Common.{
  ℕ, zero, suc, ◌+◌, ◌-◌, ◌≤◌, ◌<◌, ◌^◌, String, Bool, true, false, ◌≡◌, ◌≢◌, Option, none, some,
  arith,
}
use log_replicator_raft.Common.Action.{Result, ok, err}
use log_replicator_raft.Storage.Rows.{Tables}
use log_replicator_raft.Storage.Spec.{known_term, last_position}
use log_replicator_raft.Raft.Types.{Node, follower, leader, AppendRequest, AppendReply}
use log_replicator_raft.Raft.Command.{Codec}
use log_replicator_raft.Raft.Follower.{append_entries_rpc}
use log_replicator_raft.Raft.Replication.{
  AppendOutcome, accepted, rejected, failed, apply_committed, next_index_of,
  next_index_after_rejection,
}
use log_replicator_raft.Raft.Sender.{Network, build_append_request, send_entries}
use log_replicator_raft.Raft.Quiet.{IsQuiet}

-- The position after a rejection never falls below the end of the follower's log.
pub follower_last-le-next_index_after_rejection :
    (current follower_last : ℕ)
    → follower_last + 1 < 2 ^ 64
    → follower_last ≤ next_index_after_rejection current follower_last
unfolding next_index_after_rejection
follower_last-le-next_index_after_rejection current follower_last fits = ground arith

module _ (codec : Codec) where
  -- The answer of a follower, as the leader's call returns it.
  abbrev pub received : Result AppendReply → Option AppendReply
  received (ok reply) = some reply
  received (err e) = none

  unfoldable pub answer_of : Node → AppendRequest → Option AppendReply
  answer_of g req = received (append_entries_rpc (apply_committed codec) req g).0

  abbrev pub follower_network : Node → Network
  follower_network g = record {
    append = λ req n. (ok (answer_of g req), n);
    install = λ req n. (ok none, n);
    cancelled = λ n. (ok false, n);
  }

  -- The follower after the request that the leader sent it, if it sent one.
  abbrev pub after_request : Result (Option AppendRequest) → Node → Node
  after_request (ok (some req)) g = (append_entries_rpc (apply_committed codec) req g).1
  after_request _ g = g

  -- One round of `replicatePeer` that sends entries: the outcome, the leader and the follower.
  unfoldable pub exchange : String → Node × Node → Result AppendOutcome × (Node × Node)
  exchange peer (l, g) =
      let (outcome, l') = send_entries codec (follower_network g) peer l in
      (outcome, (l', after_request (build_append_request peer l).0 g))

  -- The rounds of `replicatePeer` until one is not rejected: whether one was accepted.
  unfoldable pub catches_up : ℕ → String → Node × Node → Bool
  unfolding exchange
  catches_up zero peer s = false
  catches_up (suc rounds) peer s =
      let (outcome, s') = exchange peer s in
      let again = catches_up rounds peer s' in
      elim outcome [ ok accepted ↦ true | ok rejected ↦ again | ok failed ↦ false | err _ ↦ false ]

-- The follower's log ends at `last`, and the leader has other terms there and one position before.
pub record Diverges (last : ℕ) (l g : Tables) : Type 0 where
  pub long : 2 ≤ last
  pub fits : last + 1 < 2 ^ 64
  pub ends : (last_position g).0 ≡ last
  pub beyond : (i : ℕ) → last < i → known_term i g ≡ none
  pub compacted : g.metadata.snapshot_index < last
  pub known : (t : ℕ) × (known_term (last - 1) l ≡ some t)
  pub before : known_term (last - 1) g ≢ known_term (last - 1) l
  pub at_last : known_term last g ≢ known_term last l

pub record Stuck (peer : String) (last : ℕ) (l g : Node) : Type 0 where
  pub quiet : IsQuiet l × IsQuiet g
  pub leads : (l.role ≡ leader) × (g.role ≡ follower)
  pub terms : g.current_term ≡ l.current_term
  pub logs : Diverges last l.store.tables g.store.tables
  pub position : last ≤ next_index_of peer l
