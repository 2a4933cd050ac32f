-- ===== src/Raft/Client.antt =====
-- The key/value calls of clients (internal/raft/client.go). What a peer answers to a forwarded call
-- is a parameter; a context says whether the call was forwarded.
use log_replicator_raft.Common.{
  ℕ, ◌+◌, String, Bool, Option, none, some, List, [], ◌∷◌, not, ◌||◌, ltb, leb, ◌==◌, same, succ64,
  if◌then◌else◌,
}
use log_replicator_raft.Common.Action.{
  Result, ok, err, Error, status, invalid_argument, unavailable, deadline_exceeded, canceled,
  not_found, internal, Action, Done, pure, fail, gets, ◌>>=◌, ◌>>◌,
}
use log_replicator_raft.Storage.Rows.{Entry}
use log_replicator_raft.Storage.Store.{last_index_and_term, append_entries, get}
use log_replicator_raft.Raft.Types.{Node, Peer}
use log_replicator_raft.Raft.Command.{Codec, Command, set_command, delete_command, encode}
use log_replicator_raft.Raft.Node.{
  lift_internal, internally, when, this, is_leader, publish_state, majority,
}
use log_replicator_raft.Raft.Election.{among, is_empty, signal_replication}
use log_replicator_raft.Raft.Replication.{advance_commit, max_append_rounds}
use log_replicator_raft.Raft.Sender.{Network, replicate_rounds}

pub record WriteReply : Type 0 where
  pub leader_id : String
  pub index : ℕ
  pub term : ℕ

pub record ReadReply : Type 0 where
  pub leader_id : String
  pub value : String

-- `notLeaderError`: both messages have one code.
abbrev pub not_leader_error : String → Error
not_leader_error leader_id = status unavailable

-- Who handles a call: this node, or a peer.
pub data Route : Type 0 where
  here : Route
  remote : String → Route

-- `leaderClient`
unfoldable pub leader_client : Bool → Node → Result Route
leader_client was_forwarded n =
    if is_leader n.role
    then ok here
    else if same n.leader_id ""
    then err (status unavailable)
    else if was_forwarded
    then err (not_leader_error n.leader_id)
    else if not (among n.leader_id n.peers)
    then err (status internal)
    else ok (remote n.leader_id)

-- A call by key: refused, passed on once, or run here.
unfoldable pub routed :
    {A : Type 0} → Bool → String → (String → Result A) → Action Node A → Action Node A
unfolding leader_client
routed was_forwarded key peer_answer run =
    if same key "" then fail (status invalid_argument) else do
      route ← λ n. (leader_client was_forwarded n, n)
      elim route [ here ↦ run | remote peer ↦ (λ n. (peer_answer peer, n)) ]

-- What ends the `select` of a poll: the ticker, the deadline or the caller.
pub data Wake : Type 0 where
  tick expired cancelled : Wake

module _ (codec : Codec) where
  unfoldable pub append_client_entry : String → Action Node (Entry × ℕ)
  unfolding lift_internal
  append_client_entry payload = do
    n ← this
    if not (is_leader n.role) then fail (not_leader_error n.leader_id) else do
      (last, _) ← lift_internal last_index_and_term
      let entry : Entry = record { index = succ64 last; term = n.current_term; command = payload }
      lift_internal (append_entries (entry ∷ []))
      when (is_empty n.peers) (advance_commit codec)
      publish_state
      gets (λ n. (entry, n.current_term))

  -- One look of `waitForCommit` at the node: an answer, or none yet.
  abbrev pub looked : ℕ → ℕ → Node → Option (Result Done)
  looked index term n =
      if leb index n.commit_index
      then some (ok tt)
      else if not (is_leader n.role) || not (n.current_term == term)
      then some (err (not_leader_error n.leader_id))
      else none

  -- `between` is what other handlers do to the node between two polls.
  module _ (between : Action Node Done) where
    -- `waitForCommit`; a script of wake-ups that runs out ends by the deadline.
    unfoldable pub wait_for_commit : ℕ → ℕ → List Wake → Action Node Done
    wait_for_commit index term [] n = elim (looked index term n) [
      | some r ↦ (r, n)
      | none ↦ (err (status deadline_exceeded), n)
    ]
    wait_for_commit index term (expired ∷ wakes) n = elim (looked index term n) [
      | some r ↦ (r, n)
      | none ↦ (err (status deadline_exceeded), n)
    ]
    wait_for_commit index term (cancelled ∷ wakes) n = elim (looked index term n) [
      | some r ↦ (r, n)
      | none ↦ (err (status canceled), n)
    ]
    wait_for_commit index term (tick ∷ wakes) n = elim (looked index term n) [
      | some r ↦ (r, n)
      | none ↦ (between >> wait_for_commit index term wakes) n
    ]

    unfoldable pub propose : List Wake → Command → Action Node WriteReply
    unfolding append_client_entry wait_for_commit signal_replication
    propose wakes cmd = do
      payload ← internally (λ n. (encode codec cmd, n))
      (entry, term) ← append_client_entry payload
      signal_replication
      between
      wait_for_commit entry.index term wakes
      gets (λ n. record { leader_id = n.id; index = entry.index; term = term })

    unfoldable pub write :
        Bool → (String → Result WriteReply) → List Wake → String → String → Action Node WriteReply
    unfolding routed propose
    write was_forwarded peer_answer wakes key value =
        routed was_forwarded key peer_answer (propose wakes (set_command key value))

    unfoldable pub delete :
        Bool → (String → Result WriteReply) → List Wake → String → Action Node WriteReply
    unfolding routed propose
    delete was_forwarded peer_answer wakes key =
        routed was_forwarded key peer_answer (propose wakes (delete_command key))

  -- `replicateAll`: the rounds of the peers, one after the other, and how many were in sync.
  module _ (net : String → Network) where
    unfoldable pub replicate_all : ℕ → List Peer → Action Node ℕ
    unfolding replicate_rounds
    replicate_all in_sync [] = pure in_sync
    replicate_all in_sync (p ∷ peers) = do
      reached ← replicate_rounds codec (net p.id) p.id max_append_rounds
      replicate_all (if reached then in_sync + 1 else in_sync) peers

    unfoldable pub confirm_leadership : Action Node Done
    unfolding replicate_all
    confirm_leadership = do
      peers ← gets (λ n. n.peers)
      in_sync ← replicate_all 1 peers
      n ← this
      if not (is_leader n.role)
          then fail (not_leader_error n.leader_id)
          else if ltb in_sync (majority n.peers)
          then fail (status unavailable)
          else pure tt

    abbrev pub found_value : Option String → Action Node ReadReply
    found_value none = fail (status not_found)
    found_value (some v) = gets (λ n. record { leader_id = n.id; value = v })

    unfoldable pub read_here : String → Action Node ReadReply
    unfolding confirm_leadership lift_internal
    read_here key = do confirm_leadership; value ← lift_internal (get key); found_value value

    unfoldable pub read : Bool → (String → Result ReadReply) → String → Action Node ReadReply
    unfolding routed read_here
    read was_forwarded peer_answer key = routed was_forwarded key peer_answer (read_here key)
