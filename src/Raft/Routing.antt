-- ===== src/Raft/Routing.antt =====
-- Calls of clients that reach a node which does not lead (`leaderClient` of internal/raft/client.go).
use log_replicator_raft.Common.{
  String, Bool, true, false, ◌≡◌, refl, ◌⊎◌, inl, inr, not, same, if◌then◌else◌,
}
use log_replicator_raft.Common.Action.{
  Result, ok, err, Error, status, invalid_argument, unavailable, internal, Action, resume, fail,
  ◌>>=◌,
}
use log_replicator_raft.Raft.Types.{Node}
use log_replicator_raft.Raft.Node.{is_leader}
use log_replicator_raft.Raft.Election.{among}
use log_replicator_raft.Raft.Client.{Route, here, remote, leader_client, not_leader_error, routed}

module _ {A : Type 0} (was_forwarded : Bool) (key : String) (peer_answer : String → Result A)
    (run : Action Node A) (n : Node) where
  -- The answer of a configured peer that the node takes for the leader, or an error of the node.
  abbrev pub Elsewhere : Result A → Type 0
  Elsewhere result =
      ((was_forwarded ≡ false)
        × (among n.leader_id n.peers ≡ true)
        × (result ≡ peer_answer n.leader_id))
      ⊎ ((e : Error) × (result ≡ err e))

  chosen : Result Route → Result A × Node
  chosen route =
      resume route (λ r. elim r [ here ↦ run | remote peer ↦ (λ n. (peer_answer peer, n)) ]) n

  followed :
      (a b c : Bool)
      → was_forwarded ≡ b
      → among n.leader_id n.peers ≡ c
      → (let x = chosen (
            if a
            then err (status unavailable)
            else if b
            then err (not_leader_error n.leader_id)
            else if not c
            then err (status internal)
            else ok (remote n.leader_id)) in
          (x.1 ≡ n) × Elsewhere x.0)
  unfolding chosen
  followed true b c e e' = (refl, inr (_, refl))
  followed false true c e e' = (refl, inr (_, refl))
  followed false false true e e' = (refl, inl (e, e', refl))
  followed false false false e e' = (refl, inr (_, refl))

  not_here :
      is_leader n.role ≡ false
      → ((chosen (leader_client was_forwarded n)).1 ≡ n)
        × Elsewhere (chosen (leader_client was_forwarded n)).0
  unfolding leader_client
  not_here out =
      rw (out, leader_client)
        (followed (same n.leader_id "") was_forwarded (among n.leader_id n.peers) refl refl)

  -- A node that does not lead changes nothing for a call of a client. It answers with an error of its own
  -- or, when nobody passed the call on before, with what the leader that it knows answers, a configured
  -- peer.
  pub routed-Elsewhere :
      is_leader n.role ≡ false
      → ((routed was_forwarded key peer_answer run n).1 ≡ n)
        × Elsewhere (routed was_forwarded key peer_answer run n).0
  unfolding routed leader_client chosen
  routed-Elsewhere out = on (same key "") (not_here out)
    where
      asking : Action Node A
      asking = (λ n. (leader_client was_forwarded n, n)) >>= λ r. elim r [
        | here ↦ run
        | remote peer ↦ (λ n. (peer_answer peer, n))
      ]

      on :
          (b : Bool)
          → ((chosen (leader_client was_forwarded n)).1 ≡ n)
            × Elsewhere (chosen (leader_client was_forwarded n)).0
          → (let x = (if b then fail (status invalid_argument) else asking) n in
              (x.1 ≡ n) × Elsewhere x.0)
      on true h = (refl, inr (_, refl))
      on false h = h
