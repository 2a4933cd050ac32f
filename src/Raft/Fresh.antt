-- ===== src/Raft/Fresh.antt =====
-- Reads of a leader (`Read`, `confirmLeadership` and `replicateAll` of internal/raft/client.go and
-- replication.go).
use log_replicator_raft.Common.{
  ℕ, ◌+◌, ◌≤◌, String, Bool, true, false, ◌≡◌, refl, List, [], ◌∷◌, not, ltb, arith, if◌then◌else◌,
}
use log_replicator_raft.Common.Action.{
  Result, ok, err, Action, Done, status, unavailable, fail, pure, resume, ◌>>=◌,
}
use log_replicator_raft.Storage.Store.{get}
use log_replicator_raft.Raft.Types.{Node, Peer}
use log_replicator_raft.Raft.Command.{Codec}
use log_replicator_raft.Raft.Node.{is_leader, majority, lift_internal}
use log_replicator_raft.Raft.Replication.{max_append_rounds}
use log_replicator_raft.Raft.Sender.{Network, replicate_rounds}
use log_replicator_raft.Raft.Client.{
  ReadReply, replicate_all, confirm_leadership, read_here, not_leader_error, found_value,
}
use log_replicator_raft.Raft.Yields.{Yields, pure-Yields, known-Yields, bind-Yields}
use log_replicator_raft.Raft.Silence.{IsSilent, Refused, replicate_rounds-Yields}

-- How many of the peers may answer.
unfoldable pub answering : (String → Bool) → List Peer → ℕ
answering answers [] = 0
answering answers (p ∷ peers) =
    let rest = answering answers peers in if answers p.id then rest + 1 else rest

module _ (codec : Codec) (net : String → Network) (answers : String → Bool)
    (silent : (peer : String) → answers peer ≡ false → IsSilent (net peer)) where
  replicate_all-Yields :
      (peers : List Peer) (in_sync : ℕ)
      → Yields (λ c. c ≤ in_sync + answering answers peers) (replicate_all codec net in_sync peers)
  unfolding replicate_all answering
  replicate_all-Yields [] in_sync = pure-Yields in_sync (omega arith)
  replicate_all-Yields (p ∷ peers) in_sync =
      on (answers p.id) refl (λ k. replicate_all-Yields peers k)
    where
      weaker : (a b : ℕ) (m : Action Node ℕ) → a ≤ b → Yields (λ c. c ≤ a) m → Yields (λ c. c ≤ b) m
      weaker a b m le h = record { at = λ n c e. let bound = h.at n c e in omega arith }

      on :
          (b : Bool)
          → answers p.id ≡ b
          → ((k : ℕ)
              → Yields (λ c. c ≤ k + answering answers peers) (replicate_all codec net k peers))
          → Yields
              (λ c.
                c ≤ in_sync + (if b then answering answers peers + 1 else answering answers peers))
              (replicate_rounds codec (net p.id) p.id max_append_rounds >>= λ reached.
                replicate_all codec net (if reached then in_sync + 1 else in_sync) peers)
      on true e rest =
          bind-Yields (replicate_rounds codec (net p.id) p.id max_append_rounds) (λ reached.
            weaker _ _ _ (ground arith) (rest (if reached then in_sync + 1 else in_sync)))
      on false e rest =
          known-Yields Refused
            (replicate_rounds-Yields codec (net p.id) p.id (silent p.id e) max_append_rounds)
            (λ reached r.
              weaker _ _ _ (ground (arith, r)) (rest (if reached then in_sync + 1 else in_sync)))

  -- What a confirmed leadership says of the node after the round.
  abbrev Confirmed : Node → Node → Type 0
  Confirmed n n' = (is_leader n'.role ≡ true) × (majority n'.peers ≤ 1 + answering answers n.peers)

  confirmed :
      (n : Node)
      → (confirm_leadership codec net n).0 ≡ ok tt
      → Confirmed n (confirm_leadership codec net n).1
  unfolding confirm_leadership
  confirmed n = on (replicate_all codec net 1 n.peers n) ((replicate_all-Yields n.peers 1).at n)
    where
      decide : ℕ → Action Node Done
      decide in_sync n =
          (if not (is_leader n.role)
              then fail (not_leader_error n.leader_id)
              else if ltb in_sync (majority n.peers)
              then fail (status unavailable)
              else pure tt)
            n

      passed :
          (c : ℕ) (k : Node) (b : Bool)
          → is_leader k.role ≡ b
          → (d : Bool) → ltb c (majority k.peers) ≡ d
          → c ≤ 1 + answering answers n.peers
          → ((if not b
                then fail (not_leader_error k.leader_id)
                else if d
                then fail (status unavailable)
                else pure tt)
              k).0
            ≡ ok tt
          → Confirmed n
              ((if not b
                  then fail (not_leader_error k.leader_id)
                  else if d
                  then fail (status unavailable)
                  else pure tt)
                k).1
      passed c k true e false e' bound h = (e, ground arith)
      passed c k true e true e' bound h = absurd (cc)
      passed c k false e d e' bound h = absurd (cc)

      on :
          (x : Result ℕ × Node)
          → ((c : ℕ) → x.0 ≡ ok c → c ≤ 1 + answering answers n.peers)
          → (resume x.0 decide x.1).0 ≡ ok tt
          → Confirmed n (resume x.0 decide x.1).1
      on (ok c, k) bound e =
          passed c k (is_leader k.role) refl (ltb c (majority k.peers)) refl (bound c refl) e
      on (err x, k) bound e = absurd (cc)

  -- A read is answered only when the node still leads after the round of heartbeats and the peers
  -- that were not cut off from it are, with itself, a majority.
  pub read_here_fresh :
      (key : String) (n : Node) (r : ReadReply)
      → (read_here codec net key n).0 ≡ ok r
      → (is_leader (confirm_leadership codec net n).1.role ≡ true)
        × (majority (confirm_leadership codec net n).1.peers ≤ 1 + answering answers n.peers)
  unfolding read_here
  read_here_fresh key n r e = on (confirm_leadership codec net n) (confirmed n) e
    where
      on :
          (x : Result Done × Node)
          → (x.0 ≡ ok tt → Confirmed n x.1)
          → (resume x.0
              (λ _. do value ← lift_internal (get key); found_value codec net value)
              x.1).0
            ≡ ok r
          → Confirmed n x.1
      on (ok d, k) h e = h refl
      on (err x, k) h e = absurd (cc)
