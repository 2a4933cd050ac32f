-- ===== src/Raft/Acknowledged.antt =====
-- What an answer to a client says (`propose` and `waitForCommit` of internal/raft/client.go).
use log_replicator_raft.Common.{
  ℕ, ◌≤◌, ◌≡◌, refl, ap, Bool, true, false, none, some, List, [], ◌∷◌, arith, leb, ◌==◌, not, ◌||◌,
  if◌then◌else◌,
}
use log_replicator_raft.Common.Action.{
  Result, ok, err, status, deadline_exceeded, canceled, resume, Action, Done, gets, ◌>>◌,
}
use log_replicator_raft.Storage.Rows.{Entry}
use log_replicator_raft.Raft.Types.{Node}
use log_replicator_raft.Raft.Node.{internally, is_leader}
use log_replicator_raft.Raft.Command.{Codec, Command, encode}
use log_replicator_raft.Raft.Election.{signal_replication}
use log_replicator_raft.Raft.Client.{
  not_leader_error, WriteReply, Wake, tick, expired, cancelled, append_client_entry, looked,
  wait_for_commit, propose,
}
use log_replicator_raft.Raft.Votes.Granted.{bind-Ensures, Always, bind-Always, ok-injective}

module _ (codec : Codec) (between : Action Node Done) where
  abbrev Reached : ℕ → Result Done × Node → Type 0
  Reached index x = x.0 ≡ ok tt → index ≤ x.1.commit_index

  looked-Reached :
      (index term : ℕ) (n : Node) (rest : Result Done × Node)
      → Reached index rest
      → Reached index (elim (looked codec index term n) [ some r ↦ (r, n) | none ↦ rest ])
  looked-Reached index term n rest h =
      on (leb index n.commit_index) refl (not (is_leader n.role) || not (n.current_term == term))
    where
      on :
          (b : Bool)
          → leb index n.commit_index ≡ b
          → (c : Bool)
          → Reached index
              (elim (if b
                then some (ok tt)
                else if c
                then some (err (not_leader_error n.leader_id))
                else none) [ some r ↦ (r, n) | none ↦ rest ])
      on true p c e = ground arith
      on false p true e = absurd (ground arith)
      on false p false e = h e

  wait_for_commit-Reached :
      (index term : ℕ) (wakes : List Wake) (n : Node)
      → Reached index (wait_for_commit codec between index term wakes n)
  unfolding wait_for_commit
  wait_for_commit-Reached index term [] n =
      looked-Reached index term n (err (status deadline_exceeded), n) (λ e. absurd (ground arith))
  wait_for_commit-Reached index term (expired ∷ wakes) n =
      looked-Reached index term n (err (status deadline_exceeded), n) (λ e. absurd (ground arith))
  wait_for_commit-Reached index term (cancelled ∷ wakes) n =
      looked-Reached index term n (err (status canceled), n) (λ e. absurd (ground arith))
  wait_for_commit-Reached index term (tick ∷ wakes) n =
      looked-Reached index term n ((between >> wait_for_commit codec between index term wakes) n)
        (polled (between n) (wait_for_commit-Reached index term wakes))
    where
      polled :
          (x : Result Done × Node)
          → ((n : Node) → Reached index (wait_for_commit codec between index term wakes n))
          → Reached index (resume x.0 (λ _. wait_for_commit codec between index term wakes) x.1)
      polled (ok d, n') h = h n'
      polled (err x, n') h = λ e. absurd (ground arith)

  abbrev IsCommitted : WriteReply → Node → Type 0
  IsCommitted r n = r.index ≤ n.commit_index

  answered-Always :
      (entry : Entry) (term : ℕ) (wakes : List Wake)
      → Always IsCommitted (do
        wait_for_commit codec between entry.index term wakes
        gets (λ n. record { leader_id = n.id; index = entry.index; term = term }))
  answered-Always entry term wakes = record {
    from = λ n.
        bind-Ensures (wait_for_commit codec between entry.index term wakes)
          (λ _. gets (λ n. record { leader_id = n.id; index = entry.index; term = term })) n
          (λ d e. record {
            at = λ r q.
                let reached = wait_for_commit-Reached entry.index term wakes n e in
                let index = ap (λ (r : WriteReply). r.index) (ok-injective q) in ground arith;
          });
  }

  propose-Always :
      (wakes : List Wake) (cmd : Command) → Always IsCommitted (propose codec between wakes cmd)
  unfolding propose
  propose-Always wakes cmd = bind-Always (internally (λ n. (encode codec cmd, n))) (λ payload.
      bind-Always (append_client_entry codec payload) (λ p.
        bind-Always signal_replication
          (λ _. bind-Always between (λ _. answered-Always p.0 p.1 wakes))))

  -- A write is answered as done only when the commit index has reached the index of the answer.
  pub propose-commit_index :
      (wakes : List Wake) (cmd : Command) (n : Node) (r : WriteReply)
      → (propose codec between wakes cmd n).0 ≡ ok r
      → r.index ≤ (propose codec between wakes cmd n).1.commit_index
  propose-commit_index wakes cmd n r e = ((propose-Always wakes cmd).from n).at r e
