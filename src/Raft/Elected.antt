-- ===== src/Raft/Elected.antt =====
-- Candidates of one term in a cluster (internal/raft/election.go): the votes in the lives of its members.
use log_replicator_raft.Common.{
  ℕ, ◌+◌, ◌≤◌, String, Bool, true, ◌≡◌, ◌≢◌, sym, ◌∙◌, ◌⊎◌, inl, inr, List, [], ◌∷◌, length, arith,
  Bool-cases,
}
use log_replicator_raft.Raft.Types.{Node, Peer}
use log_replicator_raft.Raft.Node.{majority}
use log_replicator_raft.Raft.Command.{Codec}
use log_replicator_raft.Raft.Quorum.{count, both, majority_overlap}
use log_replicator_raft.Raft.Votes.Granted.{HasVoted}
use log_replicator_raft.Raft.Votes.Safety.{Reach, here, next, same_vote}

module _ (codec : Codec) where
  -- A vote of the term for the candidate, on disk as in memory.
  pub record Holds (c : String) (term : ℕ) (n : Node) : Type 0 where
    pub vote : HasVoted c n
    pub at : n.current_term ≡ term

  -- The node held the vote at some moment of its life.
  unfoldable pub Voted : String → ℕ → {n m : Node} → Reach codec n m → Type 0
  Voted c term {n} here = Holds c term n
  Voted c term {n} {m} (next life s) = Voted c term life ⊎ Holds c term m

  -- The moment of the vote, and the life since then.
  record Since (c : String) (term : ℕ) (m : Node) : Type 0 where
    moment : Node
    held : Holds c term moment
    path : Reach codec moment m

  since :
      (c : String) (term : ℕ) {n m : Node} (life : Reach codec n m)
      → Voted c term life
      → Since c term m
  unfolding Voted
  since c term {n} here v = record { moment = n; held = v; path = here }
  since c term (next life s) (inl v) =
      let past = since c term life v in
      record { moment = past.moment; held = past.held; path = next past.path s }
  since c term {n} {m} (next life s) (inr v) = record { moment = m; held = v; path = here }

  later_vote :
      (c c' : String) (term : ℕ) (m : Node) → c ≢ "" → Since c term m → Holds c' term m → c' ≡ c
  later_vote c c' term m named past v =
      same_vote codec c c' past.held.vote past.path v.vote (v.at ∙ sym past.held.at) named

  one_vote_in_life :
      (c c' : String) (term : ℕ) {n m : Node} (life : Reach codec n m)
      → c ≢ ""
      → c' ≢ ""
      → Voted c term life
      → Voted c' term life
      → c ≡ c'
  unfolding Voted
  one_vote_in_life c c' term {n} here named named' v v' =
      sym (later_vote c c' term n named (record { moment = n; held = v; path = here }) v')
  one_vote_in_life c c' term (next life s) named named' (inl v) (inl v') =
      one_vote_in_life c c' term life named named' v v'
  one_vote_in_life c c' term {n} {m} (next life s) named named' v (inr v') =
      sym (later_vote c c' term m named (since c term (next life s) v) v')
  one_vote_in_life c c' term {n} {m} (next life s) named named' (inr v) v' =
      later_vote c' c term m named' (since c' term (next life s) v') v

  -- A node of the cluster, from its first moment to its last.
  pub record Member : Type 0 where
    pub first : Node
    pub last : Node
    pub life : Reach codec first last

  someone :
      (f : String → Bool) (members : List String)
      → 1 ≤ count f members
      → (m : String) × (f m ≡ true)
  unfolding count
  someone f [] h = absurd (omega arith)
  someone f (m ∷ members) h = elim (Bool-cases (f m)) [
    | inl e ↦ (m, e)
    | inr e ↦ someone f members (ground arith)
  ]

  -- Two candidates of one term that a majority of the members of the cluster voted for are the
  -- same, when both have names, whatever handlers, failing database calls and restarts come in the
  -- lives of the members, candidacies at the largest 64-bit term excepted.
  pub one_winner_per_term :
      (cluster : String → Member) (members : List String) (peers : List Peer) (c c' : String)
      (term : ℕ) (votes votes' : String → Bool)
      → length members ≡ length peers + 1
      → ((m : String) → votes m ≡ true → Voted c term (cluster m).life)
      → ((m : String) → votes' m ≡ true → Voted c' term (cluster m).life)
      → majority peers ≤ count votes members
      → majority peers ≤ count votes' members
      → c ≢ ""
      → c' ≢ ""
      → c ≡ c'
  one_winner_per_term cluster members peers c c' term votes votes' all held held' won won' named
        named' =
      let (m, e) =
        someone (both votes votes') members
          (majority_overlap peers members votes votes' all won won') in
      one_vote_in_life c c' term (cluster m).life named named' (held m (ground (arith, e)))
        (held' m (ground (arith, e)))
