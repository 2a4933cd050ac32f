-- ===== src/Raft/Tally.antt =====
-- The count of the votes in `startElection` (internal/raft/election.go).
use log_replicator_raft.Raft.Standing.{become_candidate-majority}
use log_replicator_raft.Raft.Commit.{majority-half}
use log_replicator_raft.Common.{
  length, ◌*◌, ◌<◌, ℕ, ◌+◌, ◌≤◌, Bool, true, false, ◌≡◌, refl, Option, none, some, List, [], ◌∷◌,
  not, leb, arith, if◌then◌else◌,
}
use log_replicator_raft.Common.Action.{Result, ok, err, Action, Done, pure, resume, ◌>>=◌}
use log_replicator_raft.Raft.Types.{Node, VoteReply}
use log_replicator_raft.Raft.Node.{is_leader, observe_higher_term}
use log_replicator_raft.Raft.Election.{
  Candidacy, become_leader, collect, start_election, become_candidate,
}
use log_replicator_raft.Raft.Out.{observe-Holds, become_candidate-Holds}

-- How many replies grant the vote.
unfoldable pub granted : List (Option VoteReply) → ℕ
granted [] = 0
granted (none ∷ replies) = granted replies
granted (some reply ∷ replies) =
    let rest = granted replies in if reply.vote_granted then rest + 1 else rest

module _ (commit between : Action Node Done) where
  -- A candidate that counts votes leads afterwards only when they are a majority, its own included, when
  -- what other handlers do between two replies makes no leader of it.
  pub collect_won :
      ((n : Node) → is_leader n.role ≡ false → is_leader (between n).1.role ≡ false)
      → (round : Candidacy) (votes : ℕ) (replies : List (Option VoteReply)) (n : Node)
      → is_leader n.role ≡ false
      → is_leader (collect commit between round votes replies n).1.role ≡ true
      → round.majority ≤ votes + granted replies
  unfolding collect granted
  collect_won quiet round votes [] n out won = absurd (cc)
  collect_won quiet round votes (none ∷ replies) n out won =
      collect_won quiet round votes replies n out won
  collect_won quiet round votes (some reply ∷ replies) n out won =
      after (between n) (quiet n out) won (λ k o. collect_won quiet round votes replies k o)
        (λ k o. collect_won quiet round (votes + 1) replies k o)
    where
      judged : Bool → Action Node Done
      judged newer =
          if newer
          then pure tt
          else if not reply.vote_granted
          then collect commit between round votes replies
          else if leb round.majority (votes + 1)
          then become_leader commit round.term
          else collect commit between round (votes + 1) replies

      Wins : (Node → Node) → ℕ → Type 0
      Wins f counted =
          (k : Node)
          → is_leader k.role ≡ false
          → is_leader (f k).role ≡ true
          → round.majority ≤ counted + granted replies

      Claim : Type 0
      Claim =
          round.majority
          ≤ votes + (if reply.vote_granted then granted replies + 1 else granted replies)

      chosen :
          (k : Node)
          → is_leader k.role ≡ false
          → is_leader (judged false k).1.role ≡ true
          → Wins (λ k. (collect commit between round votes replies k).1) votes
          → Wins (λ k. (collect commit between round (votes + 1) replies k).1) (votes + 1)
          → Claim
      chosen k out won skip count =
          voted reply.vote_granted (leb round.majority (votes + 1)) refl won
        where
          voted :
              (b c : Bool)
              → leb round.majority (votes + 1) ≡ c
              → is_leader
                  ((if not b
                      then collect commit between round votes replies
                      else if c
                      then become_leader commit round.term
                      else collect commit between round (votes + 1) replies)
                    k).1.role
                ≡ true
              → round.majority ≤ votes + (if b then granted replies + 1 else granted replies)
          voted false c e won = skip k out won
          voted true true e won = ground arith
          voted true false e won = let counted = count k out won in omega arith

      observed :
          (x : Result Bool × Node)
          → is_leader x.1.role ≡ false
          → is_leader (resume x.0 judged x.1).1.role ≡ true
          → Wins (λ k. (collect commit between round votes replies k).1) votes
          → Wins (λ k. (collect commit between round (votes + 1) replies k).1) (votes + 1)
          → Claim
      observed (ok true, k) out won skip count = absurd (cc)
      observed (ok false, k) out won skip count = chosen k out won skip count
      observed (err e, k) out won skip count = absurd (cc)

      after :
          (x : Result Done × Node)
          → is_leader x.1.role ≡ false
          → is_leader (resume x.0 (λ _. observe_higher_term reply.term >>= judged) x.1).1.role
            ≡ true
          → Wins (λ k. (collect commit between round votes replies k).1) votes
          → Wins (λ k. (collect commit between round (votes + 1) replies k).1) (votes + 1)
          → Claim
      after (ok d, k) out won skip count =
          observed (observe_higher_term reply.term k) ((observe-Holds reply.term).at k out) won skip
            count
      after (err e, k) out won skip count = absurd (cc)

  -- A node that stands for election leads afterwards only when its candidacy came back with no
  -- error and the granted replies to it, with its own vote, come from more than half of the nodes
  -- of its cluster, when the node did not lead before and what other handlers do between two
  -- replies makes no leader of it.
  pub start_election_won :
      ((n : Node) → is_leader n.role ≡ false → is_leader (between n).1.role ≡ false)
      → (replies : Candidacy → List (Option VoteReply)) (n : Node) → is_leader n.role ≡ false
      → is_leader (start_election commit between replies n).1.role ≡ true
      → (round : Candidacy) × ((become_candidate n).0 ≡ ok (some round))
        × (length n.peers + 1 < 2 * (1 + granted (replies round)))
  unfolding start_election
  start_election_won quiet replies n out won =
      let (round, made, enough) = on (become_candidate n) (become_candidate-Holds.at n out) won in
      let asked = become_candidate-majority n round made in
      let half = majority-half n.peers (1 + granted (replies round)) in
      (round, made, half.0 (omega arith))
    where
      standing : Option Candidacy → Action Node Done
      standing candidacy = elim candidacy [
        | none ↦ pure tt
        | some round ↦
            if leb round.majority 1
            then become_leader commit round.term
            else collect commit between round 1 (replies round)
      ]

      counted :
          (round : Candidacy) (k : Node) (b : Bool)
          → leb round.majority 1 ≡ b
          → is_leader k.role ≡ false
          → is_leader
              ((if b
                  then become_leader commit round.term
                  else collect commit between round 1 (replies round))
                k).1.role
            ≡ true
          → round.majority ≤ 1 + granted (replies round)
      counted round k true e out won = ground arith
      counted round k false e out won = collect_won quiet round 1 (replies round) k out won

      on :
          (x : Result (Option Candidacy) × Node)
          → is_leader x.1.role ≡ false
          → is_leader (resume x.0 standing x.1).1.role ≡ true
          → (round : Candidacy) × (x.0 ≡ ok (some round))
            × (round.majority ≤ 1 + granted (replies round))
      on (ok none, k) out won = absurd (cc)
      on (ok (some round), k) out won =
          (round, refl, counted round k (leb round.majority 1) refl out won)
      on (err e, k) out won = absurd (cc)
