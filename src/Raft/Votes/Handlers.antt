-- ===== src/Raft/Votes/Handlers.antt =====
-- Every handler keeps the vote in memory ahead of the one on disk, and only advances both.
use log_replicator_raft.Common.{
  ℕ, ◌+◌, ◌<◌, ◌^◌, String, Bool, true, false, ◌≡◌, refl, ◌⊎◌, not, ◌||◌, same→eq, none, arith, ltb,
  if◌then◌else◌, inr,
}
use log_replicator_raft.Common.Action.{pure, modify, ◌>>=◌, ◌>>◌}
use log_replicator_raft.Storage.Store.{save_term_vote, last_index_and_term}
use log_replicator_raft.Storage.Spec.{with_term_vote}
use log_replicator_raft.Storage.Methods.{save_term_vote-Refines}
use log_replicator_raft.Raft.Types.{Node, follower, VoteRequest}
use log_replicator_raft.Raft.Node.{
  is_leader, lift, this, lift_internal, ignoring, recover, adopt_term, step_down,
  observe_higher_term,
}
use log_replicator_raft.Raft.Election.{
  voted_for_someone_else, up_to_date, refuse, grant, request_vote, become_candidate, promoted,
  announce, candidacy_of,
}
use log_replicator_raft.Raft.Votes.Frame.{
  IsAhead, Moves, Same-Moves, Moves-trans, IsFrame, IsVoteSafe, IsFrame-IsVoteSafe, Moves-bind,
  bind-IsFrame, bind-IsVoteSafe, pure-IsFrame, gets-IsFrame, modify-IsFrame, Same-refl,
  if-IsVoteSafe, this-IsVoteSafe, when-IsVoteSafe, internally-IsFrame,
}
use log_replicator_raft.Raft.Votes.Stores.{
  last_index_and_term-IsFrame, publish_state-IsFrame, reset_election_deadline-IsFrame,
  persist-Moves,
}

adopt_term-IsVoteSafe : (term : ℕ) → IsVoteSafe (adopt_term term)
unfolding adopt_term ignoring lift with_term_vote
adopt_term-IsVoteSafe term = record {
  at = λ n a.
      let o = (save_term_vote-Refines term "").outcome n.store in
      record { ahead = ground arith; memory = ground arith; disk = ground arith };
}

-- A write to fields other than term, vote and store.
follower_of-IsFrame :
    (leader_id : String)
    → IsFrame (modify (λ n. record n { role = follower; leader_id = leader_id }))
follower_of-IsFrame leader_id =
    modify-IsFrame _
      (λ n. record { term = refl; vote = refl; stored_term = refl; stored_vote = refl })

ruleset frame_rules = (
  bind-IsFrame, pure-IsFrame, gets-IsFrame, publish_state-IsFrame, reset_election_deadline-IsFrame,
)

ruleset vote_rules =
    (frame_rules, IsFrame-IsVoteSafe, bind-IsVoteSafe, if-IsVoteSafe, when-IsVoteSafe)

last_internally-IsFrame : IsFrame (lift_internal last_index_and_term)
unfolding lift_internal
last_internally-IsFrame = internally-IsFrame last_index_and_term-IsFrame

pub step_down-IsVoteSafe : (term : ℕ) (leader_id : String) → IsVoteSafe (step_down term leader_id)
unfolding step_down
step_down-IsVoteSafe term leader_id =
    search (vote_rules, adopt_term-IsVoteSafe, follower_of-IsFrame) depth 8

pub observe_higher_term-IsVoteSafe : (term : ℕ) → IsVoteSafe (observe_higher_term term)
unfolding observe_higher_term
observe_higher_term-IsVoteSafe term = search (vote_rules, step_down-IsVoteSafe) depth 8

vote_is_free : (v c : String) → voted_for_someone_else v c ≡ false → (v ≡ "") ⊎ (c ≡ v)
vote_is_free v c h = ground (arith, same→eq v "", same→eq v c)

-- Memory may take the vote of a candidate unless it holds another one.
vote-Moves :
    (n : Node) (c : String)
    → IsAhead n
    → voted_for_someone_else n.voted_for c ≡ false
    → Moves n (record n { voted_for = c })
vote-Moves n c a h =
    let free = vote_is_free n.voted_for c h in
    record { ahead = ground arith; memory = ground arith; disk = inr (refl, inr refl) }

persist_internally-Moves :
    (n : Node) → IsAhead n → Moves n (lift_internal (save_term_vote n.current_term n.voted_for) n).1
unfolding lift_internal
persist_internally-Moves n a = persist-Moves n a

grant-Moves :
    (req : VoteRequest) (n : Node)
    → IsAhead n
    → voted_for_someone_else n.voted_for req.candidate_id ≡ false
    → Moves n (grant req n).1
unfolding grant
grant-Moves req n a h =
    let n' : Node = record n { voted_for = req.candidate_id } in
    let voted = vote-Moves n req.candidate_id a h in
    Moves-trans voted (
      Moves-bind (lift_internal (save_term_vote n'.current_term n'.voted_for)) n'
        (persist_internally-Moves n' voted.ahead) (λ _. search vote_rules depth 8))

decide-IsVoteSafe :
    (req : VoteRequest) (index term : ℕ)
    → IsVoteSafe (do
      n ← this
      if voted_for_someone_else n.voted_for req.candidate_id || not (up_to_date req index term)
          then refuse
          else grant req)
decide-IsVoteSafe req index term = record {
  at = λ n a.
      on n a (voted_for_someone_else n.voted_for req.candidate_id) refl
        (not (up_to_date req index term));
}
  where
    on :
        (n : Node)
        → IsAhead n
        → (b : Bool) → voted_for_someone_else n.voted_for req.candidate_id ≡ b
        → (c : Bool) → Moves n ((if b || c then refuse else grant req) n).1
    on n a true e c = Same-Moves a (Same-refl n)
    on n a false e true = Same-Moves a (Same-refl n)
    on n a false e false = grant-Moves req n a e

pub request_vote-IsVoteSafe : (req : VoteRequest) → IsVoteSafe (request_vote req)
unfolding request_vote
request_vote-IsVoteSafe req = this-IsVoteSafe (λ n.
    if-IsVoteSafe (ltb req.term n.current_term) {m = refuse} (IsFrame-IsVoteSafe (gets-IsFrame _)) (
      bind-IsVoteSafe
        (when-IsVoteSafe (ltb n.current_term req.term) (step_down-IsVoteSafe req.term ""))
        (λ _.
          bind-IsVoteSafe (IsFrame-IsVoteSafe last_internally-IsFrame)
            (λ p. decide-IsVoteSafe req p.0 p.1))))

-- A new candidacy is a later term, as long as the term does not wrap around.
promoted-Moves : (n : Node) → IsAhead n → n.current_term + 1 < 2 ^ 64 → Moves n (promoted n)
promoted-Moves n a fits = record {
  ahead = ground arith;
  memory = ground arith;
  disk = inr (refl, inr refl);
}

pub candidacy_of-IsFrame : (n : Node) → IsFrame (candidacy_of n)
unfolding candidacy_of
candidacy_of-IsFrame n = search (frame_rules, last_index_and_term-IsFrame) depth 8

announce-IsVoteSafe : IsVoteSafe announce
unfolding announce
announce-IsVoteSafe = bind-IsVoteSafe (IsFrame-IsVoteSafe reset_election_deadline-IsFrame) (λ _.
    record {
      at = λ n a.
          Moves-bind (lift (save_term_vote n.current_term n.voted_for)) n (persist-Moves n a)
            (λ _. IsFrame-IsVoteSafe (candidacy_of-IsFrame n));
    })

pub become_candidate-Moves :
    (n : Node) → IsAhead n → n.current_term + 1 < 2 ^ 64 → Moves n (become_candidate n).1
unfolding become_candidate
become_candidate-Moves n a fits = by_role (is_leader n.role)
  where
    by_role :
        (b : Bool)
        → Moves n ((if b then pure none else recover none (do modify promoted; announce)) n).1
    by_role true = Same-Moves a (Same-refl n)
    by_role false =
        let p = promoted-Moves n a fits in
        Moves-trans p (announce-IsVoteSafe.at (promoted n) p.ahead)
