-- ===== src/Raft/Out.antt =====
-- Parts of an election (internal/raft/election.go and node.go) on nodes that do not lead.
use log_replicator_raft.Common.{
  ℕ, String, true, false, ◌≡◌, refl, none, ltb, arith, Bool-cases, inl, inr,
}
use log_replicator_raft.Common.Action.{modify}
use log_replicator_raft.Storage.Store.{save_term_vote, last_index_and_term, snapshot_index_term}
use log_replicator_raft.Raft.Types.{Node, follower}
use log_replicator_raft.Raft.Node.{
  is_leader, observe_higher_term, step_down, adopt_term, reset_election_deadline, publish_state,
  lift, ignoring,
}
use log_replicator_raft.Raft.Election.{become_candidate, announce, candidacy_of, promoted}
use log_replicator_raft.Raft.Holds.{
  IsLoose, Holds, pure-Holds, lift-Holds, recover-Holds, bind-Holds, this-Holds, if-Holds,
}

-- A node that does not lead is left so.
abbrev StaysOut : Node → Node → Type 0
StaysOut n n' = is_leader n.role ≡ false → is_leader n'.role ≡ false

abbrev pub StaysOut-IsLoose : IsLoose StaysOut
StaysOut-IsLoose = record {
  same = λ n h. h;
  then_ = λ f g h. g (f h);
  stores = λ n s h. h;
  applies = λ n index h. h;
}

adopted :
    (term : ℕ) (n : Node) → is_leader n.role ≡ false → is_leader (adopt_term term n).1.role ≡ false
unfolding adopt_term ignoring lift
adopted term n h = elim (Bool-cases (ltb n.current_term term)) [
  | inl e ↦ rw (e, adopt_term) h
  | inr e ↦ rw (e, adopt_term) h
]

adopt_term-Holds : (term : ℕ) → Holds StaysOut-IsLoose (adopt_term term)
adopt_term-Holds term = record { at = adopted term }

-- An action that sets another role.
demoted-Holds :
    (f : Node → Node)
    → ((n : Node) → is_leader (f n).role ≡ false)
    → Holds StaysOut-IsLoose (modify f)
demoted-Holds f h = record { at = λ n _. h n }

reset-Holds : Holds StaysOut-IsLoose reset_election_deadline
unfolding reset_election_deadline
reset-Holds = record { at = λ n h. ground arith }

publish-Holds : Holds StaysOut-IsLoose publish_state
unfolding publish_state ignoring
publish-Holds = recover-Holds StaysOut-IsLoose tt (
    bind-Holds StaysOut-IsLoose (lift-Holds StaysOut-IsLoose last_index_and_term) λ _.
      bind-Holds StaysOut-IsLoose (lift-Holds StaysOut-IsLoose snapshot_index_term)
        λ _. pure-Holds StaysOut-IsLoose tt)

step_down-Holds :
    (term : ℕ) (leader_id : String) → Holds StaysOut-IsLoose (step_down term leader_id)
unfolding step_down
step_down-Holds term leader_id = bind-Holds StaysOut-IsLoose (adopt_term-Holds term) λ _.
    bind-Holds StaysOut-IsLoose
      (demoted-Holds (λ n. record n { role = follower; leader_id = leader_id }) (λ n. refl))
      λ _. bind-Holds StaysOut-IsLoose reset-Holds λ _. publish-Holds

pub observe-Holds : (term : ℕ) → Holds StaysOut-IsLoose (observe_higher_term term)
unfolding observe_higher_term
observe-Holds term = this-Holds StaysOut-IsLoose (λ n.
    if-Holds StaysOut-IsLoose (ltb n.current_term term)
      (bind-Holds StaysOut-IsLoose (step_down-Holds term "")
        (λ _. pure-Holds StaysOut-IsLoose true))
      (pure-Holds StaysOut-IsLoose false))

candidacy_of-Holds : (n : Node) → Holds StaysOut-IsLoose (candidacy_of n)
unfolding candidacy_of
candidacy_of-Holds n =
    bind-Holds StaysOut-IsLoose (lift-Holds StaysOut-IsLoose last_index_and_term)
      λ p. bind-Holds StaysOut-IsLoose publish-Holds λ _. pure-Holds StaysOut-IsLoose _

announce-Holds : Holds StaysOut-IsLoose announce
unfolding announce
announce-Holds = bind-Holds StaysOut-IsLoose reset-Holds λ _. this-Holds StaysOut-IsLoose λ n.
    bind-Holds StaysOut-IsLoose
      (lift-Holds StaysOut-IsLoose (save_term_vote n.current_term n.voted_for))
      λ _. candidacy_of-Holds n

pub become_candidate-Holds : Holds StaysOut-IsLoose become_candidate
unfolding become_candidate
become_candidate-Holds = this-Holds StaysOut-IsLoose λ n.
    if-Holds StaysOut-IsLoose (is_leader n.role) (pure-Holds StaysOut-IsLoose none) (
      recover-Holds StaysOut-IsLoose none
        (bind-Holds StaysOut-IsLoose (demoted-Holds promoted (λ n. refl)) λ _. announce-Holds))
