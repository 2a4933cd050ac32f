-- ===== src/Raft/Node.antt =====
-- State changes that several handlers share (internal/raft/node.go), and the ways in which they
-- treat a failing store: as an answer with code Internal, as a value, or not at all.
use log_replicator_raft.Common.{
  ℕ, ◌+◌, ◌-◌, ◌/◌, ◌%◌, String, Bool, true, false, List, [], ◌∷◌, length, ltb, if◌then◌else◌,
}
use log_replicator_raft.Common.Action.{
  Result, ok, err, status, internal, Action, Done, pure, gets, modify, ◌>>=◌, ◌>>◌,
}
use log_replicator_raft.Storage.Statement.{Store}
use log_replicator_raft.Storage.Store.{save_term_vote, last_index_and_term, snapshot_index_term}
use log_replicator_raft.Raft.Types.{Node, Role, follower, leader, Peer}

module _ {A : Type 0} where
  -- A method of the store, called by the node.
  unfoldable pub lift : Action Store A → Action Node A
  lift m n = let (r, s) = m n.store in (r, record n { store = s })

  -- `internalError`: the client sees code Internal.
  abbrev pub as_internal : Result A → Result A
  as_internal (ok a) = ok a
  as_internal (err e) = err (status internal)

  abbrev pub internally : Action Node A → Action Node A
  internally m n = let (r, n') = m n in (as_internal r, n')

  unfoldable pub lift_internal : Action Store A → Action Node A
  unfolding lift
  lift_internal m = internally (lift m)

  abbrev pub or_value : A → Result A → Result A
  or_value a (ok b) = ok b
  or_value a (err e) = ok a

  -- An error is logged and a value stands for it.
  unfoldable pub recover : A → Action Node A → Action Node A
  recover a m n = let (r, n') = m n in (or_value a r, n')

unfoldable pub ignoring : Action Node Done → Action Node Done
unfolding recover
ignoring m = recover tt m

abbrev pub when : Bool → Action Node Done → Action Node Done
when true m = m
when false m = pure tt

abbrev pub this : Action Node Node
this = gets (λ n. n)

abbrev pub is_leader : Role → Bool
is_leader leader = true
is_leader _ = false

abbrev pub is_follower : Role → Bool
is_follower follower = true
is_follower _ = false

-- `publishStateLocked` as far as the node's state goes: it reads two positions and sets gauges.
unfoldable pub publish_state : Action Node Done
unfolding ignoring lift
publish_state = ignoring do lift last_index_and_term; lift snapshot_index_term; pure tt

-- `rand.Int63n(window)`, from the coming draws.
abbrev pub drawn : ℕ → List ℕ → ℕ
drawn window [] = 0
drawn window (d ∷ rest) = d % window

abbrev pub later_draws : List ℕ → List ℕ
later_draws [] = []
later_draws (d ∷ rest) = rest

unfoldable pub reset_election_deadline : Action Node Done
reset_election_deadline n =
    if ltb n.election_min n.election_max
    then (
      ok tt,
      record n {
        election_deadline =
            n.clock + (n.election_min + drawn (n.election_max - n.election_min) n.draws);
        draws = later_draws n.draws;
      },
    )
    else (ok tt, record n { election_deadline = n.clock + n.election_min })

-- `electionDue`: the deadline passed and the node does not lead.
unfoldable pub election_due : Node → Bool
election_due n = if is_leader n.role then false else ltb n.election_deadline n.clock

-- The first branch of `stepDownLocked`: an error of the store is only logged.
unfoldable pub adopt_term : ℕ → Action Node Done
unfolding ignoring lift
adopt_term term n =
    if ltb n.current_term term
    then ignoring (lift (save_term_vote term "")) (record n { current_term = term; voted_for = "" })
    else (ok tt, n)

unfoldable pub step_down : ℕ → String → Action Node Done
unfolding adopt_term
step_down term leader_id = do
  adopt_term term
  modify (λ n. record n { role = follower; leader_id = leader_id })
  reset_election_deadline
  publish_state

-- The nodes, this one included, that have to agree.
unfoldable pub majority : List Peer → ℕ
majority peers = (length peers + 1) / 2 + 1

-- `observeHigherTerm`
unfoldable pub observe_higher_term : ℕ → Action Node Bool
observe_higher_term term = do
  n ← this
  if ltb n.current_term term then (do step_down term ""; pure true) else pure false

-- `Leader`: the leader that this node knows, and whether it is the node itself.
unfoldable pub leader_of : Node → String × Bool
leader_of n = if is_leader n.role then (n.id, true) else (n.leader_id, false)
