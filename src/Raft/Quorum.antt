-- ===== src/Raft/Quorum.antt =====
-- Majorities and election timeouts (`majorityLocked` and `resetElectionDeadlineLocked` of
-- internal/raft/node.go).
use log_replicator_raft.Common.{
  ℕ, ◌+◌, ◌-◌, ◌≤◌, ◌<◌, ◌≡◌, String, Bool, ◌&&◌, List, [], ◌∷◌, length, arith, if◌then◌else◌,
}
use native.Mathlib.Nat.{mod-lt}
use log_replicator_raft.Raft.Types.{Node, Peer}
use log_replicator_raft.Raft.Node.{majority, reset_election_deadline, drawn}

-- How many of the members said yes.
unfoldable pub count : (String → Bool) → List String → ℕ
count votes [] = 0
count votes (m ∷ members) = let rest = count votes members in if votes m then rest + 1 else rest

abbrev pub both : (String → Bool) → (String → Bool) → String → Bool
both votes votes' m = votes m && votes' m

counts-le :
    (votes votes' : String → Bool) (members : List String)
    → count votes members + count votes' members
      ≤ length members + count (both votes votes') members
unfolding count
counts-le votes votes' [] = ground arith
counts-le votes votes' (m ∷ members) = let rest = counts-le votes votes' members in ground arith

-- Two majorities of the same members have a member in common.
pub majority_overlap :
    (peers : List Peer) (members : List String) (votes votes' : String → Bool)
    → length members ≡ length peers + 1
    → majority peers ≤ count votes members
    → majority peers ≤ count votes' members
    → 1 ≤ count (both votes votes') members
unfolding majority
majority_overlap peers members votes votes' all h k =
    let c = counts-le votes votes' members in ground arith

-- The next election is due after at least the shorter and before the longer of the two timeouts,
-- when the second is longer.
pub reset_election_deadline-bounds :
    (n : Node)
    → n.election_min < n.election_max
    → (n.clock + n.election_min ≤ (reset_election_deadline n).1.election_deadline)
      × ((reset_election_deadline n).1.election_deadline < n.clock + n.election_max)
unfolding reset_election_deadline
reset_election_deadline-bounds n h =
    let d = drawn-lt (n.election_max - n.election_min) n.draws (ground arith) in ground arith
  where
    drawn-lt : (window : ℕ) (draws : List ℕ) → 0 < window → drawn window draws < window
    drawn-lt window [] h = h
    drawn-lt window (d ∷ rest) h = mod-lt d h
