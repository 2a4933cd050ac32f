-- ===== src/Raft.antt =====
-- Consensus (internal/raft): the state of a node, its handlers, each run under the node's mutex as
-- one action, and the theorems about them.
pub mod Types
pub mod Command
pub mod Node
pub mod Election
pub mod Follower
pub mod Replication
pub mod Sender
pub mod Client
pub mod Inspect
pub mod Routing
pub mod Lifecycle
pub mod Machine
pub mod Mapping
pub mod Quorum
pub mod Elected
pub mod Yields
pub mod Silence
pub mod Fresh
pub mod Out
pub mod Standing
pub mod Tally
pub mod Acknowledged
pub mod Matching
pub mod Merged
pub mod Intact
pub mod Storing
pub mod Fuel
pub mod Quiet
pub mod Stall
pub mod Refusal
pub mod Offer
pub mod Livelock
pub mod Holds
pub mod Apply
pub mod Commit
pub mod Complete
pub mod Votes
