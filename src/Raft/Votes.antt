-- ===== src/Raft/Votes.antt =====
-- The vote of a node in each term, in memory and on disk (`currentTerm`, `votedFor` of
-- internal/raft and their rows in `metadata`): how the handlers may change it.
pub mod Frame
pub mod Stores
pub mod Handlers
pub mod Logs
pub mod Leader
pub mod Granted
pub mod Safety
