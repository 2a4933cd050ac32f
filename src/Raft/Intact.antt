-- ===== src/Raft/Intact.antt =====
-- The invariant of the tables of Storage.Intact over the life of a node (internal/raft): the rules for parts
-- of handlers, the handlers, and the node.
pub mod Rules
pub mod Commits
pub mod Handlers
pub mod Entries
pub mod Stored
pub mod Requests
pub mod Installs
pub mod Life
