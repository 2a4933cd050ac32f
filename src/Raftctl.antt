-- ===== src/Raftctl.antt =====
-- The command line client (cmd/raftctl/main.go).
pub mod Run
pub mod Compare
pub mod Texts
pub mod Range
pub mod Targets
pub mod Agreement
