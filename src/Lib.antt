-- ===== src/Lib.antt =====
-- A replicated key-value log: internal/raft, internal/storage and the code around them.
--
-- Each node of a cluster keeps a log of commands in SQLite and applies the committed ones to a map
-- from keys to values. One node leads: it takes the writes, sends its log to the others and commits
-- what a majority holds. The program's parts and the modules that model them:
--
-- - Common: shared names, Boolean tests on native numbers and texts, decimals, and `Action S A`, a
--   computation that reads and changes a state S and returns a value or an error (Go's `(T,
--   error)` results).
-- - Storage (internal/storage/storage.go). Rows holds the rows of the tables and the SQL
--   statements on them, Maps the Go maps and what JSON objects become, Statement the calls of the
--   driver and `inTx`, Store one function for each method of the Go type `Store`. Spec says what
--   each method promises as a function of the tables, Refine relates a method to it, Methods and
--   Atomic hold the theorems, Roundtrip is about snapshots, Restored about the rows that a
--   snapshot restores, Contiguous about logs without gaps, Keys about the primary key of the map,
--   and Intact about both.
-- - Raft.Types, Raft.Node, Raft.Lifecycle (internal/raft/node.go, options.go): the fields of the
--   Go struct `Node` that its mutex guards, the helpers that run under the mutex, and `New`.
-- - Raft.Election (internal/raft/election.go), Raft.Follower (follower.go), Raft.Replication and
--   Raft.Sender (replication.go), Raft.Client and Raft.Inspect (client.go), Raft.Command
--   (command.go): the handlers of the calls between nodes and of clients, one function for each
--   Go function, in snake case.
-- - Raft.Votes: the votes of a node over its whole life, restarts included. Raft.Commit and
--   Raft.Complete: the commit rule. Raft.Apply and Raft.Fuel: the loop that applies committed
--   entries. Raft.Machine and Raft.Mapping: the effect of commands on the state machine.
--   Raft.Acknowledged: the answers to writes. Raft.Quorum: majorities and timeouts. Raft.Stall,
--   Raft.Refusal, Raft.Offer and Raft.Livelock: rounds of replication between a leader and a
--   follower whose logs diverge. Raft.Quiet: handlers over a store without errors. Raft.Holds:
--   relations that handlers keep. Raft.Matching, Raft.Merged and Raft.Storing: the log of a
--   follower after a request of the leader. Raft.Intact: the log and the map of a node over its
--   whole life. Raft.Out, Raft.Standing and Raft.Tally: the count of votes. Raft.Elected: the
--   candidates of one term in a cluster. Raft.Yields, Raft.Silence and Raft.Fresh: calls to peers
--   that do not answer, and reads. Raft.Routing: calls to a node that does not lead.
-- - Config (internal/config/config.go). Text and Numbers write out what the file uses of Go's
--   strings, strconv, time and log/slog, Peers is `parsePeers`, Env is `FromEnv` with the readers
--   of single variables; an int64 is kept as its two's complement. Valid, Sensible, Durations and
--   Shared hold the theorems.
-- - Raftctl (cmd/raftctl/main.go). Run chooses what a command asks for, Compare is the comparison
--   of the nodes' logs over the answers that they gave; Go goes over a map in any order, so each
--   loop takes an order as a parameter. Texts, Agreement, Range and Targets hold the
--   theorems.
-- - Witnesses: concrete inputs.
--
-- How the model corresponds to the code:
--
-- - SQLite is not part of the repository. A `Store` is its tables and the script `faults` of what
--   the driver answers next: `true` is an error. A failed statement changes nothing, and a
--   transaction that fails is rolled back, as `inTx` relies on. The SQL texts of the program are
--   translated to functions on the tables; `log_entries` is kept in the order of its primary key.
-- - encoding/json is a parameter: `Codec` for commands, `StateCodec` for the state machine. Both
--   directions may refuse. `StateCodec` gives the members of an object in the order of the text,
--   where a key may come again and the order says nothing; `as_map` makes a map of them as Go
--   does, in which the last value of a key counts.
-- - Handlers run under the mutex, so each is one step. Where the code releases it, in
--   `sendEntries`, `sendSnapshot` and `startElection`, what the peer answers and what other
--   handlers do meanwhile is a parameter (`Network`, `between`); Raft.Votes.Safety takes the
--   critical sections as separate steps.
-- - uint64 additions of the handlers wrap around (`succ64`), other 64-bit values are native
--   numbers. The loop of `scan_commit` counts without wrapping, as the Go loop does while the
--   commit index and the last index of the log are below 2^64 - 1. Indexes go to SQLite as
--   `int64(index)`, which the model drops: rows are in the order of the code for indexes below
--   2^63. Election timeouts are natural numbers of nanoseconds, as for every configuration of
--   positive timeouts.
-- - Loops are structural recursion. `apply_loop` runs on fuel `commit_index - last_applied`: a
--   round of the Go loop raises `last_applied` by at least one or returns. `replicate_rounds`
--   counts the rounds that `maxAppendRounds` allows, `scan_commit` the indexes that are left.
--
-- Not modelled: metrics and log lines, gRPC connections and their timeouts, goroutine scheduling,
-- the opening of the database and its schema, column conversions of the driver, error texts, the
-- generated message code (internal/raftpb), the server process (cmd/raftnode), and the flags and the
-- printing of the command line client.
pub mod Common
pub mod Storage
pub mod Raft
pub mod Config
pub mod Raftctl
pub mod Witnesses
