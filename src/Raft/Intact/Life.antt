-- ===== src/Raft/Intact/Life.antt =====
-- The tables of a node over its whole life (internal/raft), restarts and failing disks included.
use mathlib.Core.Path.{subst}
use log_replicator_raft.Common.{ℕ, ◌+◌, ◌<◌, ◌^◌, ◌≡◌, sym, String, List, arith, same, true}
use log_replicator_raft.Common.Action.{Result, ok, err}
use log_replicator_raft.Storage.Statement.{Store}
use log_replicator_raft.Storage.Store.{current_term_vote, last_applied}
use log_replicator_raft.Storage.Methods.{current_term_vote-Refines, last_applied-Refines}
use log_replicator_raft.Storage.Spec.{last_position}
use log_replicator_raft.Storage.Contiguous.{IsRun}
use log_replicator_raft.Storage.Intact.{IsIntact}
use log_replicator_raft.Raft.Types.{Node}
use log_replicator_raft.Raft.Command.{Codec}
use log_replicator_raft.Raft.Lifecycle.{Options, new_node, started, restored_node}
use log_replicator_raft.Raft.Votes.Granted.{ok-injective}
use log_replicator_raft.Raft.Votes.Safety.{
  Step, vote, stand, win, observe, append, install, check, build, answered, shipped, lost, propose,
  signal, environment, restart,
}
use log_replicator_raft.Raft.Intact.Rules.{
  Intact, bind-Keeps, publish_state-Keeps, reset_election_deadline-Keeps,
}
use log_replicator_raft.Raft.Intact.Commits.{apply_committed-Keeps}
use log_replicator_raft.Raft.Intact.Handlers.{
  request_vote-Keeps, become_candidate-Keeps, become_leader-Keeps, observe_higher_term-Keeps,
  peer_needs_snapshot-Keeps, build_append_request-Keeps, append_answered-Keeps,
  snapshot_answered-Keeps, note_peer-Keeps, signal_replication-Keeps,
}
use log_replicator_raft.Raft.Intact.Entries.{append_client_entry_at}
use log_replicator_raft.Raft.Intact.Requests.{append_entries_rpc_at}
use log_replicator_raft.Raft.Intact.Installs.{install_snapshot_rpc-Keeps}

-- A new process over the tables of an old one.
started-Intact :
    (opts : Options) (clock : ℕ) (draws : List ℕ) (store : Store) {n' : Node}
    → IsIntact store.tables
    → new_node opts clock draws store ≡ ok n'
    → Intact n'
unfolding new_node restored_node
started-Intact opts clock draws store {n'} i made =
    let (ballot, s) = current_term_vote store in
    let (applied, s') = last_applied s in
    let o = current_term_vote-Refines.outcome store in
    let o' = last_applied-Refines.outcome s in
    let kept : s'.tables ≡ store.tables = ground arith in
    begun ballot applied s' (subst IsIntact (sym kept) i) (ground arith)
  where
    begun :
        (ballot : Result (ℕ × String)) (applied : Result ℕ) (s : Store)
        → IsIntact s.tables
        → started ballot applied opts clock draws s ≡ ok n'
        → Intact n'
    begun (ok ballot) (ok applied) s i e = subst Intact (ok-injective e) (
        (bind-Keeps reset_election_deadline-Keeps (λ _. publish_state-Keeps)).at
          (restored_node opts clock draws s ballot applied) i)
    begun (ok ballot) (err x) s i e = absurd (cc)
    begun (err x) applied s i e = absurd (cc)

module _ (codec : Codec) where
  -- What the invariant asks of the outside: a leader sends entries that follow on the position before
  -- them, and indexes stay below 2^64.
  unfoldable pub IsSound : {n n' : Node} → Step codec n n' → Type 0
  unfolding last_position
  IsSound (append req) = IsRun (req.prev_log_index + 1) req.entries
  IsSound {n} (propose payload) = (last_position n.store.tables).0 + 1 < 2 ^ 64
  IsSound _ = Unit

  Step-Intact : {n n' : Node} (s : Step codec n n') → IsSound s → Intact n → Intact n'
  unfolding IsSound
  Step-Intact {n} (vote req) h i = (request_vote-Keeps req).at n i
  Step-Intact {n} (stand fits) h i = become_candidate-Keeps.at n i
  Step-Intact {n} (win term) h i = (become_leader-Keeps codec term).at n i
  Step-Intact {n} (observe term) h i = (observe_higher_term-Keeps term).at n i
  Step-Intact {n} (append req) h i = append_entries_rpc_at (apply_committed-Keeps codec) req n i h
  Step-Intact {n} (install req) h i = (install_snapshot_rpc-Keeps codec req).at n i
  Step-Intact {n} (check peer) h i = (peer_needs_snapshot-Keeps peer).at n i
  Step-Intact {n} (build peer) h i = (build_append_request-Keeps peer).at n i
  Step-Intact {n} (answered peer term req reply) h i =
      (append_answered-Keeps codec peer term req reply).at n i
  Step-Intact {n} (shipped peer term s) h i = (snapshot_answered-Keeps codec peer term s).at n i
  Step-Intact {n} (lost peer) h i = (note_peer-Keeps true peer).at n i
  Step-Intact {n} (propose payload) h i = append_client_entry_at codec payload n h i
  Step-Intact {n} signal h i = signal_replication-Keeps.at n i
  Step-Intact {n} (environment clock draws faults) h i = i
  Step-Intact {n} (restart opts clock draws store same made) h i =
      started-Intact opts clock draws store (subst IsIntact (sym same) i) made

  -- A life whose steps are all sound.
  pub data Life (n : Node) : Node → Type 0 where
    start : Life n n
    then_ : {m k : Node} → Life n m → (s : Step codec m k) → IsSound s → Life n k

  -- The log of a node never gets a gap behind its snapshot and no key ever stands in two rows,
  -- whatever handlers, failing database calls and restarts come, when requests to append have no
  -- gaps behind the position that they name and the indexes of writes stay below 2^64.
  pub tables-IsIntact : {n m : Node} → Life n m → IsIntact n.store.tables → IsIntact m.store.tables
  tables-IsIntact start i = i
  tables-IsIntact (then_ life s sound) i = Step-Intact s sound (tables-IsIntact life i)
