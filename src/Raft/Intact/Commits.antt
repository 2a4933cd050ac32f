-- ===== src/Raft/Intact/Commits.antt =====
-- Applying, compacting and committing (internal/raft/replication.go) keep the tables intact.
use mathlib.Core.Path.{subst}
use log_replicator_raft.Common.{
  ℕ, zero, suc, ◌+◌, ◌-◌, ◌≤◌, ◌≡◌, refl, sym, ap, inl, inr, Bool, true, false, Option, none, some,
  String, arith, ltb, leb, ◌==◌, ◌||◌, succ64, if◌then◌else◌, same, Bool-cases,
}
use log_replicator_raft.Common.Action.{ok, Action, Done, pure, modify, ◌>>=◌, ◌>>◌}
use log_replicator_raft.Storage.Rows.{Entry, Tables}
use log_replicator_raft.Storage.Store.{create_snapshot, term_at}
use log_replicator_raft.Storage.Spec.{known_term}
use log_replicator_raft.Storage.Methods.{
  create_snapshot-Refines, snapshot_index_term-Refines, term_at-Refines, entry_at-Refines,
  last_index_and_term-Refines,
}
use log_replicator_raft.Storage.Intact.{
  IsIntact, with_set-IsIntact, with_delete-IsIntact, created-IsIntact,
}
use log_replicator_raft.Raft.Types.{Node}
use log_replicator_raft.Raft.Node.{lift, ignoring}
use log_replicator_raft.Raft.Command.{Codec, Command, op_delete, decode_command, apply_to}
use log_replicator_raft.Raft.Machine.{effect, apply_to-Refines}
use log_replicator_raft.Raft.Replication.{
  apply_next, apply_entry, apply_loop, apply_committed, skip_compacted, compact_if_needed,
  scan_commit, advance_commit,
}
use log_replicator_raft.Raft.Intact.Rules.{
  Intact, Keeps, pure-Keeps, modify-Keeps, recover-Keeps, if-Keeps, lift-Keeps, lift_at, when-Keeps,
  bind-Keeps, bind_at, read_at, this-Keeps, read-Keeps, skip_to-Keeps,
}

effect-IsIntact :
    (cmd : Command) (index : ℕ) (t : Tables) → IsIntact t → IsIntact (effect cmd index t)
unfolding effect
effect-IsIntact cmd index t i = elim (Bool-cases (same cmd.op op_delete)) [
  | inl d ↦ rw d (with_delete-IsIntact index cmd.key t i)
  | inr d ↦ rw d (with_set-IsIntact index cmd.key cmd.value t i)
]

apply_to-Keeps : (cmd : Command) (index : ℕ) → Keeps (lift (apply_to cmd index))
apply_to-Keeps cmd index = lift-Keeps (apply_to-Refines cmd index) (effect-IsIntact cmd index)

applied-Keeps : (index : ℕ) → Keeps (modify (λ n. record n { last_applied = index }))
applied-Keeps index = modify-Keeps _ (λ n. refl)

skip_compacted-Keeps : (index : ℕ) → Keeps (skip_compacted index)
unfolding skip_compacted
skip_compacted-Keeps index = recover-Keeps false (
    bind-Keeps (read-Keeps snapshot_index_term-Refines) (λ p.
      if-Keeps (ltb p.0 index) (pure-Keeps false) (
        bind-Keeps (skip_to-Keeps p.0)
          (λ _. bind-Keeps (applied-Keeps p.0) (λ _. pure-Keeps true)))))

-- The head of the loop.
guarded-Keeps :
    {m : Action Node Bool}
    → Keeps m
    → Keeps
        (λ n. let next = m n in if ltb n.last_applied n.commit_index then next else (ok true, n))
guarded-Keeps {m} h = record { at = λ n i. on n (ltb n.last_applied n.commit_index) i }
  where
    on : (n : Node) (b : Bool) → Intact n → Intact (if b then m n else (ok true, n)).1
    on n true i = h.at n i
    on n false i = i

module _ (codec : Codec) where
  checked-Keeps : (raw : String) → Keeps (λ n. (decode_command codec raw, n))
  checked-Keeps raw = record { at = λ n i. i }

  apply_entry-Keeps : (e : Entry) (index : ℕ) → Keeps (apply_entry codec e index)
  unfolding apply_entry
  apply_entry-Keeps e index = bind-Keeps (checked-Keeps e.command) (λ cmd.
      bind-Keeps (apply_to-Keeps cmd index)
        (λ _. bind-Keeps (applied-Keeps index) (λ _. pure-Keeps true)))

  found-Keeps :
      (index : ℕ) (o : Option Entry)
      → Keeps (elim o [ none ↦ skip_compacted index | some e ↦ apply_entry codec e index ])
  found-Keeps index none = skip_compacted-Keeps index
  found-Keeps index (some e) = apply_entry-Keeps e index

  apply_next-Keeps : Keeps (apply_next codec)
  unfolding apply_next
  apply_next-Keeps = this-Keeps (λ n. recover-Keeps false (
      bind-Keeps (read-Keeps (entry_at-Refines (succ64 n.last_applied)))
        (found-Keeps (succ64 n.last_applied))))

  apply_loop-Keeps : (fuel : ℕ) → Keeps (apply_loop codec fuel)
  unfolding apply_loop
  apply_loop-Keeps zero = record { at = λ n i. i }
  apply_loop-Keeps (suc fuel) = guarded-Keeps (
      bind-Keeps apply_next-Keeps
        (λ more. if-Keeps more (apply_loop-Keeps fuel) (pure-Keeps false)))

  created_done : ℕ → Option ℕ → Action Node Done
  unfolding lift
  created_done index known = elim known [
    | none ↦ pure tt
    | some term ↦ do lift (create_snapshot codec.states index term); pure tt
  ]

  -- A snapshot is made at an index that is not behind the last one.
  created_at :
      (index : ℕ) (known : Option ℕ) (n : Node)
      → n.store.tables.metadata.snapshot_index ≤ index
      → Intact n
      → Intact (created_done index known n).1
  unfolding created_done
  created_at index none n later i = i
  created_at index (some term) n later i =
      bind_at (lift (create_snapshot codec.states index term)) (λ _. pure tt) n
        (lift_at n (create_snapshot-Refines codec.states index term) i
          (created-IsIntact codec.states index term n.store.tables i later))
        (λ _. pure-Keeps tt)

  compacting : Node → ℕ × ℕ → Action Node Done
  unfolding created_done
  compacting n p =
      if leb n.last_applied p.0 || ltb (n.last_applied - p.0) n.snapshot_threshold
      then pure tt
      else lift (term_at n.last_applied) >>= created_done n.last_applied

  compacting_at :
      (n n' : Node)
      → Intact n'
      → Intact
          (compacting n
            (n'.store.tables.metadata.snapshot_index, n'.store.tables.metadata.snapshot_term)
            n').1
  unfolding compacting
  compacting_at n n' i =
      on (leb n.last_applied si || ltb (n.last_applied - si) n.snapshot_threshold) refl
    where
      si : ℕ
      si = n'.store.tables.metadata.snapshot_index

      on :
          (b : Bool)
          → (leb n.last_applied si || ltb (n.last_applied - si) n.snapshot_threshold) ≡ b
          → Intact
              ((if b
                  then pure tt
                  else lift (term_at n.last_applied) >>= created_done n.last_applied)
                n').1
      on true e = i
      on false e =
          read_at (created_done n.last_applied) n' (term_at-Refines n.last_applied) i (λ k same.
            created_at n.last_applied (known_term n.last_applied n'.store.tables) k
              (let s = ap (λ (t : Tables). t.metadata.snapshot_index) same in ground arith)
              (subst IsIntact (sym same) i))

  compact_if_needed-Keeps : Keeps (compact_if_needed codec)
  unfolding compact_if_needed ignoring compacting created_done
  compact_if_needed-Keeps = this-Keeps (λ n.
      if-Keeps ((n.snapshot_threshold == 0) || (n.last_applied == 0)) (pure-Keeps tt) (
        recover-Keeps tt (record {
          at = λ n' i. read_at (compacting n) n' snapshot_index_term-Refines i (λ k same.
              subst
                (λ (t : Tables).
                  Intact (compacting n (t.metadata.snapshot_index, t.metadata.snapshot_term) k).1)
                same (compacting_at n k (subst IsIntact (sym same) i)));
        })))

  pub apply_committed-Keeps : Keeps (apply_committed codec)
  unfolding apply_committed
  apply_committed-Keeps = this-Keeps (λ n.
      bind-Keeps (apply_loop-Keeps (n.commit_index - n.last_applied))
        (λ done. when-Keeps done compact_if_needed-Keeps))

  scan_commit-Keeps :
      (rounds index committed : ℕ) → Keeps (scan_commit codec rounds index committed)
  unfolding scan_commit
  scan_commit-Keeps zero index committed = pure-Keeps committed
  scan_commit-Keeps (suc rounds) index committed =
      bind-Keeps (read-Keeps (term_at-Refines index))
        (λ known. this-Keeps (λ n. scan_commit-Keeps rounds (index + 1) _))

  pub advance_commit-Keeps : Keeps (advance_commit codec)
  unfolding advance_commit ignoring
  advance_commit-Keeps = recover-Keeps tt (
      this-Keeps (λ n. bind-Keeps (read-Keeps last_index_and_term-Refines) (λ p.
        bind-Keeps (scan_commit-Keeps (p.0 - n.commit_index) (n.commit_index + 1) n.commit_index)
          (λ committed. if-Keeps (committed == n.commit_index) (pure-Keeps tt) (
            bind-Keeps (modify-Keeps (λ n. record n { commit_index = committed }) (λ n. refl))
              (λ _. apply_committed-Keeps))))))
