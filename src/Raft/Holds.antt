-- ===== src/Raft/Holds.antt =====
-- Actions on a node whose result stands in a given relation to the node before, and the parts of
-- `applyCommittedLocked` (internal/raft/replication.go) for such a relation.
use log_replicator_raft.Common.{
  ℕ, String, zero, suc, Bool, true, false, Option, none, some, ltb, leb, ◌==◌, ◌||◌, ◌-◌, succ64,
  if◌then◌else◌,
}
use log_replicator_raft.Common.Action.{
  Result, ok, err, Action, pure, gets, modify, resume, ◌>>=◌, ◌>>◌,
}
use log_replicator_raft.Storage.Statement.{Store}
use log_replicator_raft.Storage.Rows.{Entry}
use log_replicator_raft.Storage.Store.{
  create_snapshot, snapshot_index_term, skip_to, term_at, entry_at,
}
use log_replicator_raft.Raft.Types.{Node}
use log_replicator_raft.Raft.Node.{lift, this, recover, when, ignoring}
use log_replicator_raft.Raft.Command.{Codec, decode_command, apply_to}
use log_replicator_raft.Raft.Replication.{
  apply_next, apply_entry, apply_loop, apply_committed, skip_compacted, compact_if_needed,
}

-- What an action may do to a node, whatever its store answers: a preorder that the store and the
-- applied index are no part of.
pub record IsLoose (R : Node → Node → Type 0) : Type 0 where
  pub same : (n : Node) → R n n
  pub then_ : {n n' n'' : Node} → R n n' → R n' n'' → R n n''
  pub stores : (n : Node) (s : Store) → R n (record n { store = s })
  pub applies : (n : Node) (index : ℕ) → R n (record n { last_applied = index })

module _ {R : Node → Node → Type 0} (loose : IsLoose R) where
  pub record Holds {A : Type 0} (m : Action Node A) : Type 0 where
    pub at : (n : Node) → R n (m n).1

  module _ {A : Type 0} where
    pub pure-Holds : (a : A) → Holds (pure a)
    pure-Holds a = record { at = loose.same }

    pub gets-Holds : (f : Node → A) → Holds (gets f)
    gets-Holds f = record { at = loose.same }

    pub lift-Holds : (m : Action Store A) → Holds (lift m)
    unfolding lift
    lift-Holds m = record { at = λ n. loose.stores n (m n.store).1 }

    pub recover-Holds : (a : A) {m : Action Node A} → Holds m → Holds (recover a m)
    unfolding recover
    recover-Holds a h = record { at = h.at }

    pub if-Holds : (b : Bool) {m k : Action Node A} → Holds m → Holds k → Holds (if b then m else k)
    if-Holds true h k = h
    if-Holds false h k = k

  module _ {A B : Type 0} where
    pub bind-Holds :
        {m : Action Node A} {f : A → Action Node B}
        → Holds m
        → ((a : A) → Holds (f a))
        → Holds (m >>= f)
    bind-Holds {m} {f} h k = record { at = λ n. on n (m n) (h.at n) }
      where
        on : (n : Node) (x : Result A × Node) → R n x.1 → R n (resume x.0 f x.1).1
        on n (ok a, n') s = loose.then_ s ((k a).at n')
        on n (err e, n') s = s

  pub this-Holds :
      {B : Type 0} {f : Node → Action Node B} → ((n : Node) → Holds (f n)) → Holds (this >>= f)
  this-Holds h = record { at = λ n. (h n).at n }

  applied-Holds : (index : ℕ) → Holds (modify (λ n. record n { last_applied = index }))
  applied-Holds index = record { at = λ n. loose.applies n index }

  skip_compacted-Holds : (index : ℕ) → Holds (skip_compacted index)
  unfolding skip_compacted
  skip_compacted-Holds index = recover-Holds false (
      bind-Holds (lift-Holds snapshot_index_term) (λ p.
        if-Holds (ltb p.0 index) (pure-Holds false) (
          bind-Holds (lift-Holds (skip_to p.0))
            (λ _. bind-Holds (applied-Holds p.0) (λ _. pure-Holds true)))))

  module _ (codec : Codec) where
    checked-Holds : (raw : String) → Holds (λ n. (decode_command codec raw, n))
    checked-Holds raw = record { at = loose.same }

    apply_entry-Holds : (entry : Entry) (index : ℕ) → Holds (apply_entry codec entry index)
    unfolding apply_entry
    apply_entry-Holds entry index = bind-Holds (checked-Holds entry.command) (λ cmd.
        bind-Holds (lift-Holds (apply_to cmd index))
          (λ _. bind-Holds (applied-Holds index) (λ _. pure-Holds true)))

    found-Holds :
        (index : ℕ) (o : Option Entry)
        → Holds
            (elim o [ none ↦ skip_compacted index | some entry ↦ apply_entry codec entry index ])
    found-Holds index none = skip_compacted-Holds index
    found-Holds index (some entry) = apply_entry-Holds entry index

    apply_next-Holds : Holds (apply_next codec)
    unfolding apply_next
    apply_next-Holds = this-Holds (λ n. recover-Holds false (
        bind-Holds (lift-Holds (entry_at (succ64 n.last_applied)))
          (found-Holds (succ64 n.last_applied))))

    guarded-Holds :
        {m : Action Node Bool}
        → Holds m
        → Holds (λ n. if ltb n.last_applied n.commit_index then m n else (ok true, n))
    guarded-Holds {m} h = record { at = λ n. on n (ltb n.last_applied n.commit_index) }
      where
        on : (n : Node) (b : Bool) → R n (if b then m n else (ok true, n)).1
        on n true = h.at n
        on n false = loose.same n

    apply_loop-Holds : (fuel : ℕ) → Holds (apply_loop codec fuel)
    unfolding apply_loop
    apply_loop-Holds zero = record { at = loose.same }
    apply_loop-Holds (suc fuel) = guarded-Holds (
        bind-Holds apply_next-Holds
          (λ more. if-Holds more (apply_loop-Holds fuel) (pure-Holds false)))

    snapshot-Holds :
        (index : ℕ) (o : Option ℕ)
        → Holds (elim o [
          | none ↦ pure tt
          | some term ↦ do lift (create_snapshot codec.states index term); pure tt
        ])
    snapshot-Holds index none = pure-Holds tt
    snapshot-Holds index (some term) =
        bind-Holds (lift-Holds (create_snapshot codec.states index term)) (λ _. pure-Holds tt)

    compact_if_needed-Holds : Holds (compact_if_needed codec)
    unfolding compact_if_needed ignoring
    compact_if_needed-Holds = this-Holds (λ n.
        if-Holds ((n.snapshot_threshold == 0) || (n.last_applied == 0)) (pure-Holds tt) (
          recover-Holds tt (
            bind-Holds (lift-Holds snapshot_index_term) (λ p.
              if-Holds (leb n.last_applied p.0 || ltb (n.last_applied - p.0) n.snapshot_threshold)
                (pure-Holds tt)
                (bind-Holds (lift-Holds (term_at n.last_applied))
                  (snapshot-Holds n.last_applied))))))

    pub apply_committed-Holds : Holds (apply_committed codec)
    unfolding apply_committed
    apply_committed-Holds =
        this-Holds (λ n. bind-Holds (apply_loop-Holds (n.commit_index - n.last_applied)) whole)
      where
        whole : (done : Bool) → Holds (when done (compact_if_needed codec))
        whole true = compact_if_needed-Holds
        whole false = pure-Holds tt
