-- ===== src/Raft/Quiet.antt =====
-- Handlers over a store whose calls all succeed: a read returns what the tables say and changes
-- nothing, so the handler can be followed step by step.

use log_replicator_raft.Common.{Bool, false, true, if◌then◌else◌, ◌≡◌, sym, ◌∙◌, ap, [], arith}
use log_replicator_raft.Common.Action.{Done, Result, ok, Action, pure, resume, ◌>>=◌, ◌>>◌}
use log_replicator_raft.Storage.Rows.{Tables}
use log_replicator_raft.Storage.Statement.{Store}
use log_replicator_raft.Storage.Store.{last_index_and_term, snapshot_index_term}
use log_replicator_raft.Storage.Refine.{Refines}
use log_replicator_raft.Storage.Methods.{last_index_and_term-Refines, snapshot_index_term-Refines}
use log_replicator_raft.Raft.Types.{Node}
use log_replicator_raft.Raft.Node.{
  lift, lift_internal, as_internal, or_value, recover, publish_state,
}

abbrev pub IsQuiet : Node → Type 0
IsQuiet n = n.store.faults ≡ []

Store-eq : {s s' : Store} → s'.tables ≡ s.tables → s'.faults ≡ s.faults → s' ≡ s
Store-eq t f = λ i. record { tables = t i; faults = f i }

module _ {A : Type 0} where
  pub read_quietly :
      {m : Action Store A} {g : Tables → A} (s : Store)
      → Refines m (λ t. (ok (g t), t))
      → s.faults ≡ []
      → m s ≡ (ok (g s.tables), s)
  read_quietly {m} {g} s r q =
      λ i. (value i, Store-eq {s = s} {s' = (m s).1} tables (r.quiet s q ∙ sym q) i)
    where
      value : (m s).0 ≡ ok (g s.tables)
      value = let o = r.outcome s in ground arith

      tables : (m s).1.tables ≡ s.tables
      tables = let o = r.outcome s in ground arith

  pub lift_quietly :
      {m : Action Store A} {g : Tables → A} (n : Node)
      → Refines m (λ t. (ok (g t), t))
      → IsQuiet n
      → lift m n ≡ (ok (g n.store.tables), n)
  unfolding lift
  lift_quietly n r q =
      ap (λ (x : Result A × Store). (x.0, record n { store = x.1 })) (read_quietly n.store r q)

  pub lift_internal_quietly :
      {m : Action Store A} {g : Tables → A} (n : Node)
      → Refines m (λ t. (ok (g t), t))
      → IsQuiet n
      → lift_internal m n ≡ (ok (g n.store.tables), n)
  unfolding lift_internal
  lift_internal_quietly n r q =
      ap (λ (x : Result A × Node). (as_internal x.0, x.1)) (lift_quietly n r q)

-- A write that succeeds, at a node.
abbrev pub with_tables : Tables → Node → Node
with_tables t n = record n { store = record n.store { tables = t } }

pub write_quietly :
    {m : Action Store Done} {g : Tables → Tables} (n : Node)
    → Refines m (λ t. (ok tt, g t))
    → IsQuiet n
    → lift m n ≡ (ok tt, with_tables (g n.store.tables) n)
unfolding lift
write_quietly {m} {g} n r q =
    let f = r.quiet n.store q in
    λ i. (
      value i,
      record n {
        store = Store-eq {s = record n.store { tables = g n.store.tables }} tables (f ∙ sym q) i;
      },
    )
  where
    value : (m n.store).0 ≡ ok tt
    value = let o = r.outcome n.store in ground arith

    tables : (m n.store).1.tables ≡ g n.store.tables
    tables = let o = r.outcome n.store in ground arith

-- A handler whose test is decided.
module _ {A : Type 0} where
  pub else_run :
      {b : Bool} (m k : Action Node A) (g : Node) → b ≡ false → (if b then m else k) g ≡ k g
  else_run {b} m k g e = ap (λ (b : Bool). (if b then m else k) g) e

  pub then_branch_run :
      {b : Bool} (m k : Action Node A) (g : Node) → b ≡ true → (if b then m else k) g ≡ m g
  then_branch_run {b} m k g e = ap (λ (b : Bool). (if b then m else k) g) e

-- The rest of a handler after a part with a known outcome.
module _ {A B : Type 0} where
  pub then_run :
      (m : Action Node A) (f : A → Action Node B) (n : Node) {a : A} {n' : Node}
      → m n ≡ (ok a, n')
      → (m >>= f) n ≡ f a n'
  then_run m f n e = ap (λ (x : Result A × Node). resume x.0 f x.1) e

module _ {A : Type 0} where
  pub recover_run :
      (a : A) (m : Action Node A) (n : Node) {b : A} {n' : Node}
      → m n ≡ (ok b, n')
      → recover a m n ≡ (ok b, n')
  unfolding recover
  recover_run a m n e = ap (λ (x : Result A × Node). (or_value a x.0, x.1)) e

pub publish_quietly : (n : Node) → IsQuiet n → publish_state n ≡ (ok tt, n)
unfolding publish_state
publish_quietly n q =
    recover_run tt (do lift last_index_and_term; lift snapshot_index_term; pure tt) n
      (then_run (lift last_index_and_term) (λ _. lift snapshot_index_term >> pure tt) n
          (lift_quietly n last_index_and_term-Refines q)
        ∙ then_run (lift snapshot_index_term) (λ _. pure tt) n
            (lift_quietly n snapshot_index_term-Refines q))
