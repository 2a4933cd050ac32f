-- ===== src/Raft/Machine.antt =====
-- What the commands of the log do to the tables (internal/raft/command.go): one command, and the
-- state machine as a map from keys to values.
use log_replicator_raft.Common.{ℕ, Bool, true, false, ◌≡◌, ◌⊎◌, same, if◌then◌else◌}
use log_replicator_raft.Common.Action.{ok}
use log_replicator_raft.Storage.Rows.{Tables}
use log_replicator_raft.Storage.Statement.{Store}
use log_replicator_raft.Storage.Store.{apply_set, apply_delete}
use log_replicator_raft.Storage.Spec.{with_set, with_delete}
use log_replicator_raft.Storage.Refine.{Faulted, Agrees, Refines}
use log_replicator_raft.Storage.Methods.{apply_set-Refines, apply_delete-Refines}
use log_replicator_raft.Raft.Command.{Command, op_delete, apply_to}

-- The tables after a command applied at an index.
unfoldable pub effect : Command → ℕ → Tables → Tables
effect cmd index t =
    if same cmd.op op_delete
    then with_delete index cmd.key t
    else with_set index cmd.key cmd.value t

pub apply_to-Refines :
    (cmd : Command) (index : ℕ) → Refines (apply_to cmd index) (λ t. (ok tt, effect cmd index t))
unfolding apply_to effect
apply_to-Refines cmd index = by_op (same cmd.op op_delete)
  where
    by_op :
        (b : Bool)
        → Refines
            (if b then apply_delete index cmd.key else apply_set index cmd.key cmd.value)
            (λ t. (
              ok tt,
              if b then with_delete index cmd.key t else with_set index cmd.key cmd.value t,
            ))
    by_op true = apply_delete-Refines index cmd.key
    by_op false = apply_set-Refines index cmd.key cmd.value

-- Applying a command at an index fails only by an error of the driver, with every table as before,
-- or stores the command's effect on the key and the applied index together.
pub apply_to_atomic :
    (cmd : Command) (index : ℕ) (s : Store)
    → (Faulted (apply_to cmd index s).0 s × ((apply_to cmd index s).1.tables ≡ s.tables))
      ⊎ Agrees (apply_to cmd index s) (ok tt, effect cmd index s.tables)
apply_to_atomic cmd index s = (apply_to-Refines cmd index).outcome s
