-- ===== src/Raft/Command.antt =====
-- Commands of the state machine (internal/raft/command.go).
use log_replicator_raft.Common.{ℕ, String, Option, none, some, not, ◌&&◌, same, if◌then◌else◌}
use log_replicator_raft.Common.Action.{
  Result, ok, err, encode_failed, decode_failed, unsupported_command, empty_key, Action, Done,
}
use log_replicator_raft.Storage.Statement.{Store}
use log_replicator_raft.Storage.Store.{StateCodec, apply_set, apply_delete}

pub record Command : Type 0 where
  pub op : String
  pub key : String
  pub value : String

-- encoding/json, as the program uses it on commands and on the state machine.
pub record Codec : Type 0 where
  pub marshal : Command → Option String
  pub unmarshal : String → Option Command
  pub states : StateCodec

abbrev pub op_set : String
op_set = "set"

abbrev pub op_delete : String
op_delete = "delete"

unfoldable pub set_command : String → String → Command
set_command key value = record { op = op_set; key = key; value = value }

unfoldable pub delete_command : String → Command
delete_command key = record { op = op_delete; key = key; value = "" }

-- The checks of `decodeCommand` once the JSON is read.
unfoldable pub checked : Option Command → Result Command
checked none = err decode_failed
checked (some cmd) =
    if not (same cmd.op op_set) && not (same cmd.op op_delete)
    then err unsupported_command
    else if same cmd.key ""
    then err empty_key
    else ok cmd

module _ (codec : Codec) where
  unfoldable pub encode : Command → Result String
  encode cmd = elim (codec.marshal cmd) [ none ↦ err encode_failed | some raw ↦ ok raw ]

  unfoldable pub decode_command : String → Result Command
  unfolding checked
  decode_command raw = checked (codec.unmarshal raw)

unfoldable pub apply_to : Command → ℕ → Action Store Done
apply_to cmd index =
    if same cmd.op op_delete then apply_delete index cmd.key else apply_set index cmd.key cmd.value
