-- ===== src/Witnesses/Commands.antt =====
-- Concrete commands, majorities and timeouts, and each result about them.

use log_replicator_raft.Common.{
  ◌↔◌, String, ◌≡◌, inl, inr, refl, Bool, none, List, [], ◌∷◌, arith, ◌≤◌, ◌<◌, ◌+◌, same, ◌||◌,
}
use log_replicator_raft.Common.Action.{ok}
use log_replicator_raft.Storage.Rows.{find_kv}
use log_replicator_raft.Raft.Types.{Node}
use log_replicator_raft.Raft.Node.{majority, reset_election_deadline}
use log_replicator_raft.Raft.Lifecycle.{restored_node}
use log_replicator_raft.Raft.Command.{Command, apply_to, encode, decode_command}
use log_replicator_raft.Storage.Statement.{Store}
use log_replicator_raft.Storage.Store.{apply_delete}
use log_replicator_raft.Witnesses.Texts.{text_codec, text_codec_law}
use log_replicator_raft.Raft.Mapping.{find_kv-apply_to, IsSupported, decode_command-encode}
use log_replicator_raft.Raft.Quorum.{count, both, majority_overlap, reset_election_deadline-bounds}
use log_replicator_raft.Raft.Replication.{apply_loop}
use log_replicator_raft.Raft.Fuel.{apply_loop-enough}
use log_replicator_raft.Raft.Votes.Frame.{disk_term}
use log_replicator_raft.Raft.Votes.Safety.{here, next, observe, terms_never_fall}
use log_replicator_raft.Raft.Node.{observe_higher_term}
use log_replicator_raft.Witnesses.{codec, node, options, used_tables}

abbrev used_store : Store
used_store = record { tables = used_tables; faults = [] }

abbrev deletion : Command
deletion = record { op = "delete"; key = "a"; value = "" }

deleted : (apply_to deletion 3 used_store).0 ≡ ok tt
unfolding apply_to apply_delete
deleted = refl

find_kv-apply_to_example :
    (find_kv "a" (apply_to deletion 3 used_store).1.tables.kv ≡ none)
    × ((apply_to deletion 3 used_store).1.tables.metadata.last_applied ≡ 3)
find_kv-apply_to_example = find_kv-apply_to deletion 3 used_store "a" deleted

abbrev unsupported : Command
unsupported = record { op = "set"; key = ""; value = "5" }

abbrev unsupported_text : String
unsupported_text = "xsxext;;x5;"

encoded : encode text_codec unsupported ≡ ok unsupported_text
unfolding encode text_codec
encoded = refl

decode_command-encode_example :
    (decode_command text_codec unsupported_text ≡ ok unsupported) ↔ IsSupported unsupported
decode_command-encode_example =
    decode_command-encode text_codec text_codec_law unsupported unsupported_text encoded

abbrev first_two : String → Bool
first_two m = same m "n1" || same m "n2"

abbrev last_two : String → Bool
last_two m = same m "n2" || same m "n3"

abbrev members : List String
members = "n1" ∷ "n2" ∷ "n3" ∷ []

majority_overlap_example : 1 ≤ count (both first_two last_two) members
unfolding count majority
majority_overlap_example =
    majority_overlap options.peers members first_two last_two refl (ground arith) (ground arith)

reset_election_deadline-bounds_example :
    (node.clock + node.election_min ≤ (reset_election_deadline node).1.election_deadline)
    × ((reset_election_deadline node).1.election_deadline < node.clock + node.election_max)
unfolding restored_node
reset_election_deadline-bounds_example = reset_election_deadline-bounds node (ground arith)

abbrev behind : Node
behind = record node { commit_index = 2 }

apply_loop-enough_example : apply_loop codec 2 behind ≡ apply_loop codec 9 behind
unfolding restored_node
apply_loop-enough_example =
    apply_loop-enough codec 2 9 behind (ground arith) (ground arith) (ground arith)

terms_never_fall_example :
    (disk_term node ≤ disk_term (observe_higher_term 7 node).1)
    × (disk_term (observe_higher_term 7 node).1 ≤ (observe_higher_term 7 node).1.current_term)
unfolding restored_node
terms_never_fall_example =
    terms_never_fall codec node (observe_higher_term 7 node).1 (next here (observe 7))
      (inr (refl, inl refl))
