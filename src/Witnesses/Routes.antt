-- ===== src/Witnesses/Routes.antt =====
-- A concrete call to a follower.
use log_replicator_raft.Common.{String, false, ◌≡◌, refl}
use log_replicator_raft.Common.Action.{Result, ok, pure}
use log_replicator_raft.Raft.Types.{Node}
use log_replicator_raft.Raft.Node.{is_leader}
use log_replicator_raft.Raft.Lifecycle.{restored_node}
use log_replicator_raft.Raft.Client.{ReadReply, routed}
use log_replicator_raft.Raft.Routing.{Elsewhere, routed-Elsewhere}
use log_replicator_raft.Witnesses.{node}

abbrev following : Node
following = record node { leader_id = "n2" }

abbrev reply : String → Result ReadReply
reply peer = ok (record { leader_id = peer; value = "1" })

abbrev own : ReadReply
own = record { leader_id = "n1"; value = "0" }

follows : is_leader following.role ≡ false
unfolding restored_node
follows = refl

routed-Elsewhere_example :
    ((routed false "a" reply (pure own) following).1 ≡ following)
    × Elsewhere false "a" reply (pure own) following (routed false "a" reply (pure own) following).0
routed-Elsewhere_example = routed-Elsewhere false "a" reply (pure own) following follows

passed_on : (routed false "a" reply (pure own) following).0 ≡ reply "n2"
unfolding routed restored_node
passed_on = refl
