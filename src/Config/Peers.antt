-- ===== src/Config/Peers.antt =====
-- `parsePeers` of internal/config/config.go.
use log_replicator_raft.Common.{
  String, Bool, false, none, some, List, [], ◌∷◌, not, ◌||◌, same, if◌then◌else◌,
}
use log_replicator_raft.Raft.Types.{Peer}
use log_replicator_raft.Config.Text.{trim_space, split, cut, is_empty}

-- The errors of the package.
pub data Problem : Type 0 where
  bad_peer duplicate_peer bad_duration bad_uint bad_level : String → Problem
  heartbeat_too_long max_below_min : Problem

pub data Checked {ℓ} (A : Type ℓ) : Type ℓ where
  good : A → Checked A
  bad : Problem → Checked A

module _ {ℓ} {A B : Type ℓ} where
  infixl 10 ◌>>=◌
  abbrev pub ◌>>=◌ : Checked A → (A → Checked B) → Checked B
  good a >>= f = f a
  bad p >>= f = bad p

-- The set `seen`.
abbrev pub has : String → List String → Bool
has id [] = false
has id (s ∷ seen) = same s id || has id seen

unfoldable pub read_items : String → List String → List String → Checked (List Peer)
unfolding cut trim_space
read_items self_id seen [] = good []
read_items self_id seen (item ∷ items) = elim (cut b'=' (trim_space item)) [
  | none ↦ bad (bad_peer item)
  | some (id, address) ↦
      if is_empty id || is_empty address
      then bad (bad_peer item)
      else if has id seen
      then bad (duplicate_peer id)
      else do
        peers ← read_items self_id (id ∷ seen) items
        good
            (if not (same id self_id) then record { id = id; address = address } ∷ peers else peers)
]

unfoldable pub parse_peers : String → String → Checked (List Peer)
unfolding read_items trim_space split
parse_peers raw self_id =
    if is_empty (trim_space raw) then good [] else read_items self_id [] (split b',' raw)
