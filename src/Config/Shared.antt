-- ===== src/Config/Shared.antt =====
-- The list of peers that `parsePeers` (internal/config/config.go) reads, written as its comment has it:
-- `node1=host:port,node2=host:port`.
use Prim.Native.Char.{code}
use log_replicator_raft.Common.{
  ℕ, String, Bool, true, false, ◌≡◌, refl, ap, ◌∙◌, some, List, [], ◌∷◌, ◌&&◌, not, ◌==◌, same, All,
  arith, if◌then◌else◌,
}
use log_replicator_raft.Raft.Types.{Peer}
use log_replicator_raft.Config.Text.{
  is_empty, is_space, trim_left, trim_right, trim_space, split, cut,
}
use log_replicator_raft.Config.Peers.{good, has, read_items, parse_peers}

abbrev before : String → String → String
before String.[] t = t
before (String.◌∷◌ c s) t = String.◌∷◌ c (before s t)

abbrev pair : Peer → String
pair p = before p.id (before "=" p.address)

-- The pairs with a comma between each two.
unfoldable pub written : Peer → List Peer → String
written p [] = pair p
written p (q ∷ peers) = before (pair p) (before "," (written q peers))

-- No character of a text passes a test.
abbrev pub Lacks : (ℕ → Bool) → String → Type 0
Lacks bars String.[] = Unit
Lacks bars (String.◌∷◌ c s) = (bars (code c) ≡ false) × Lacks bars s

abbrev pub comma : ℕ → Bool
comma c = c == b','

abbrev pub equals : ℕ → Bool
equals c = c == b'='

-- An id and an address that the list can carry.
abbrev pub CanBeWritten : Peer → Type 0
CanBeWritten p =
    (is_empty p.id ≡ false)
    × (is_empty p.address ≡ false)
    × Lacks equals p.id
    × Lacks comma (pair p)
    × Lacks is_space (pair p)

-- The peers other than the node.
abbrev pub others : String → List Peer → List Peer
others self_id [] = []
others self_id (p ∷ peers) =
    let rest = others self_id peers in if not (same p.id self_id) then p ∷ rest else rest

-- No id stands twice, nor among the ids seen.
abbrev pub Distinct : List String → List Peer → Type 0
Distinct seen [] = Unit
Distinct seen (p ∷ peers) = (has p.id seen ≡ false) × Distinct (p.id ∷ seen) peers

cut-before :
    (id address : String)
    → Lacks equals id
    → cut b'=' (before id (before "=" address)) ≡ some (id, address)
unfolding cut
cut-before String.[] address h = refl
cut-before (String.◌∷◌ c id) address (k, h) = let rest = cut-before id address h in ground arith

split-last : (s : String) → Lacks comma s → split b',' s ≡ s ∷ []
unfolding split
split-last String.[] h = refl
split-last (String.◌∷◌ c s) (k, h) = let rest = split-last s h in ground arith

split-before :
    (s t : String) → Lacks comma s → split b',' (before s (before "," t)) ≡ s ∷ split b',' t
unfolding split
split-before String.[] t h = refl
split-before (String.◌∷◌ c s) t (k, h) = let rest = split-before s t h in ground arith

trim_left-Lacks : (s : String) → Lacks is_space s → trim_left s ≡ s
unfolding trim_left
trim_left-Lacks String.[] h = refl
trim_left-Lacks (String.◌∷◌ c s) (k, h) = rw k refl

trim_right-Lacks : (s : String) → Lacks is_space s → trim_right s ≡ s
unfolding trim_right
trim_right-Lacks String.[] h = refl
trim_right-Lacks (String.◌∷◌ c s) (k, h) =
    let rest = trim_right-Lacks s h in rw rest (on (is_empty s))
  where
    on :
        (b : Bool) → (if b && is_space (code c) then String.[] else String.◌∷◌ c s) ≡ String.◌∷◌ c s
    on true = rw k refl
    on false = refl

trim_space-Lacks : (s : String) → Lacks is_space s → trim_space s ≡ s
unfolding trim_space
trim_space-Lacks s h = ap trim_right (trim_left-Lacks s h) ∙ trim_right-Lacks s h

-- The pairs of a list of peers.
pairs : List Peer → List String
pairs [] = []
pairs (p ∷ peers) = pair p ∷ pairs peers

split-written :
    (p : Peer) (peers : List Peer)
    → All CanBeWritten (p ∷ peers)
    → split b',' (written p peers) ≡ pairs (p ∷ peers)
unfolding written pairs
split-written p [] (h, _) = split-last (pair p) h.3
split-written p (q ∷ peers) (h, all) =
    split-before (pair p) (written q peers) h.3
    ∙ ap (λ parts. pair p ∷ parts) (split-written q peers all)

read_items-pairs :
    (self_id : String) (seen : List String) (peers : List Peer)
    → All CanBeWritten peers
    → Distinct seen peers
    → read_items self_id seen (pairs peers) ≡ good (others self_id peers)
unfolding read_items pairs
read_items-pairs self_id seen [] all apart = refl
read_items-pairs self_id seen (p ∷ peers) (h, all) (new, apart) =
    let rest = read_items-pairs self_id (p.id ∷ seen) peers all apart in
    let trimmed = trim_space-Lacks (pair p) h.4 in
    let parts = cut-before p.id p.address h.2 in
    rw (trimmed, parts, h.0, h.1, new, rest, read_items) refl

pair_full : (s t : String) → is_empty s ≡ false → is_empty (before s t) ≡ false
pair_full String.[] t h = absurd (cc)
pair_full (String.◌∷◌ c s) t h = refl

trim_space_full :
    (s t : String)
    → is_empty s ≡ false
    → Lacks is_space s
    → is_empty (trim_space (before s t)) ≡ false
unfolding trim_space trim_left trim_right
trim_space_full String.[] t full h = absurd (cc)
trim_space_full (String.◌∷◌ c s) t full (k, h) =
    rw (k, trim_left) (on (is_empty (trim_right (before s t))))
  where
    on :
        (b : Bool)
        → is_empty
            (if b && is_space (code c) then String.[] else String.◌∷◌ c (trim_right (before s t)))
          ≡ false
    on true = rw k refl
    on false = refl

trim_space-written :
    (p : Peer) (peers : List Peer)
    → All CanBeWritten (p ∷ peers)
    → is_empty (trim_space (written p peers)) ≡ false
unfolding written
trim_space-written p [] (h, _) =
    ap is_empty (trim_space-Lacks (pair p) h.4) ∙ pair_full p.id (before "=" p.address) h.0
trim_space-written p (q ∷ peers) (h, all) =
    trim_space_full (pair p) (before "," (written q peers))
      (pair_full p.id (before "=" p.address) h.0) h.4

-- A list of peers with distinct ids is read back without the node's own entry, when ids and
-- addresses are not empty, no id has an equals sign and none of them a comma or a space.
pub parse_peers-written :
    (self_id : String) (p : Peer) (peers : List Peer)
    → All CanBeWritten (p ∷ peers)
    → Distinct [] (p ∷ peers)
    → parse_peers (written p peers) self_id ≡ good (others self_id (p ∷ peers))
unfolding parse_peers
parse_peers-written self_id p peers all apart =
    rw (trim_space-written p peers all, split-written p peers all, parse_peers)
      (read_items-pairs self_id [] (p ∷ peers) all apart)
