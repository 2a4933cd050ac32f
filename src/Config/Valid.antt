-- ===== src/Config/Valid.antt =====
-- What `FromEnv` and `parsePeers` (internal/config/config.go) let through.
use mathlib.Core.Path.{subst}
use log_replicator_raft.Common.{
  String, Bool, true, false, ◌≡◌, refl, Option, none, some, List, [], ◌∷◌, ◌||◌, not, same, All,
  arith, if◌then◌else◌,
}
use log_replicator_raft.Raft.Types.{Peer}
use log_replicator_raft.Config.Text.{is_empty, cut, trim_space, split}
use log_replicator_raft.Config.Peers.{
  Checked, good, bad, bad_peer, duplicate_peer, has, read_items, parse_peers, ◌>>=◌,
}

-- A predicate at an accepted value.
abbrev pub Accepts {ℓ κ} : {A : Type ℓ} → (A → Type κ) → Checked A → Type κ
Accepts P (good a) = P a
Accepts P (bad p) = Unit

abbrev Unseen : List String → Peer → Type 0
Unseen seen p = has p.id seen ≡ false

abbrev Complete : String → Peer → Type 0
Complete self_id p =
    (is_empty p.id ≡ false) × (is_empty p.address ≡ false) × (same p.id self_id ≡ false)

-- Peers other than the node, each with an id of its own and an address.
unfoldable pub IsPeers : String → List Peer → Type 0
IsPeers self_id [] = true ≡ true
IsPeers self_id (p ∷ peers) =
    Complete self_id p × All (λ q. same p.id q.id ≡ false) peers × IsPeers self_id peers

without_seen :
    (id : String) (seen : List String) (peers : List Peer)
    → All (Unseen (id ∷ seen)) peers
    → All (λ q. same id q.id ≡ false) peers × All (Unseen seen) peers
without_seen id seen [] all = (tt, tt)
without_seen id seen (p ∷ peers) (h, all) =
    let rest = without_seen id seen peers all in ((ground arith, rest.0), (ground arith, rest.1))

read_items-IsPeers :
    (self_id : String) (seen : List String) (items : List String)
    → Accepts
        (λ peers. IsPeers self_id peers × All (Unseen seen) peers)
        (read_items self_id seen items)
unfolding read_items IsPeers
read_items-IsPeers self_id seen [] = (refl, tt)
read_items-IsPeers self_id seen (item ∷ items) =
    on (cut b'=' (trim_space item)) λ id address. read_items-IsPeers self_id (id ∷ seen) items
  where
    added : String → String → List Peer → Checked (List Peer)
    added id address peers =
        good
          (if not (same id self_id) then record { id = id; address = address } ∷ peers else peers)

    kept :
        (id address : String) (peers : List Peer) (b : Bool)
        → (is_empty id || is_empty address) ≡ false
        → has id seen ≡ false
        → same id self_id ≡ b
        → IsPeers self_id peers × All (Unseen (id ∷ seen)) peers
        → Accepts
            (λ peers. IsPeers self_id peers × All (Unseen seen) peers)
            (good (if not b then record { id = id; address = address } ∷ peers else peers))
    kept id address peers true full new e (valid, all) = (valid, (without_seen id seen peers all).1)
    kept id address peers false full new e (valid, all) =
        let un = without_seen id seen peers all in
        (((ground arith, ground arith, e), un.0, valid), (new, un.1))

    entry :
        (id address : String) (b : Bool)
        → (is_empty id || is_empty address) ≡ b
        → (c : Bool) → has id seen ≡ c
        → (rest : Checked (List Peer))
        → Accepts (λ peers. IsPeers self_id peers × All (Unseen (id ∷ seen)) peers) rest
        → Accepts
            (λ peers. IsPeers self_id peers × All (Unseen seen) peers)
            (if b
              then bad (bad_peer item)
              else if c
              then bad (duplicate_peer id)
              else rest >>= added id address)
    entry id address true p c q rest h = tt
    entry id address false p true q rest h = tt
    entry id address false p false q (bad x) h = tt
    entry id address false p false q (good peers) h =
        kept id address peers (same id self_id) p q refl h

    taken : Option (String × String) → Checked (List Peer)
    taken o = elim o [
      | none ↦ bad (bad_peer item)
      | some (id, address) ↦
          if is_empty id || is_empty address
          then bad (bad_peer item)
          else if has id seen
          then bad (duplicate_peer id)
          else (read_items self_id (id ∷ seen) items >>= added id address)
    ]

    on :
        (o : Option (String × String))
        → ((id address : String)
            → Accepts
                (λ peers. IsPeers self_id peers × All (Unseen (id ∷ seen)) peers)
                (read_items self_id (id ∷ seen) items))
        → Accepts (λ peers. IsPeers self_id peers × All (Unseen seen) peers) (taken o)
    on none rest = tt
    on (some (id, address)) rest =
        entry id address (is_empty id || is_empty address) refl (has id seen) refl
          (read_items self_id (id ∷ seen) items) (rest id address)

-- The list that `parsePeers` accepts names no peer twice and not the node itself, and each peer has an id
-- and an address.
pub parse_peers-IsPeers :
    (raw self_id : String) (peers : List Peer)
    → parse_peers raw self_id ≡ good peers
    → IsPeers self_id peers
unfolding parse_peers IsPeers
parse_peers-IsPeers raw self_id peers h = subst (Accepts (IsPeers self_id)) h (
    on (is_empty (trim_space raw)) (read_items self_id [] (split b',' raw))
      (read_items-IsPeers self_id [] (split b',' raw)))
  where
    on :
        (b : Bool) (x : Checked (List Peer))
        → Accepts (λ peers. IsPeers self_id peers × All (Unseen []) peers) x
        → Accepts (IsPeers self_id) (if b then good [] else x)
    on true x h = refl
    on false (good peers) h = h.0
    on false (bad p) h = tt
