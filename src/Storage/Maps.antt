-- ===== src/Storage/Maps.antt =====
-- The Go maps of internal/storage/storage.go (`map[string]string`): association lists, and what encoding/json
-- makes of the members of an object.

use log_replicator_raft.Common.{
  String, Bool, true, false, ◌≡◌, refl, Option, none, some, List, [], ◌∷◌, arith, same, same→eq,
  if◌then◌else◌, ap, ◌||◌, ◌∙◌, sym,
}

unfoldable pub lookup : String → List (String × String) → Option String
lookup key [] = none
lookup key ((k, v) ∷ state) = let rest = lookup key state in if same k key then some v else rest

-- A member whose key comes again is overwritten.
abbrev pub kept_unless :
    Option String → String × String → List (String × String) → List (String × String)
kept_unless none member state = member ∷ state
kept_unless (some _) member state = state

-- The map that `json.Unmarshal` builds from the members of an object, in the order of the text.
unfoldable pub as_map : List (String × String) → List (String × String)
unfolding lookup
as_map [] = []
as_map ((k, v) ∷ members) = let state = as_map members in kept_unless (lookup k state) (k, v) state

-- No key stands twice.
unfoldable pub IsMap : List (String × String) → Type 0
IsMap [] = true ≡ true
IsMap ((k, v) ∷ state) = (lookup k state ≡ none) × IsMap state

pub as_map-IsMap : (members : List (String × String)) → IsMap (as_map members)
unfolding as_map IsMap
as_map-IsMap [] = refl
as_map-IsMap ((k, v) ∷ members) = on (lookup k (as_map members)) refl (as_map-IsMap members)
  where
    on :
        (o : Option String)
        → lookup k (as_map members) ≡ o
        → IsMap (as_map members)
        → IsMap (kept_unless o (k, v) (as_map members))
    on none e h = (e, h)
    on (some w) e h = h

pub as_map_same : (state : List (String × String)) → IsMap state → as_map state ≡ state
unfolding as_map IsMap
as_map_same [] distinct = refl
as_map_same ((k, v) ∷ state) distinct = rw (as_map_same state distinct.1, distinct.0, as_map) refl

-- Whether a key stands among the members.
unfoldable pub occurs : String → List (String × String) → Bool
occurs key [] = false
occurs key ((k, v) ∷ members) = same k key || occurs key members

-- The members whose key does not come again.
unfoldable pub latest : List (String × String) → List (String × String)
unfolding occurs
latest [] = []
latest ((k, v) ∷ members) =
    let rest = latest members in if occurs k members then rest else (k, v) ∷ rest

abbrev is_some : Option String → Bool
is_some none = false
is_some (some _) = true

lookup-kept_unless :
    (key k v : String) (state : List (String × String)) (o : Option String)
    → lookup k state ≡ o
    → is_some (lookup key (kept_unless o (k, v) state)) ≡ (same k key || is_some (lookup key state))
unfolding lookup
lookup-kept_unless key k v state none e = on (same k key)
  where
    on :
        (b : Bool)
        → is_some (if b then some v else lookup key state) ≡ (b || is_some (lookup key state))
    on true = refl
    on false = refl
lookup-kept_unless key k v state (some w) e = on (same k key) refl
  where
    on :
        (b : Bool) → same k key ≡ b → is_some (lookup key state) ≡ (b || is_some (lookup key state))
    on true h = ap (λ (x : String). is_some (lookup x state)) (sym (same→eq k key h)) ∙ ap is_some e
    on false h = refl

lookup-as_map :
    (key : String) (members : List (String × String))
    → is_some (lookup key (as_map members)) ≡ occurs key members
unfolding as_map lookup occurs
lookup-as_map key [] = refl
lookup-as_map key ((k, v) ∷ members) =
    lookup-kept_unless key k v (as_map members) (lookup k (as_map members)) refl
    ∙ ap (λ (b : Bool). same k key || b) (lookup-as_map key members)

-- The map has the last member of each key.
pub latest-as_map : (members : List (String × String)) → latest members ≡ as_map members
unfolding latest as_map
latest-as_map [] = refl
latest-as_map ((k, v) ∷ members) =
    on (lookup k (as_map members)) (sym (lookup-as_map k members)) (latest-as_map members)
  where
    on :
        (o : Option String)
        → occurs k members ≡ is_some o
        → latest members ≡ as_map members
        → (if occurs k members then latest members else (k, v) ∷ latest members)
          ≡ kept_unless o (k, v) (as_map members)
    on none e h = ground arith
    on (some w) e h = ground arith
