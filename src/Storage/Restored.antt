-- ===== src/Storage/Restored.antt =====
-- The rows of `kv` that `InstallSnapshot` (internal/storage/storage.go) inserts for a decoded map.
use mathlib.Core.Path.{subst}
use log_replicator_raft.Common.{
  ℕ, String, Bool, true, false, ◌≡◌, ◌≢◌, refl, ap, sym, ◌∙◌, Option, none, some, List, [], ◌∷◌,
  map, arith, same, same→eq, same_self, if◌then◌else◌,
}
use log_replicator_raft.Common.Action.{Result, ok, err, constraint, Done}
use log_replicator_raft.Storage.Rows.{KvRow, find_kv}
use log_replicator_raft.Storage.Maps.{lookup, IsMap}
use log_replicator_raft.Storage.Spec.{restored_rows, rows_of}
use log_replicator_raft.Storage.Keys.{IsKeyed, restored_rows-IsKeyed}

-- No key of the map has a row yet.
abbrev Free : List (String × String) → List KvRow → Type 0
Free state rows = (key : String) → lookup key state ≢ none → find_kv key rows ≡ none

first_Free :
    (k v : String) (state : List (String × String)) (rows : List KvRow)
    → Free ((k, v) ∷ state) rows
    → find_kv k rows ≡ none
unfolding lookup
first_Free k v state rows free = free k (on (same k k) (same_self k))
  where
    on : (b : Bool) → b ≡ true → (if b then some v else lookup k state) ≢ none
    on b e h = ground arith

later_Free :
    (k v : String) (state : List (String × String)) (row : KvRow) (rows : List KvRow)
    → row.key ≡ k
    → lookup k state ≡ none
    → Free ((k, v) ∷ state) rows
    → Free state (row ∷ rows)
unfolding lookup find_kv
later_Free k v state row rows named new free key there = on (same row.key key) refl
  where
    on : (b : Bool) → same row.key key ≡ b → (if b then some row.value else find_kv key rows) ≡ none
    on true e =
        absurd (there (subst (λ x. lookup x state ≡ none) (sym named ∙ same→eq row.key key e) new))
    on false e = free key (λ h. there (
        let other : same k key ≡ false = ap (λ (x : String). same x key) (sym named) ∙ e in
        ground arith))

-- Rows of a map are never refused.
restored_rows-rows_of :
    (index : ℕ) (state : List (String × String)) (rows : List KvRow)
    → IsMap state
    → Free state rows
    → restored_rows index state rows ≡ (ok tt, rows_of index state rows)
unfolding restored_rows rows_of IsMap
restored_rows-rows_of index [] rows distinct free = refl
restored_rows-rows_of index ((k, v) ∷ state) rows distinct free =
    let row : KvRow = record { key = k; value = v; log_index = index } in
    let rest =
      restored_rows-rows_of index state (row ∷ rows) distinct.1
        (later_Free k v state row rows refl distinct.0 free) in
    ap (λ (o : Option String). insert o) (first_Free k v state rows free) ∙ rest
  where
    insert : Option String → Result Done × List KvRow
    insert o = elim o [
      | some _ ↦ (err constraint, rows)
      | none ↦ restored_rows index state (record { key = k; value = v; log_index = index } ∷ rows)
    ]

pub restored_rows-all :
    (index : ℕ) (state : List (String × String))
    → IsMap state
    → restored_rows index state [] ≡ (ok tt, rows_of index state [])
unfolding find_kv
restored_rows-all index state distinct = restored_rows-rows_of index state [] distinct (λ _ _. refl)

pub rows_of-IsKeyed :
    (index : ℕ) (state : List (String × String)) → IsMap state → IsKeyed (rows_of index state [])
unfolding IsKeyed
rows_of-IsKeyed index state distinct =
    subst (λ (x : Result Done × List KvRow). IsKeyed x.1) (restored_rows-all index state distinct)
      (restored_rows-IsKeyed index state [] refl)

abbrev or_else : Option String → Option String → Option String
or_else none b = b
or_else (some v) b = some v

find_kv-onto :
    (index : ℕ) (state : List (String × String)) (rows : List KvRow) (key : String)
    → IsMap state
    → find_kv key (rows_of index state rows) ≡ or_else (lookup key state) (find_kv key rows)
unfolding rows_of IsMap find_kv lookup
find_kv-onto index [] rows key distinct = refl
find_kv-onto index ((k, v) ∷ state) rows key distinct =
    find_kv-onto index state (record { key = k; value = v; log_index = index } ∷ rows) key
      distinct.1
    ∙ reorder (same k key) refl
  where
    reorder :
        (b : Bool)
        → same k key ≡ b
        → or_else (lookup key state) (if b then some v else find_kv key rows)
          ≡ or_else (if b then some v else lookup key state) (find_kv key rows)
    reorder true e =
        ap (λ (o : Option String). or_else o (some v))
          (subst (λ x. lookup x state ≡ none) (same→eq k key e) distinct.0)
    reorder false e = refl

-- The rows hold the values of the map.
pub find_kv-rows_of :
    (index : ℕ) (state : List (String × String)) (key : String)
    → IsMap state
    → find_kv key (rows_of index state []) ≡ lookup key state
unfolding find_kv
find_kv-rows_of index state key distinct =
    find_kv-onto index state [] key distinct ∙ alone (lookup key state)
  where
    alone : (o : Option String) → or_else o none ≡ o
    alone none = refl
    alone (some v) = refl

-- The map of rows.
pub lookup-rows :
    (rows : List KvRow) (key : String)
    → lookup key (map (λ r. (r.key, r.value)) rows) ≡ find_kv key rows
unfolding lookup find_kv
lookup-rows [] key = refl
lookup-rows (r ∷ rows) key = let rest = lookup-rows rows key in ground arith

pub rows-IsMap : (rows : List KvRow) → IsKeyed rows → IsMap (map (λ r. (r.key, r.value)) rows)
unfolding IsMap IsKeyed
rows-IsMap [] keyed = refl
rows-IsMap (r ∷ rows) keyed = (lookup-rows rows r.key ∙ keyed.0, rows-IsMap rows keyed.1)
