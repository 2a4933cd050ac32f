-- ===== src/Storage/Keys.antt =====
-- The rows of `kv` (internal/storage/storage.go) as a map: lookups after a write, and the primary key.
use mathlib.Core.Path.{subst}
use log_replicator_raft.Common.{
  ℕ, String, Bool, true, false, ◌≡◌, refl, ◌∙◌, ap, Option, none, some, List, [], ◌∷◌, arith, same,
  same→eq, same_self, if◌then◌else◌, Bool-cases, inl, inr,
}
use log_replicator_raft.Common.Action.{Result, err, constraint, Done}
use log_replicator_raft.Storage.Rows.{KvRow, find_kv, upsert_kv, delete_kv}
use log_replicator_raft.Storage.Spec.{restored_rows}

-- No key stands in two rows: the primary key of the table `kv`.
unfoldable pub IsKeyed : List KvRow → Type 0
unfolding find_kv
IsKeyed [] = true ≡ true
IsKeyed (r ∷ rows) = (find_kv r.key rows ≡ none) × IsKeyed rows

same-left : (a b c : String) → same a b ≡ true → same a c ≡ same b c
same-left a b c h = ap (λ (x : String). same x c) (same→eq a b h)

same-right : (a b c : String) → same b c ≡ true → same a b ≡ same a c
same-right a b c h = ap (λ (x : String). same a x) (same→eq b c h)

pub find_kv-upsert_kv :
    (r : KvRow) (rows : List KvRow) (j : String)
    → find_kv j (upsert_kv r rows) ≡ (if same r.key j then some r.value else find_kv j rows)
unfolding find_kv upsert_kv
find_kv-upsert_kv r [] j = refl
find_kv-upsert_kv r (x ∷ rows) j =
    on (same x.key r.key) refl (same r.key j) refl (find_kv-upsert_kv r rows j)
  where
    on :
        (b : Bool)
        → same x.key r.key ≡ b
        → (c : Bool) → same r.key j ≡ c
        → find_kv j (upsert_kv r rows) ≡ (if c then some r.value else find_kv j rows)
        → find_kv j (if b then r ∷ rows else x ∷ upsert_kv r rows)
          ≡ (if c then some r.value else if same x.key j then some x.value else find_kv j rows)
    on true p true q h = let e = q in ground arith
    on true p false q h = let e = same-left x.key r.key j p in ground arith
    on false p true q h = let e = same-right x.key r.key j q in ground arith
    on false p false q h = ground arith

pub find_kv-delete_kv :
    (k : String) (rows : List KvRow) (j : String)
    → find_kv j (delete_kv k rows) ≡ (if same k j then none else find_kv j rows)
unfolding find_kv delete_kv
find_kv-delete_kv k [] j = ground arith
find_kv-delete_kv k (x ∷ rows) j =
    on (same x.key k) refl (same k j) refl (find_kv-delete_kv k rows j)
  where
    on :
        (b : Bool)
        → same x.key k ≡ b
        → (c : Bool) → same k j ≡ c
        → find_kv j (delete_kv k rows) ≡ (if c then none else find_kv j rows)
        → find_kv j (if b then delete_kv k rows else x ∷ delete_kv k rows)
          ≡ (if c then none else if same x.key j then some x.value else find_kv j rows)
    on true p true q h = h
    on true p false q h = let e = same-left x.key k j p in ground arith
    on false p true q h = let e = same-right x.key k j q in ground arith
    on false p false q h = ground arith

same_sym : (a b : String) → same a b ≡ false → same b a ≡ false
same_sym a b h = elim (Bool-cases (same b a)) [
  | inl e ↦ absurd (let b_is = same→eq b a e in let self = same_self a in cc)
  | inr e ↦ e
]

pub upsert_kv-IsKeyed : (r : KvRow) (rows : List KvRow) → IsKeyed rows → IsKeyed (upsert_kv r rows)
unfolding IsKeyed upsert_kv find_kv
upsert_kv-IsKeyed r [] keyed = (refl, refl)
upsert_kv-IsKeyed r (x ∷ rows) keyed = elim (Bool-cases (same x.key r.key)) [
  | inl e ↦ rw e (subst (λ k. find_kv k rows ≡ none) (same→eq x.key r.key e) keyed.0, keyed.1)
  | inr e ↦ rw e (
    find_kv-upsert_kv r rows x.key ∙ rw (same_sym x.key r.key e) keyed.0,
    upsert_kv-IsKeyed r rows keyed.1,
  )
]

pub delete_kv-IsKeyed : (k : String) (rows : List KvRow) → IsKeyed rows → IsKeyed (delete_kv k rows)
unfolding IsKeyed delete_kv
delete_kv-IsKeyed k [] keyed = refl
delete_kv-IsKeyed k (x ∷ rows) keyed = elim (Bool-cases (same x.key k)) [
  | inl e ↦ rw e (delete_kv-IsKeyed k rows keyed.1)
  | inr e ↦ rw e (
    find_kv-delete_kv k rows x.key ∙ rw (same_sym x.key k e) keyed.0,
    delete_kv-IsKeyed k rows keyed.1,
  )
]

-- The primary key also guards the rows of a decoded state, whatever pairs it has.
pub restored_rows-IsKeyed :
    (index : ℕ) (state : List (String × String)) (rows : List KvRow)
    → IsKeyed rows
    → IsKeyed (restored_rows index state rows).1
unfolding restored_rows IsKeyed
restored_rows-IsKeyed index [] rows keyed = keyed
restored_rows-IsKeyed index ((key, value) ∷ state) rows keyed = on (find_kv key rows) refl (
    restored_rows-IsKeyed index state
      (record { key = key; value = value; log_index = index } ∷ rows))
  where
    insert : Option String → Result Done × List KvRow
    insert o = elim o [
      | some _ ↦ (err constraint, rows)
      | none ↦
          restored_rows index state (record { key = key; value = value; log_index = index } ∷ rows)
    ]

    on :
        (o : Option String)
        → find_kv key rows ≡ o
        → ((find_kv key rows ≡ none) × IsKeyed rows
            → IsKeyed
                (restored_rows index state
                  (record { key = key; value = value; log_index = index } ∷ rows)).1)
        → IsKeyed (insert o).1
    on none e rest = rest (e, keyed)
    on (some v) e rest = keyed
