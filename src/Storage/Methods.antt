-- ===== src/Storage/Methods.antt =====
-- Every method of `Store` refines its description in Storage/Spec.antt, whatever the driver answers.
use mathlib.Core.Option
use log_replicator_raft.Storage.Maps.{as_map, IsMap, as_map-IsMap, latest, latest-as_map}
use log_replicator_raft.Storage.Restored.{restored_rows-all}
use log_replicator_raft.Common.{
  ℕ, String, Bool, true, false, ◌≡◌, refl, ◌⊎◌, same, if◌then◌else◌, Option, none, some, List, [],
  ◌∷◌, arith, inr, ap, sym,
}
use log_replicator_raft.Common.Action.{
  Result, ok, err, constraint, encode_failed, decode_snapshot, Action, Done, pure, ◌>>◌,
}
use log_replicator_raft.Storage.Rows.{
  Entry, Snapshot, KvRow, Tables, delete_ge, find_entry, last_entry, find_kv,
}
use log_replicator_raft.Storage.Statement.{Store, exec, set_meta}
use log_replicator_raft.Storage.Store.{
  StateCodec, current_term_vote, last_applied, save_term_vote, snapshot_index_term,
  last_index_and_term, term_at, entry_at, entries_from, insert_entries, append_entries, delete_from,
  apply_set, apply_delete, skip_to, save_snapshot, compact_log, restore_key, restored, restore_keys,
  create_snapshot, create_encoded, install_decoded, decoded, snapshot_at, install_snapshot, all,
}
use log_replicator_raft.Storage.Spec.{
  with_term_vote, with_applied, last_position, known_term, tail_from, upsert_entries, with_log,
  with_set, with_delete, state_of, with_snapshot, restored_rows, created, installed,
  created_encoded, installed_decoded, state_in,
}
use log_replicator_raft.Storage.Refine.{
  Faulted, Agrees, Follows, Refines, query-Refines, exec-Refines, pure-Refines, fail-Refines,
  Refines-Follows, Refines-of_eq, Follows-of_eq, Refines-read, Refines-result, Refines-query,
  Follows-bind, in_tx-Refines,
}

exec-Follows : (write : Tables → Tables) → Follows (exec write) (λ t. (ok tt, write t))
exec-Follows write = Refines-Follows (exec-Refines write)

pub save_term_vote-Refines :
    (term : ℕ) (vote : String)
    → Refines (save_term_vote term vote) (λ t. (ok tt, with_term_vote term vote t))
unfolding save_term_vote set_meta with_term_vote
save_term_vote-Refines term vote =
    in_tx-Refines (Follows-bind (exec-Follows _) (λ _. exec-Follows _))

pub current_term_vote-Refines :
    Refines current_term_vote (λ t. (ok (t.metadata.current_term, t.metadata.voted_for), t))
unfolding current_term_vote
current_term_vote-Refines = Refines-query _ (λ i. Refines-query _ (λ j. pure-Refines (i, j)))

pub last_applied-Refines : Refines last_applied (λ t. (ok t.metadata.last_applied, t))
unfolding last_applied
last_applied-Refines = query-Refines _

pub snapshot_index_term-Refines :
    Refines snapshot_index_term (λ t. (ok (t.metadata.snapshot_index, t.metadata.snapshot_term), t))
unfolding snapshot_index_term
snapshot_index_term-Refines = Refines-query _ (λ i. Refines-query _ (λ j. pure-Refines (i, j)))

pub last_index_and_term-Refines : Refines last_index_and_term (λ t. (ok (last_position t), t))
unfolding last_index_and_term last_position
last_index_and_term-Refines =
    Refines-of_eq (λ t. position (last_entry t.log_entries) t) (Refines-query _ found)
  where
    described : Option Entry → Action Tables (ℕ × ℕ)
    described none t = (ok (t.metadata.snapshot_index, t.metadata.snapshot_term), t)
    described (some e) t = (ok (e.index, e.term), t)

    found :
        (row : Option Entry)
        → Refines
            (elim row [ none ↦ snapshot_index_term | some e ↦ pure (e.index, e.term) ])
            (described row)
    found none = snapshot_index_term-Refines
    found (some e) = pure-Refines (e.index, e.term)

    position :
        (row : Option Entry) (t : Tables)
        → described row t ≡ (
          ok (elim row [
            | none ↦ (t.metadata.snapshot_index, t.metadata.snapshot_term)
            | some e ↦ (e.index, e.term)
          ]),
          t,
        )
    position none t = refl
    position (some e) t = refl

pub append_entries-Refines :
    (entries : List Entry)
    → Refines
        (append_entries entries)
        (λ t. (ok tt, with_log (upsert_entries entries t.log_entries) t))
unfolding append_entries upsert_entries
append_entries-Refines [] = pure-Refines tt
append_entries-Refines (e ∷ entries) = in_tx-Refines (each (e ∷ entries))
  where
    each :
        (entries : List Entry)
        → Follows
            (insert_entries entries)
            (λ t. (ok tt, with_log (upsert_entries entries t.log_entries) t))
    each [] = Refines-Follows (pure-Refines tt)
    each (e ∷ entries) = Follows-bind (exec-Follows _) (λ _. each entries)

pub delete_from-Refines :
    (index : ℕ)
    → Refines (delete_from index) (λ t. (ok tt, with_log (delete_ge index t.log_entries) t))
unfolding delete_from
delete_from-Refines index = exec-Refines _

pub apply_set-Refines :
    (index : ℕ) (key value : String)
    → Refines (apply_set index key value) (λ t. (ok tt, with_set index key value t))
unfolding apply_set set_meta with_set
apply_set-Refines index key value =
    in_tx-Refines (Follows-bind (exec-Follows _) (λ _. exec-Follows _))

pub apply_delete-Refines :
    (index : ℕ) (key : String)
    → Refines (apply_delete index key) (λ t. (ok tt, with_delete index key t))
unfolding apply_delete set_meta with_delete
apply_delete-Refines index key = in_tx-Refines (Follows-bind (exec-Follows _) (λ _. exec-Follows _))

pub skip_to-Refines : (index : ℕ) → Refines (skip_to index) (λ t. (ok tt, with_applied index t))
unfolding skip_to set_meta with_applied
skip_to-Refines index = in_tx-Refines (exec-Follows _)

pub entry_at-Refines :
    (index : ℕ) → Refines (entry_at index) (λ t. (ok (find_entry index t.log_entries), t))
unfolding entry_at
entry_at-Refines index = query-Refines _

pub entries_from-Refines :
    (start limit : ℕ) → Refines (entries_from start limit) (λ t. (ok (tail_from start limit t), t))
unfolding entries_from tail_from
entries_from-Refines start limit = Refines-read snapshot_index_term-Refines (λ i. query-Refines _)

save_snapshot-Follows :
    (s : Snapshot)
    → Follows
        (do save_snapshot s; compact_log s.last_included_index)
        (λ t. (ok tt, with_snapshot s t))
unfolding save_snapshot compact_log set_meta with_snapshot
save_snapshot-Follows s =
    Follows-bind
      (Follows-bind (exec-Follows _) (λ _.
        Follows-bind (exec-Follows _) (λ _. Follows-bind (exec-Follows _) (λ _. exec-Follows _))))
      (λ _. exec-Follows _)

restore_key-Follows :
    (row : KvRow)
    → Follows (restore_key row) (λ t. elim (find_kv row.key t.kv) [
      | none ↦ (ok tt, record t { kv = row ∷ t.kv })
      | some _ ↦ (err constraint, t)
    ])
unfolding restore_key
restore_key-Follows row =
    Follows-bind {p = λ t. (ok tt, t)} {q = λ _ t. inserted t (find_kv row.key t.kv)}
      (exec-Follows _) (λ _. record { outcome = λ s. last s _; quiet = λ s e. kept s e _ })
  where
    inserted : Tables → Option String → Result Done × Tables
    inserted t o = elim o [
      | none ↦ (ok tt, record t { kv = row ∷ t.kv })
      | some _ ↦ (err constraint, t)
    ]

    last :
        (s : Store) (o : Option String)
        → Faulted (restored row s o).0 s ⊎ Agrees (restored row s o) (inserted s.tables o)
    last s none = inr (refl, refl)
    last s (some _) = inr (refl, refl)

    kept : (s : Store) → s.faults ≡ [] → (o : Option String) → (restored row s o).1.faults ≡ []
    kept s e none = e
    kept s e (some _) = e

pub term_at-Refines : (index : ℕ) → Refines (term_at index) (λ t. (ok (known_term index t), t))
unfolding term_at known_term
term_at-Refines index = record { outcome = λ s. ground arith; quiet = λ s e. ground arith }

restore_keys-Follows :
    (index : ℕ) (state : List (String × String))
    → Follows
        (restore_keys index state)
        (λ t. let (r, rows) = restored_rows index state t.kv in (r, record t { kv = rows }))
unfolding restore_keys restored_rows
restore_keys-Follows index [] = Refines-Follows (pure-Refines tt)
restore_keys-Follows index ((key, value) ∷ state) =
    Follows-of_eq (λ t. ground arith)
      (Follows-bind (restore_key-Follows (record { key = key; value = value; log_index = index }))
        (λ _. restore_keys-Follows index state))

create_encoded-Refines :
    (index term : ℕ) (o : Option String)
    → Refines (create_encoded index term o) (created_encoded index term o)
unfolding create_encoded created_encoded
create_encoded-Refines index term none = fail-Refines encode_failed
create_encoded-Refines index term (some payload) =
    let s = snapshot_at index term payload in
    Refines-result s (in_tx-Refines (save_snapshot-Follows s))

-- What the transaction does for any list of members, of which a map has no key twice.
inserted : Snapshot → List (String × String) → Action Tables Done
inserted s state t = recorded (restored_rows s.last_included_index state [])
  where
    recorded : Result Done × List KvRow → Result Done × Tables
    recorded (ok _, rows) = (ok tt, with_snapshot s (record t { kv = rows }))
    recorded (err e, rows) = (err e, t)

inserted_map :
    (s : Snapshot) (state : List (String × String)) (t : Tables)
    → IsMap state
    → inserted s state t ≡ installed_decoded s (some state) t
unfolding inserted installed_decoded
inserted_map s state t distinct =
    rw (restored_rows-all s.last_included_index state distinct, inserted) refl

install_decoded-inserted :
    (s : Snapshot) (state : List (String × String))
    → Refines (install_decoded s (some state)) (inserted s state)
unfolding install_decoded inserted
install_decoded-inserted s state =
    Refines-of_eq (λ t. ground arith)
      (in_tx-Refines (
        Follows-bind (exec-Follows (λ t. record t { kv = [] })) (λ _.
          Follows-bind (restore_keys-Follows s.last_included_index state)
            (λ _. save_snapshot-Follows s))))

install_decoded-Refines :
    (s : Snapshot) (members : Option (List (String × String)))
    → Refines
        (install_decoded s (Option.map as_map members))
        (installed_decoded s (Option.map as_map members))
unfolding install_decoded installed_decoded
install_decoded-Refines s none = fail-Refines decode_snapshot
install_decoded-Refines s (some members) =
    Refines-of_eq (λ t. inserted_map s (as_map members) t (as_map-IsMap members))
      (install_decoded-inserted s (as_map members))

module _ (codec : StateCodec) where
  pub create_snapshot-Refines :
      (index term : ℕ) → Refines (create_snapshot codec index term) (created codec index term)
  unfolding create_snapshot created all state_of
  create_snapshot-Refines index term =
      Refines-query _ (λ state. create_encoded-Refines index term (codec.marshal state))

  decoded-state_in : (payload : String) → state_in codec payload ≡ decoded codec payload
  unfolding state_in latest as_map
  decoded-state_in payload = on (same payload "") (codec.unmarshal payload)
    where
      on :
          (b : Bool) (o : Option (List (String × String)))
          → (if b then some [] else Option.map latest o)
            ≡ (if b then some [] else Option.map as_map o)
      on true o = refl
      on false none = refl
      on false (some members) = ap some (latest-as_map members)

  pub installed-decoded :
      (s : Snapshot) (t : Tables)
      → installed codec s t ≡ installed_decoded s (decoded codec s.payload) t
  unfolding installed
  installed-decoded s t =
      ap (λ (o : Option (List (String × String))). installed_decoded s o t)
        (decoded-state_in s.payload)

  pub install_snapshot-Refines :
      (s : Snapshot) → Refines (install_snapshot codec s) (installed codec s)
  unfolding install_snapshot as_map
  install_snapshot-Refines s =
      Refines-of_eq (λ t. sym (installed-decoded s t)) (by_payload (same s.payload ""))
    where
      read : Bool → Option (List (String × String))
      read b = if b then some [] else Option.map as_map (codec.unmarshal s.payload)

      by_payload : (b : Bool) → Refines (install_decoded s (read b)) (installed_decoded s (read b))
      by_payload true = install_decoded-Refines s (some [])
      by_payload false = install_decoded-Refines s (codec.unmarshal s.payload)
