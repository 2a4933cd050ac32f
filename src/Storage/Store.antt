-- ===== src/Storage/Store.antt =====
-- The methods of `Store` (internal/storage/storage.go).
use log_replicator_raft.Common.{
  ℕ, zero, suc, String, Option, none, some, List, [], ◌∷◌, map, take, ltb, leb, ◌==◌, same, succ64,
  if◌then◌else◌,
}
use log_replicator_raft.Common.Action.{
  Result, ok, err, constraint, decode_snapshot, encode_failed, Action, Done, pure, fail, ◌>>=◌,
  ◌>>◌,
}
use log_replicator_raft.Storage.Rows.{
  Entry, Snapshot, KvRow, upsert_entry, find_entry, last_entry, entries_ge, delete_ge, delete_le,
  upsert_kv, delete_kv, find_kv,
}
use mathlib.Core.Option
use log_replicator_raft.Storage.Maps.{as_map}
use log_replicator_raft.Storage.Statement.{Store, query, exec, in_tx, set_meta}

-- encoding/json, as the program uses it on the state machine: `marshal` takes a Go map, `unmarshal`
-- gives the members of an object in the order of the text. Both may refuse their argument.
pub record StateCodec : Type 0 where
  pub marshal : List (String × String) → Option String
  pub unmarshal : String → Option (List (String × String))

unfoldable pub current_term_vote : Action Store (ℕ × String)
unfolding query
current_term_vote = do
  term ← query (λ t. t.metadata.current_term)
  vote ← query (λ t. t.metadata.voted_for)
  pure (term, vote)

unfoldable pub save_term_vote : ℕ → String → Action Store Done
unfolding in_tx set_meta
save_term_vote term vote = in_tx do
  set_meta (λ m. record m { current_term = term })
  set_meta (λ m. record m { voted_for = vote })

unfoldable pub last_applied : Action Store ℕ
unfolding query
last_applied = query (λ t. t.metadata.last_applied)

unfoldable pub snapshot_index_term : Action Store (ℕ × ℕ)
unfolding query
snapshot_index_term = do
  index ← query (λ t. t.metadata.snapshot_index)
  term ← query (λ t. t.metadata.snapshot_term)
  pure (index, term)

unfoldable pub last_index_and_term : Action Store (ℕ × ℕ)
unfolding query snapshot_index_term
last_index_and_term = do
  row ← query (λ t. last_entry t.log_entries)
  elim row [ none ↦ snapshot_index_term | some e ↦ pure (e.index, e.term) ]

abbrev pub no_snapshot : Snapshot
no_snapshot = record { last_included_index = 0; last_included_term = 0; payload = "" }

unfoldable pub load_snapshot : Action Store Snapshot
unfolding query
load_snapshot = do
  row ← query (λ t. t.snapshot)
  elim row [ none ↦ pure no_snapshot | some s ↦ pure s ]

-- `Term`: none when the index is unknown. Its second result is the constructor.
unfoldable pub term_at : ℕ → Action Store (Option ℕ)
unfolding query snapshot_index_term
term_at index = if index == 0 then pure (some 0) else do
  (snapshot_index, snapshot_term) ← snapshot_index_term
  if index == snapshot_index
      then pure (some snapshot_term)
      else if ltb index snapshot_index
      then pure none
      else do
        row ← query (λ t. find_entry index t.log_entries)
        elim row [ none ↦ pure none | some e ↦ pure (some e.term) ]

unfoldable pub entry_at : ℕ → Action Store (Option Entry)
unfolding query
entry_at index = query (λ t. find_entry index t.log_entries)

-- LIMIT: zero means everything that is left.
abbrev pub limited : ℕ → List Entry → List Entry
limited zero rows = rows
limited (suc n) rows = take (suc n) rows

unfoldable pub entries_from : ℕ → ℕ → Action Store (List Entry)
unfolding query snapshot_index_term
entries_from start limit = do
  (snapshot_index, _) ← snapshot_index_term
  let first = if leb start snapshot_index then succ64 snapshot_index else start
  query (λ t. limited limit (entries_ge first t.log_entries))

-- The loop of `AppendEntries`, a statement for each entry.
unfoldable pub insert_entries : List Entry → Action Store Done
unfolding exec
insert_entries [] = pure tt
insert_entries (e ∷ entries) = do
  exec (λ t. record t { log_entries = upsert_entry e t.log_entries })
  insert_entries entries

unfoldable pub append_entries : List Entry → Action Store Done
unfolding in_tx insert_entries
append_entries [] = pure tt
append_entries (e ∷ entries) = in_tx (insert_entries (e ∷ entries))

unfoldable pub delete_from : ℕ → Action Store Done
unfolding exec
delete_from index = exec (λ t. record t { log_entries = delete_ge index t.log_entries })

unfoldable pub apply_set : ℕ → String → String → Action Store Done
unfolding in_tx exec set_meta
apply_set index key value = in_tx do
  exec (λ t. record t {
    kv = upsert_kv (record { key = key; value = value; log_index = index }) t.kv;
  })
  set_meta (λ m. record m { last_applied = index })

unfoldable pub apply_delete : ℕ → String → Action Store Done
unfolding in_tx exec set_meta
apply_delete index key = in_tx do
  exec (λ t. record t { kv = delete_kv key t.kv })
  set_meta (λ m. record m { last_applied = index })

unfoldable pub skip_to : ℕ → Action Store Done
unfolding in_tx set_meta
skip_to index = in_tx (set_meta (λ m. record m { last_applied = index }))

unfoldable pub get : String → Action Store (Option String)
unfolding query
get key = query (λ t. find_kv key t.kv)

-- `All`: the state machine as a map.
unfoldable pub all : Action Store (List (String × String))
unfolding query
all = query (λ t. map (λ r. (r.key, r.value)) t.kv)

unfoldable pub save_snapshot : Snapshot → Action Store Done
unfolding exec set_meta
save_snapshot snapshot = do
  exec (λ t. record t { snapshot = some snapshot })
  set_meta (λ m. record m { snapshot_index = snapshot.last_included_index })
  set_meta (λ m. record m { snapshot_term = snapshot.last_included_term })
  set_meta (λ m. record m { last_applied = snapshot.last_included_index })

unfoldable pub compact_log : ℕ → Action Store Done
unfolding exec
compact_log through = exec (λ t. record t { log_entries = delete_le through t.log_entries })

-- INSERT INTO kv without a conflict clause: the primary key refuses a key that is there.
abbrev pub restored : KvRow → Store → Option String → Result Done × Store
restored row s none = (ok tt, record s { tables = record s.tables { kv = row ∷ s.tables.kv } })
restored row s (some _) = (err constraint, s)

unfoldable pub restore_key : KvRow → Action Store Done
unfolding exec
restore_key row = do exec (λ t. t); λ s. restored row s (find_kv row.key s.tables.kv)

unfoldable pub restore_keys : ℕ → List (String × String) → Action Store Done
unfolding restore_key
restore_keys index [] = pure tt
restore_keys index ((key, value) ∷ state) = do
  restore_key (record { key = key; value = value; log_index = index })
  restore_keys index state

abbrev pub snapshot_at : ℕ → ℕ → String → Snapshot
snapshot_at index term payload = record {
  last_included_index = index;
  last_included_term = term;
  payload = payload;
}

-- `CreateSnapshot` once the state machine is encoded.
unfoldable pub create_encoded : ℕ → ℕ → Option String → Action Store Snapshot
unfolding in_tx save_snapshot compact_log
create_encoded index term none = fail encode_failed
create_encoded index term (some payload) = do
  in_tx do save_snapshot (snapshot_at index term payload); compact_log index
  pure (snapshot_at index term payload)

-- `InstallSnapshot` once the state machine is decoded.
unfoldable pub install_decoded : Snapshot → Option (List (String × String)) → Action Store Done
unfolding in_tx exec restore_keys save_snapshot compact_log
install_decoded snapshot none = fail decode_snapshot
install_decoded snapshot (some state) = in_tx do
  exec (λ t. record t { kv = [] })
  restore_keys snapshot.last_included_index state
  save_snapshot snapshot
  compact_log snapshot.last_included_index

module _ (codec : StateCodec) where
  unfoldable pub create_snapshot : ℕ → ℕ → Action Store Snapshot
  unfolding all create_encoded
  create_snapshot index term = do state ← all; create_encoded index term (codec.marshal state)

  -- `json.Unmarshal` into a map, which keeps the last value of a key. An empty payload stands for the empty state machine.
  abbrev pub decoded : String → Option (List (String × String))
  decoded payload = if same payload "" then some [] else Option.map as_map (codec.unmarshal payload)

  unfoldable pub install_snapshot : Snapshot → Action Store Done
  unfolding install_decoded
  install_snapshot snapshot = install_decoded snapshot (decoded snapshot.payload)
