-- ===== src/Storage/Spec.antt =====
-- What each method of `Store` promises, as a function of the tables: the abstract description that
-- the transactions and statements of internal/storage/storage.go implement.
use log_replicator_raft.Common.{
  ℕ, String, same, Option, none, some, List, [], ◌∷◌, map, ltb, leb, ◌==◌, succ64, if◌then◌else◌,
}
use log_replicator_raft.Common.Action.{
  ok, err, constraint, decode_snapshot, encode_failed, Action, Done,
}
use log_replicator_raft.Storage.Rows.{
  Entry, Snapshot, KvRow, Tables, upsert_entry, find_entry, last_entry, entries_ge, delete_le,
  upsert_kv, delete_kv, find_kv,
}
use mathlib.Core.Option
use log_replicator_raft.Storage.Maps.{latest}
use log_replicator_raft.Storage.Store.{StateCodec, limited, snapshot_at}

unfoldable pub with_term_vote : ℕ → String → Tables → Tables
with_term_vote term vote t = record t {
  metadata = record t.metadata { current_term = term; voted_for = vote };
}

unfoldable pub with_applied : ℕ → Tables → Tables
with_applied index t = record t { metadata = record t.metadata { last_applied = index } }

-- The position of the last entry, or of the snapshot when the log is empty.
unfoldable pub last_position : Tables → ℕ × ℕ
last_position t = elim (last_entry t.log_entries) [
  | none ↦ (t.metadata.snapshot_index, t.metadata.snapshot_term)
  | some e ↦ (e.index, e.term)
]

unfoldable pub known_term : ℕ → Tables → Option ℕ
known_term index t =
    if index == 0
    then some 0
    else if index == t.metadata.snapshot_index
    then some t.metadata.snapshot_term
    else if ltb index t.metadata.snapshot_index
    then none
    else elim (find_entry index t.log_entries) [ none ↦ none | some e ↦ some e.term ]

unfoldable pub tail_from : ℕ → ℕ → Tables → List Entry
tail_from start limit t =
    let floor = t.metadata.snapshot_index in
    limited limit (entries_ge (if leb start floor then succ64 floor else start) t.log_entries)

unfoldable pub upsert_entries : List Entry → List Entry → List Entry
upsert_entries [] rows = rows
upsert_entries (e ∷ entries) rows = upsert_entries entries (upsert_entry e rows)

abbrev pub with_log : List Entry → Tables → Tables
with_log rows t = record t { log_entries = rows }

unfoldable pub with_set : ℕ → String → String → Tables → Tables
with_set index key value t = record t {
  metadata = record t.metadata { last_applied = index };
  kv = upsert_kv (record { key = key; value = value; log_index = index }) t.kv;
}

unfoldable pub with_delete : ℕ → String → Tables → Tables
with_delete index key t = record t {
  metadata = record t.metadata { last_applied = index };
  kv = delete_kv key t.kv;
}

-- The map that the rows of `kv` stand for.
unfoldable pub state_of : Tables → List (String × String)
state_of t = map (λ r. (r.key, r.value)) t.kv

-- The tables once a snapshot is recorded and the log it covers is gone.
unfoldable pub with_snapshot : Snapshot → Tables → Tables
with_snapshot s t = record t {
  metadata = record t.metadata {
    last_applied = s.last_included_index;
    snapshot_index = s.last_included_index;
    snapshot_term = s.last_included_term;
  };
  log_entries = delete_le s.last_included_index t.log_entries;
  snapshot = some s;
}

-- The rows of a decoded map, on top of rows that are there; a repeated key is refused.
unfoldable pub restored_rows : ℕ → List (String × String) → Action (List KvRow) Done
restored_rows index [] rows = (ok tt, rows)
restored_rows index ((key, value) ∷ state) rows =
    let rest =
      restored_rows index state (record { key = key; value = value; log_index = index } ∷ rows) in
    elim (find_kv key rows) [ some _ ↦ (err constraint, rows) | none ↦ rest ]

unfoldable pub created_encoded : ℕ → ℕ → Option String → Action Tables Snapshot
unfolding with_snapshot
created_encoded index term none t = (err encode_failed, t)
created_encoded index term (some payload) t =
    (ok (snapshot_at index term payload), with_snapshot (snapshot_at index term payload) t)

-- The rows of a decoded map.
unfoldable pub rows_of : ℕ → List (String × String) → List KvRow → List KvRow
rows_of index [] rows = rows
rows_of index ((key, value) ∷ state) rows =
    rows_of index state (record { key = key; value = value; log_index = index } ∷ rows)

unfoldable pub installed_decoded : Snapshot → Option (List (String × String)) → Action Tables Done
unfolding with_snapshot rows_of
installed_decoded s none t = (err decode_snapshot, t)
installed_decoded s (some state) t =
    (ok tt, with_snapshot s (record t { kv = rows_of s.last_included_index state [] }))

module _ (codec : StateCodec) where
  unfoldable pub created : ℕ → ℕ → Action Tables Snapshot
  unfolding state_of created_encoded
  created index term t = created_encoded index term (codec.marshal (state_of t)) t

  -- The state machine that a payload stands for: an empty one for no text at all, otherwise the
  -- last member of each key.
  unfoldable pub state_in : String → Option (List (String × String))
  state_in payload =
      if same payload "" then some [] else Option.map latest (codec.unmarshal payload)

  unfoldable pub installed : Snapshot → Action Tables Done
  unfolding installed_decoded
  installed s = installed_decoded s (state_in s.payload)
