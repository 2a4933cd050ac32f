-- ===== src/Storage/Intact.antt =====
-- The invariant of the tables of internal/storage/storage.go: the log has no gaps behind the snapshot and
-- no key stands in two rows. What each method promises keeps it.
use mathlib.Core.Option
use log_replicator_raft.Storage.Maps.{as_map, as_map-IsMap}
use log_replicator_raft.Storage.Restored.{rows_of-IsKeyed}
use log_replicator_raft.Common.{
  Bool, true, false, same, if◌then◌else◌, ℕ, ◌+◌, ◌≤◌, ◌≡◌, String, Option, none, some, List, [],
  arith, length, refl, sym,
}
use mathlib.Core.Path.{subst}
use log_replicator_raft.Common.Action.{Result, Done}
use log_replicator_raft.Storage.Methods.{installed-decoded}
use log_replicator_raft.Storage.Rows.{Entry, Snapshot, Tables, empty_tables, last_entry}
use log_replicator_raft.Storage.Store.{StateCodec, snapshot_at}
use log_replicator_raft.Storage.Spec.{
  with_term_vote, with_applied, with_set, with_delete, with_log, with_snapshot, rows_of, created,
  created_encoded, installed, installed_decoded, state_of, last_position,
}
use log_replicator_raft.Storage.Contiguous.{
  IsRun, delete_le-IsRun, last_entry-IsRun, last_entry-none,
}
use log_replicator_raft.Storage.Keys.{IsKeyed, upsert_kv-IsKeyed, delete_kv-IsKeyed}

abbrev pub IsIntact : Tables → Type 0
IsIntact t = IsRun (t.metadata.snapshot_index + 1) t.log_entries × IsKeyed t.kv

pub empty_tables-IsIntact : IsIntact empty_tables
unfolding IsKeyed
empty_tables-IsIntact = (tt, refl)

pub with_term_vote-IsIntact :
    (term : ℕ) (vote : String) (t : Tables) → IsIntact t → IsIntact (with_term_vote term vote t)
unfolding with_term_vote
with_term_vote-IsIntact term vote t h = h

pub with_applied-IsIntact : (index : ℕ) (t : Tables) → IsIntact t → IsIntact (with_applied index t)
unfolding with_applied
with_applied-IsIntact index t h = h

pub with_set-IsIntact :
    (index : ℕ) (key value : String) (t : Tables)
    → IsIntact t
    → IsIntact (with_set index key value t)
unfolding with_set
with_set-IsIntact index key value t h =
    (h.0, upsert_kv-IsKeyed (record { key = key; value = value; log_index = index }) t.kv h.1)

pub with_delete-IsIntact :
    (index : ℕ) (key : String) (t : Tables) → IsIntact t → IsIntact (with_delete index key t)
unfolding with_delete
with_delete-IsIntact index key t h = (h.0, delete_kv-IsKeyed key t.kv h.1)

with_snapshot-IsIntact :
    (s : Snapshot) (t : Tables)
    → IsIntact t
    → t.metadata.snapshot_index ≤ s.last_included_index
    → IsIntact (with_snapshot s t)
unfolding with_snapshot
with_snapshot-IsIntact s t h later = (
  delete_le-IsRun s.last_included_index (t.metadata.snapshot_index + 1) t.log_entries h.0
      (omega arith),
  h.1,
)

pub created-IsIntact :
    (codec : StateCodec) (index term : ℕ) (t : Tables)
    → IsIntact t
    → t.metadata.snapshot_index ≤ index
    → IsIntact (created codec index term t).1
unfolding created created_encoded
created-IsIntact codec index term t h later = on (codec.marshal (state_of t))
  where
    on : (o : Option String) → IsIntact (created_encoded index term o t).1
    on none = h
    on (some payload) = with_snapshot-IsIntact (snapshot_at index term payload) t h later

pub installed-IsIntact :
    (codec : StateCodec) (s : Snapshot) (t : Tables)
    → IsIntact t
    → t.metadata.snapshot_index ≤ s.last_included_index
    → IsIntact (installed codec s t).1
unfolding installed_decoded IsKeyed as_map
installed-IsIntact codec s t h later =
    subst (λ (x : Result Done × Tables). IsIntact x.1) (sym (installed-decoded codec s t))
      (by_payload (same s.payload ""))
  where
    on :
        (o : Option (List (String × String)))
        → IsIntact (installed_decoded s (Option.map as_map o) t).1
    on none = h
    on (some members) =
        with_snapshot-IsIntact s
          (record t { kv = rows_of s.last_included_index (as_map members) [] })
          (h.0, rows_of-IsKeyed s.last_included_index (as_map members) (as_map-IsMap members)) later

    by_payload :
        (b : Bool)
        → IsIntact
            (installed_decoded s
              (if b then some [] else Option.map as_map (codec.unmarshal s.payload))
              t).1
    by_payload true = on (some [])
    by_payload false = on (codec.unmarshal s.payload)

-- The position behind the log: where the next entry goes.
pub last_position-end :
    (t : Tables)
    → IsIntact t
    → (last_position t).0 + 1 ≡ t.metadata.snapshot_index + 1 + length t.log_entries
unfolding last_position
last_position-end t h = on (last_entry t.log_entries) refl
  where
    position : Option Entry → ℕ × ℕ
    position o = elim o [
      | none ↦ (t.metadata.snapshot_index, t.metadata.snapshot_term)
      | some e ↦ (e.index, e.term)
    ]

    on :
        (o : Option Entry)
        → last_entry t.log_entries ≡ o
        → (position o).0 + 1 ≡ t.metadata.snapshot_index + 1 + length t.log_entries
    on none e = let nil = last_entry-none t.log_entries e in ground arith
    on (some r) e = last_entry-IsRun (t.metadata.snapshot_index + 1) t.log_entries r h.0 e

pub with_log-IsIntact :
    (rows : List Entry) (t : Tables)
    → IsIntact t
    → IsRun (t.metadata.snapshot_index + 1) rows
    → IsIntact (with_log rows t)
with_log-IsIntact rows t h run = (run, h.1)
