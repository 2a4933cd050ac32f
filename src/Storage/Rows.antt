-- ===== src/Storage/Rows.antt =====
-- The rows of the tables of internal/storage/storage.go and the SQL statements that read and write
-- single tables. `log_entries` is kept in the order of its primary key `idx`, the order in which
-- every query of the program reads it.
use log_replicator_raft.Common.{
  ℕ, String, Option, none, some, List, [], ◌∷◌, ltb, leb, ◌==◌, same, if◌then◌else◌,
}

pub record Entry : Type 0 where
  pub index : ℕ
  pub term : ℕ
  pub command : String

pub record Snapshot : Type 0 where
  pub last_included_index : ℕ
  pub last_included_term : ℕ
  pub payload : String

-- A row of `kv`.
pub record KvRow : Type 0 where
  pub key : String
  pub value : String
  pub log_index : ℕ

-- The five rows of `metadata`, by their keys.
pub record Metadata : Type 0 where
  pub current_term : ℕ
  pub voted_for : String
  pub last_applied : ℕ
  pub snapshot_index : ℕ
  pub snapshot_term : ℕ

pub record Tables : Type 0 where
  pub metadata : Metadata
  pub log_entries : List Entry
  pub kv : List KvRow
  pub snapshot : Option Snapshot

-- What `init` seeds in a new database.
abbrev pub empty_tables : Tables
empty_tables = record {
  metadata = record {
    current_term = 0;
    voted_for = "";
    last_applied = 0;
    snapshot_index = 0;
    snapshot_term = 0;
  };
  log_entries = [];
  kv = [];
  snapshot = none;
}

-- INSERT INTO log_entries … ON CONFLICT(idx) DO UPDATE
unfoldable pub upsert_entry : Entry → List Entry → List Entry
upsert_entry e [] = e ∷ []
upsert_entry e (r ∷ rows) =
    if ltb e.index r.index
    then e ∷ r ∷ rows
    else if e.index == r.index
    then e ∷ rows
    else r ∷ upsert_entry e rows

-- SELECT … FROM log_entries WHERE idx = ?
unfoldable pub find_entry : ℕ → List Entry → Option Entry
find_entry i [] = none
find_entry i (r ∷ rows) = if r.index == i then some r else find_entry i rows

-- SELECT … FROM log_entries ORDER BY idx DESC LIMIT 1
unfoldable pub last_entry : List Entry → Option Entry
last_entry [] = none
last_entry (r ∷ []) = some r
last_entry (r ∷ r' ∷ rows) = last_entry (r' ∷ rows)

-- SELECT … FROM log_entries WHERE idx >= ? ORDER BY idx
unfoldable pub entries_ge : ℕ → List Entry → List Entry
entries_ge i [] = []
entries_ge i (r ∷ rows) = if leb i r.index then r ∷ entries_ge i rows else entries_ge i rows

-- DELETE FROM log_entries WHERE idx >= ?
unfoldable pub delete_ge : ℕ → List Entry → List Entry
delete_ge i [] = []
delete_ge i (r ∷ rows) = let rest = delete_ge i rows in if leb i r.index then rest else r ∷ rest

-- DELETE FROM log_entries WHERE idx <= ?
unfoldable pub delete_le : ℕ → List Entry → List Entry
delete_le i [] = []
delete_le i (r ∷ rows) = let rest = delete_le i rows in if leb r.index i then rest else r ∷ rest

-- INSERT INTO kv … ON CONFLICT(key) DO UPDATE
unfoldable pub upsert_kv : KvRow → List KvRow → List KvRow
upsert_kv e [] = e ∷ []
upsert_kv e (r ∷ rows) = if same r.key e.key then e ∷ rows else r ∷ upsert_kv e rows

-- DELETE FROM kv WHERE key = ?
unfoldable pub delete_kv : String → List KvRow → List KvRow
delete_kv k [] = []
delete_kv k (r ∷ rows) = let rest = delete_kv k rows in if same r.key k then rest else r ∷ rest

-- SELECT value FROM kv WHERE key = ?
unfoldable pub find_kv : String → List KvRow → Option String
find_kv k [] = none
find_kv k (r ∷ rows) = if same r.key k then some r.value else find_kv k rows
