-- ===== src/Witnesses/Snapshots.antt =====
-- A snapshot that one concrete store makes and another installs.
use log_replicator_raft.Common.{◌≡◌, refl, [], ◌∷◌}
use log_replicator_raft.Common.Action.{ok}
use log_replicator_raft.Storage.Rows.{Snapshot, Tables, find_kv}
use log_replicator_raft.Storage.Statement.{Store}
use log_replicator_raft.Storage.Store.{create_snapshot, install_snapshot}
use log_replicator_raft.Storage.Roundtrip.{find_kv-installed}
use log_replicator_raft.Storage.Keys.{IsKeyed}
use log_replicator_raft.Storage.Maps.{as_map, lookup}
use log_replicator_raft.Witnesses.{quiet_store, used_tables}
use log_replicator_raft.Witnesses.Texts.{map_codec, map_codec-Recovers, map_codec-filled}

-- A store with two keys.
abbrev two_keys : Tables
two_keys = record used_tables {
  kv =
      record { key = "b"; value = "2"; log_index = 2 }
      ∷ record { key = "a"; value = "1"; log_index = 1 }
      ∷ [];
}

abbrev used_store : Store
used_store = record { tables = two_keys; faults = [] }

abbrev taken : Snapshot
taken = record { last_included_index = 2; last_included_term = 1; payload = "xxb;x2;xa;x1;" }

makes : (create_snapshot map_codec 2 1 used_store).0 ≡ ok taken
unfolding create_snapshot map_codec
makes = refl

keyed : IsKeyed two_keys.kv
unfolding IsKeyed find_kv
keyed = (refl, (refl, refl))

find_kv-installed_example :
    ((install_snapshot map_codec taken quiet_store).0 ≡ ok tt)
    × (find_kv "a" (install_snapshot map_codec taken quiet_store).1.tables.kv
        ≡ find_kv "a" two_keys.kv)
find_kv-installed_example =
    find_kv-installed map_codec map_codec-Recovers map_codec-filled 2 1 used_store quiet_store taken
      "a" refl refl keyed makes

-- A key that comes twice has its last value.
last_value : as_map (("a", "1") ∷ ("b", "2") ∷ ("a", "3") ∷ []) ≡ ("b", "2") ∷ ("a", "3") ∷ []
unfolding as_map lookup
last_value = refl
