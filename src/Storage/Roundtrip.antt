-- ===== src/Storage/Roundtrip.antt =====
-- A snapshot that one node makes and another installs (`CreateSnapshot` and `InstallSnapshot` of
-- internal/storage/storage.go).

use mathlib.Core.Option
use log_replicator_raft.Storage.Maps.{lookup, as_map, IsMap, as_map-IsMap, latest, latest-as_map}
use log_replicator_raft.Storage.Restored.{find_kv-rows_of, lookup-rows, rows-IsMap}
use log_replicator_raft.Common.{
  ℕ, String, Bool, true, false, ◌≡◌, ◌≢◌, refl, ◌∙◌, ap, sym, ◌⊎◌, inl, inr, Option, none, some,
  List, [], arith, same, same→eq, if◌then◌else◌,
}
use log_replicator_raft.Common.Action.{Result, ok, Done}
use log_replicator_raft.Storage.Rows.{KvRow, Snapshot, Tables, find_kv}
use log_replicator_raft.Storage.Keys.{IsKeyed}
use log_replicator_raft.Storage.Statement.{Store}
use log_replicator_raft.Storage.Store.{StateCodec, create_snapshot, install_snapshot}
use log_replicator_raft.Storage.Spec.{
  state_of, installed, installed_decoded, with_snapshot, created, created_encoded,
}
use log_replicator_raft.Storage.Refine.{Faulted, Agrees}
use log_replicator_raft.Storage.Methods.{
  create_snapshot-Refines, install_snapshot-Refines, installed-decoded,
}

-- What a map that has the values of the rows of another node leaves.
installed_decoded-rows :
    (snapshot : Snapshot) (state : List (String × String)) (rows : List KvRow) (t : Tables)
    (key : String)
    → IsMap state
    → lookup key state ≡ find_kv key rows
    → ((installed_decoded snapshot (some state) t).0 ≡ ok tt)
      × (find_kv key (installed_decoded snapshot (some state) t).1.kv ≡ find_kv key rows)
unfolding installed_decoded with_snapshot
installed_decoded-rows snapshot state rows t key distinct same_value =
    (refl, find_kv-rows_of snapshot.last_included_index state key distinct ∙ same_value)

module _ (codec : StateCodec) where
  made :
      (index term : ℕ) (t : Tables) (snapshot : Snapshot) (o : Option String)
      → (created_encoded index term o t).0 ≡ ok snapshot
      → o ≡ some snapshot.payload
  unfolding created_encoded
  made index term t snapshot none e = absurd (cc)
  made index term t snapshot (some payload) e = ground arith

  create_snapshot-payload :
      (index term : ℕ) (s : Store) (snapshot : Snapshot)
      → s.faults ≡ []
      → (create_snapshot codec index term s).0 ≡ ok snapshot
      → codec.marshal (state_of s.tables) ≡ some snapshot.payload
  unfolding created
  create_snapshot-payload index term s snapshot q e =
      let o = (create_snapshot-Refines codec index term).outcome s in
      made index term s.tables snapshot (codec.marshal (state_of s.tables)) (ground arith)

  -- Decoding what was encoded gives a map with the same values, in some order of its keys, as the
  -- members of the object have it.
  abbrev pub Recovers : Type 0
  Recovers =
      (state : List (String × String)) (text : String)
      → IsMap state
      → codec.marshal state ≡ some text
      → (members : List (String × String)) × (codec.unmarshal text ≡ some members)
        × ((key : String) → lookup key (latest members) ≡ lookup key state)

  -- A node that installs a snapshot which another node made holds the same value for every key as
  -- that node, when that node has no key in two rows, decoding an encoded map gives a map with the
  -- same value for every key, an encoded state is not the empty text, and no call of either driver
  -- fails.
  pub find_kv-installed :
      Recovers
      → ((state : List (String × String)) → codec.marshal state ≢ some "")
      → (index term : ℕ) (s s' : Store) (snapshot : Snapshot) (key : String) → s.faults ≡ []
      → s'.faults ≡ []
      → IsKeyed s.tables.kv
      → (create_snapshot codec index term s).0 ≡ ok snapshot
      → ((install_snapshot codec snapshot s').0 ≡ ok tt)
        × (find_kv key (install_snapshot codec snapshot s').1.tables.kv ≡ find_kv key s.tables.kv)
  unfolding state_of
  find_kv-installed law filled index term s s' snapshot key q q' keyed e =
      let text = create_snapshot-payload index term s snapshot q e in
      let (members, back, values) =
        law (state_of s.tables) snapshot.payload (rows-IsMap s.tables.kv keyed) text in
      let read = reading (same snapshot.payload "") refl text members back in
      let o = (install_snapshot-Refines codec snapshot).outcome s' in
      let (done, value) =
        installed_decoded-rows snapshot (as_map members) s.tables.kv s'.tables key
          (as_map-IsMap members)
          (ap (lookup key) (sym (latest-as_map members))
            ∙ values key
            ∙ lookup-rows s.tables.kv key) in
      let spec : installed codec snapshot s'.tables
          ≡ installed_decoded snapshot (some (as_map members)) s'.tables =
        installed-decoded codec snapshot s'.tables
        ∙ ap (λ (o : Option (List (String × String))). installed_decoded snapshot o s'.tables)
            read in
      agreed o (ap (λ (x : Result Done × Tables). x.0) spec ∙ done)
        (ap (λ (x : Result Done × Tables). find_kv key x.1.kv) spec ∙ value)
    where
      reading :
          (b : Bool)
          → same snapshot.payload "" ≡ b
          → codec.marshal (state_of s.tables) ≡ some snapshot.payload
          → (members : List (String × String)) → codec.unmarshal snapshot.payload ≡ some members
          → (if b then some [] else Option.map as_map (codec.unmarshal snapshot.payload))
            ≡ some (as_map members)
      reading true h text members back =
          absurd (filled (state_of s.tables) (text ∙ ap some (same→eq snapshot.payload "" h)))
      reading false h text members back = ap (Option.map as_map) back

      agreed :
          (Faulted (install_snapshot codec snapshot s').0 s'
              × ((install_snapshot codec snapshot s').1.tables ≡ s'.tables))
            ⊎ Agrees (install_snapshot codec snapshot s') (installed codec snapshot s'.tables)
          → (installed codec snapshot s'.tables).0 ≡ ok tt
          → find_kv key (installed codec snapshot s'.tables).1.kv ≡ find_kv key s.tables.kv
          → ((install_snapshot codec snapshot s').0 ≡ ok tt)
            × (find_kv key (install_snapshot codec snapshot s').1.tables.kv
                ≡ find_kv key s.tables.kv)
      agreed (inl ((bad, _), _)) done value = absurd (bad q')
      agreed (inr (result, tables)) done value =
          (result ∙ done, ap (λ (t : Tables). find_kv key t.kv) tables ∙ value)
