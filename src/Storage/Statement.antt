-- ===== src/Storage/Statement.antt =====
-- Database calls and transactions of internal/storage/storage.go. The SQLite driver is not modelled:
-- what it answers enters as `faults`, one Boolean for each coming call, `true` for a reported error.
-- A script that has run out means calls that succeed.
use log_replicator_raft.Common.{Bool, true, false, List, [], ◌∷◌}
use log_replicator_raft.Common.Action.{Result, ok, err, database, Action, Done, ◌>>◌}
use log_replicator_raft.Storage.Rows.{Tables, Metadata}

pub record Store : Type 0 where
  pub tables : Tables
  pub faults : List Bool

-- The outcome of one call by the driver.
abbrev pub answer : Store → List Bool → Result Done × Store
answer s [] = (ok tt, s)
answer s (false ∷ rest) = (ok tt, record s { faults = rest })
answer s (true ∷ rest) = (err database, record s { faults = rest })

unfoldable pub access : Action Store Done
access s = answer s s.faults

-- A SELECT.
unfoldable pub query : {A : Type 0} → (Tables → A) → Action Store A
unfolding access
query read = do access; λ s. (ok (read s.tables), s)

-- An INSERT, UPDATE or DELETE.
unfoldable pub exec : (Tables → Tables) → Action Store Done
unfolding access
exec write = do access; λ s. (ok tt, record s { tables = write s.tables })

module _ {A : Type 0} where
  -- The end of a transaction that began with the tables `t`: a failed COMMIT keeps nothing.
  abbrev pub committed : Tables → A → Result Done × Store → Result A × Store
  committed t a (ok _, s) = (ok a, s)
  committed t a (err e, s) = (err e, record s { tables = t })

  -- COMMIT after a body that succeeded, ROLLBACK after one that failed.
  abbrev pub finish : Tables → Result A × Store → Result A × Store
  finish t (ok a, s) = committed t a (access s)
  finish t (err e, s) = (err e, record s { tables = t })

  unfoldable pub in_tx : Action Store A → Action Store A
  unfolding access
  in_tx body = do access; λ s. finish s.tables (body s)

-- `setMeta`: one row of `metadata`.
unfoldable pub set_meta : (Metadata → Metadata) → Action Store Done
unfolding exec
set_meta f = exec (λ t. record t { metadata = f t.metadata })
