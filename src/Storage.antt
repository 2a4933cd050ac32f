-- ===== src/Storage.antt =====
-- The durable part of a node (internal/storage/storage.go): rows of the four tables, the SQL
-- statements over them, the methods of `Store`, and the theorems about these.
pub mod Rows
pub mod Statement
pub mod Maps
pub mod Store
pub mod Refine
pub mod Spec
pub mod Methods
pub mod Atomic
pub mod Roundtrip
pub mod Contiguous
pub mod Keys
pub mod Restored
pub mod Intact
