-- ===== src/Serialize.antt =====
-- engine/serialize: the formats in which a database is saved and loaded.
pub mod Bytes
pub mod Binary
pub mod Csv
