-- ===== src/Error.antt =====
-- engine/error.rs: the typed errors of the engine. A message that the source builds by `format!` is a
-- constructor of `Message` with the values that it prints.
pub mod Codes
use a3sql.Prelude.{ℕ}
use a3sql.Prelude.Text.{Text}
use a3sql.Value.{ColumnType, DbValue}

pub data Message : Type 0 where
  -- table.rs
  no_columns : Message
  duplicate_column : Text → Message
  no_column_in_table : Text → Text → Message
  index_exists no_such_index : Text → Message
  -- table/row_ops.rs
  insert_arity : ℕ → ℕ → Message
  column_cannot_be_null : Text → Message
  -- database.rs and its children
  no_active_transaction : Message
  savepoint_not_found : Text → Message
  table_exists table_missing table_not_found : Text → Message
  is_a_table view_exists view_missing cursor_not_found prepared_not_found : Text → Message
  -- stmts/select/union.rs
  expected_set_operation : Message
  -- what another part reports as text
  text : Text → Message

pub data EngineError : Type 0 where
  table_not_found table_already_exists column_not_found : Text → EngineError
  column_not_found_in_table : Text → Text → EngineError
  column_already_exists null_primary_key duplicate_key : Text → EngineError
  index_not_found index_already_exists view_not_found trigger_already_exists : Text → EngineError
  parse exec : Message → EngineError
  type_error : ColumnType → DbValue → EngineError
  io : Message → EngineError
  savepoint_exists savepoint_not_found : Text → EngineError
  internal : Message → EngineError
