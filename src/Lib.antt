-- ===== src/Lib.antt =====
-- A3SQL, an in-memory SQL engine for the game Arma 3 (extension/src): its storage, parts of its queries
-- and its script language.
--
-- The engine parses a SQL text with the sqlparser crate, through a parse cache, and runs the
-- statements against a database of tables. A table (extension/src/engine/table.rs and the folder
-- beside it) is a list of rows with a map from PRIMARY KEY texts to rows, sets of PRIMARY KEY and
-- UNIQUE texts, and secondary indices (index.rs) from cells to row positions. The database
-- (database.rs) holds the tables and views by name, a stack of snapshots for transactions, and
-- cursors, prepared statements, settings and the parse cache. serialize/binary.rs saves it to bytes
-- and loads it again by inserting the rows anew.
--
-- The files and the code they are about, by their paths under extension/src/engine:
--   Value, Value/Float      value.rs: column types, columns, values; the bits of floats
--   Value/Group             value.rs: `GroupKey`, its equality and its hash
--   Error                   error.rs: the typed errors; a formatted message is a constructor
--   Error/Codes             error.rs: `ErrorCode`, `code`, `from_str` and the responses
--   Host                    what comes from outside: Rust's float and letter-case conversions, and
--                           the syntax nodes of sqlparser with the functions that read them
--   Index                   index.rs and `trigrams` of table/schema.rs: `BTreeIndex` and
--                           `TrigramIndex`; a `BTreeMap` is its entries in key order
--   Index/KeyOrder          the order of `encode_key`
--   Index/BTree             `insert`, `remove`, `lookup` and `range` of BTREE
--   Index/Trigram           `insert`, `remove` and `like_candidates` of TRIGRAM
--   Table/Defs              table.rs: the table, `new`, `rebuild_index`, `create_index`, `drop_index`
--   Table/Keys              table/schema.rs: `encode_part`, `pk_key_static`, `unique_keys`
--   Table/Coerce            table/schema.rs: `coerce_value`, `type_match`; the checks of `insert`
--   Table/Rows              table/row_ops.rs: `insert`, `replace_by_pk`, `delete`, `update_cell`,
--                           `truncate`
--   Table/Schema            table/schema.rs: `add_column`, `rename_column`, `drop_column`
--   Table/Access            the accessors, `update` and `select`
--   Table/Panics            `insert`, `delete` and `create_index` with the panic of an index that
--                           reads beyond a row, and the tables that are free of it
--   Table/Indexed           the BTREE indices against the rows, under insert, delete and rebuild
--   Table/Keyed             the keys beside the rows against the rows, under insert, delete, rebuild
--                           and reload
--   Database                database.rs, database/views.rs, cursor.rs and prepared.rs
--   Database/Cache          database/sql_cache.rs: `LruSqlCache`
--   Database/Transaction    `begin`, `commit`, `rollback` and the savepoints
--   Database/Catalog        the tables by name
--   Serialize/Bytes         little-endian numbers, UTF-8, flag bits and the checksum
--   Serialize/Binary        serialize/binary.rs: `export_binary` and its parts, the reading of values
--   Serialize/Binary/Import `read_bin_table` and `import_binary`; beside it the round trips
--   Serialize/Csv           serialize/csv.rs: `export_csv`, `import_csv`, `parse_csv_line`
--   Functions/Operators     functions/eval/ops.rs: the operators on values; value.rs: `db_value_cmp`
--   Functions/Wildcard      functions/eval/ops.rs: `wildcard_match`
--   Functions/Cast          functions/eval/cast.rs: `cast_db_value`; value.rs: the display of values
--   Functions/Aggregates    functions/aggregate.rs: COUNT, SUM, AVG, MIN and MAX of a group
--   Query/SetOps            stmts/select/union.rs: UNION, EXCEPT, INTERSECT
--   Query/Paging            stmts/select/sort.rs: `apply_limit_offset`
--   Query/Groups            functions/aggregate.rs: `partition_by_group`
--   Sqf/Token, Sqf/Lexer    sqf/lexer.rs: tokens and `tokenize`
--   Sqf/Parser              sqf/parser.rs: the Pratt parser; beside it a printer
--   Sqf/Eval                sqf/eval.rs: the evaluator
--   Prelude                 lists, results, 64-bit integers, byte strings, decimals, maps, sets
--   Examples                concrete data, and the theorems applied to it
--
-- A string is the list of its UTF-8 bytes, an `i64` an integer with its range as a hypothesis, an
-- `f64` the number of its 64 bits. A `HashMap` that is only looked up is a function, one that is
-- counted or listed is its entries in the order of insertion. An operation on a table or database
-- takes the state and returns the new one, or the error; `none` in place of a result is a panic. The
-- table operations of Table/Rows and Table/Defs pass over a cell that an index looks for beyond a
-- row, where the source panics; Table/Panics has them with that panic. A
-- release build is modelled, in which the overflow of `+`, `-` and `*` wraps.
--
-- The loops of the storage are structural recursion over rows, columns, entries or counts. The lexer runs
-- on a unit of fuel for each character, since each round takes one at least; the SQF parser on three
-- units for each token and three more, since each of its four calls either takes a token or hands on to
-- the next.
--
-- Not modelled: the SQL front end, the execution of SELECT, the built-in SQL functions,
-- COUNT(DISTINCT) and GROUP_CONCAT, the SQF commands (a parameter that can fail or panic), the JSON format, the statement handlers, the
-- command dispatch, the C interface and the server. The sqlparser crate, the arma3_wiki crate, the
-- machine's float arithmetic, Rust's `trim` and letter case and the evaluation of DEFAULT expressions
-- are parameters.
pub mod Prelude
pub mod Value
pub mod Host
pub mod Error
pub mod Index
pub mod Table
pub mod Database
pub mod Sqf
pub mod Functions
pub mod Query
pub mod Serialize
pub mod Examples
