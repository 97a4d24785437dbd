-- ===== src/Examples/Databases.antt =====
-- The theorems on the database, its transactions and its parse cache at concrete states.
use a3sql.Prelude.{◌≡◌, refl, arith, none, some, List, [], ◌∷◌, ◌++◌, Result, ok}
use a3sql.Prelude.Text.{Text, bytes, Text-discrete}
use a3sql.Prelude.Texts.{among}
use a3sql.Database.{
  Database, Snapshot, snapshot, restore, begin, commit, rollback, savepoint, rollback_to_savepoint,
  create_table, add_table, rename_table, has_table, table_names, new,
}
use a3sql.Database.Transaction.{
  Runs, done, edit, writes, rollback-begin, commit-begin, rollback_to_savepoint-savepoint,
}
use a3sql.Database.Catalog.{HasNames, Sorted, table_names-Sorted}
use a3sql.Database.Cache.{LruSqlCache, new_cache, get_or_parse}
use a3sql.Database.Cache.Bounded.{IsCache, get_or_parse-IsCache, get_or_parse-parse_sql}
use a3sql.Examples.{example_table}

abbrev State : Type 0
State = Database Text Text

abbrev start : State
start = new

abbrev one_table : State
one_table = add_table (bytes "t") example_table start

-- A transaction that writes a second table.
abbrev inside : State
inside = add_table (bytes "u") example_table (begin one_table)

writes_table : Runs (begin one_table) inside
writes_table = edit (writes (bytes "u") example_table) done

rollback-begin_example :
    ((rollback inside).tables ≡ one_table.tables)
    × ((rollback inside).views ≡ one_table.views)
    × ((rollback inside).savepoints ≡ one_table.savepoints)
rollback-begin_example = rollback-begin one_table {db' = inside} writes_table

commit-begin_example : commit inside ≡ ok (record inside { savepoints = one_table.savepoints })
commit-begin_example = commit-begin one_table {db' = inside} writes_table

-- A named savepoint, then an unnamed one on top and another table.
abbrev above_savepoint : State
above_savepoint = add_table (bytes "u") example_table (begin (savepoint (bytes "s") one_table))

abbrev newer : List (Snapshot Text Text)
newer = snapshot none (savepoint (bytes "s") one_table) ∷ []

above_stack : above_savepoint.savepoints ≡ newer ++ (savepoint (bytes "s") one_table).savepoints
unfolding savepoint begin add_table
above_stack = refl

rollback_to_savepoint-savepoint_example :
    rollback_to_savepoint (bytes "s") above_savepoint
    ≡ ok (restore (snapshot (some (bytes "s")) one_table) one_table.savepoints above_savepoint)
rollback_to_savepoint-savepoint_example =
    rollback_to_savepoint-savepoint (bytes "s") one_table newer above_savepoint (refl, tt)
      above_stack

u_created :
    create_table (bytes "u") example_table one_table
    ≡ ok (add_table (bytes "u") example_table one_table)
unfolding create_table add_table Text-discrete
u_created = refl

abbrev renamed : State
renamed = record one_table { tables = (bytes "vv", example_table) ∷ [] }

t_renamed : rename_table (bytes "t") (bytes "vv") one_table ≡ ok renamed
unfolding rename_table add_table Text-discrete
t_renamed = refl

one_name : HasNames (begin one_table)
unfolding begin add_table
one_name = (refl, tt)

table_names-Sorted_example :
    Sorted (table_names (begin one_table))
    × ((name : Text)
        → among name (table_names (begin one_table)) ≡ has_table name (begin one_table))
table_names-Sorted_example = table_names-Sorted (begin one_table) one_name

-- A parser that accepts every text and returns it.
abbrev echo : Text → Result Text Text
echo sql = ok sql

abbrev one_text : LruSqlCache Text
one_text = (get_or_parse echo (bytes "q") (record new_cache { capacity = 1 })).0

empty_IsCache : IsCache echo (record new_cache { capacity = 1 })
empty_IsCache = record {
  bounded = record { same_order = refl; distinct = tt; within = omega arith; room = omega arith };
  sound = λ k s e. cc;
}

one_IsCache : IsCache echo one_text
one_IsCache =
    get_or_parse-IsCache echo (bytes "q") (record new_cache { capacity = 1 }) empty_IsCache

get_or_parse-IsCache_example : IsCache echo (get_or_parse echo (bytes "r") one_text).0
get_or_parse-IsCache_example = get_or_parse-IsCache echo (bytes "r") one_text one_IsCache

get_or_parse-parse_sql_example : (get_or_parse echo (bytes "q") one_text).1 ≡ echo (bytes "q")
get_or_parse-parse_sql_example = get_or_parse-parse_sql echo (bytes "q") one_text one_IsCache
