-- ===== src/Database/Cache.antt =====
-- engine/database/sql_cache.rs: the parse cache, a bounded first-in first-out map from the exact SQL text
-- to the parsed statements. `parse_sql` of parser/dir.rs calls the sqlparser crate and is a parameter;
-- `S` is what it returns and `P` its error.
pub mod Bounded
use a3sql.Prelude.{
  ℕ, zero, suc, ◌+◌, ◌≤◌, ◌<◌, ◌≡◌, refl, ◌∙◌, sym, ap, subst, Bool, true, false, Option, none,
  some, List, [], ◌∷◌, ◌++◌, length, arith, ite, leb, Result, ok, err, if◌then◌else◌, inl, inr,
  Bool-cases, Option-cases,
}
use a3sql.Prelude.Text.{Text, Text-discrete}
use a3sql.Prelude.Texts.{among, Distinct}
use a3sql.Prelude.Dict.{
  Dict, find, put, drop_key, find-put_same, find-put_other, keys, has_key, has_key-among,
  drop_key-Distinct, put-Distinct,
}

pub record LruSqlCache (S : Type 0) : Type 0 where
  pub entries : Dict S
  pub order : List Text
  pub capacity : ℕ
  pub hits : ℕ

abbrev pub default_capacity : ℕ
default_capacity = 512

module _ {S : Type 0} where
  abbrev pub new_cache : LruSqlCache S
  new_cache = record { entries = []; order = []; capacity = default_capacity; hits = 0 }

  -- The eviction of the oldest text, when there are too many.
  unfoldable pub evict : LruSqlCache S → LruSqlCache S
  evict c =
      if leb c.capacity (length c.entries)
      then elim c.order [
        | [] ↦ c
        | ◌∷◌ oldest rest ↦ record c { entries = drop_key oldest c.entries; order = rest }
      ]
      else c

  unfoldable pub cache_insert : Text → S → LruSqlCache S → LruSqlCache S
  unfolding evict
  cache_insert key value c =
      if has_key key c.entries
      then record c { entries = put key value c.entries }
      else let room = evict c in
        record room { entries = put key value room.entries; order = room.order ++ (key ∷ []) }

  unfoldable pub clear_cache : LruSqlCache S → LruSqlCache S
  clear_cache c = record c { entries = []; order = []; hits = 0 }

  unfoldable pub stats : LruSqlCache S → ℕ × ℕ
  stats c = (length c.entries, c.hits)

module _ {S P : Type 0} (parse_sql : Text → Result S P) where
  -- The cache after the lookup, and the statements; on a parse error the cache stays as it is.
  unfoldable pub get_or_parse : Text → LruSqlCache S → LruSqlCache S × Result S P
  unfolding cache_insert
  get_or_parse sql c = elim (find sql c.entries) [
    | some s ↦ (record c { hits = c.hits + 1 }, ok s)
    | none ↦ elim (parse_sql sql) [ err e ↦ (c, err e) | ok s ↦ (cache_insert sql s c, ok s) ]
  ]
