-- ===== src/Database/Cache/Bounded.antt =====
-- The bound and the answers of the parse cache (engine/database/sql_cache.rs).
use a3sql.Prelude.{
  ◌+◌, ◌≤◌, ◌<◌, ◌≡◌, refl, ◌∙◌, sym, ap, subst, true, false, Option, none, some, List, [], ◌∷◌,
  ◌++◌, length, arith, leb, Result, ok, err, inl, inr, Bool-cases, Option-cases,
}
use a3sql.Prelude.Text.{Text, Text-discrete}
use a3sql.Prelude.Texts.{among, Distinct}
use a3sql.Prelude.Dict.{
  Dict, find, put, drop_key, find-put_same, find-put_other, keys, has_key, has_key-among,
  put-Distinct,
}
use a3sql.Database.Cache.{LruSqlCache, evict, cache_insert, get_or_parse}

module _ {S : Type 0} where
  -- The queue lists the texts of the entries in their order of insertion, each once, and there are at
  -- most `capacity` of them.
  pub record IsBounded (c : LruSqlCache S) : Type 0 where
    pub same_order : keys c.entries ≡ c.order
    pub distinct : Distinct (keys c.entries)
    pub within : length c.entries ≤ c.capacity
    pub room : 0 < c.capacity

  keys-put_new :
      (k : Text) (v : S) (d : Dict S) → has_key k d ≡ false → keys (put k v d) ≡ keys d ++ (k ∷ [])
  keys-put_new k v [] h = refl
  keys-put_new k v ((j, w) ∷ d) h = ground (arith, keys-put_new k v d)

  length-put_new :
      (k : Text) (v : S) (d : Dict S) → has_key k d ≡ false → length (put k v d) ≡ length d + 1
  length-put_new k v [] h = ground arith
  length-put_new k v ((j, w) ∷ d) h = ground (arith, length-put_new k v d)

  keys-put_old : (k : Text) (v : S) (d : Dict S) → has_key k d ≡ true → keys (put k v d) ≡ keys d
  keys-put_old k v [] h = ground arith
  keys-put_old k v ((j, w) ∷ d) h = ground (arith, keys-put_old k v d)

  length-put_old :
      (k : Text) (v : S) (d : Dict S) → has_key k d ≡ true → length (put k v d) ≡ length d
  length-put_old k v [] h = ground arith
  length-put_old k v ((j, w) ∷ d) h = ground (arith, length-put_old k v d)

  drop_key-absent : (k : Text) (d : Dict S) → among k (keys d) ≡ false → drop_key k d ≡ d
  drop_key-absent k [] h = refl
  drop_key-absent k ((j, w) ∷ d) h = ground (arith, drop_key-absent k d)

  -- What the eviction leaves: the invariant, a place for one more text, and no other entry.
  record HasRoom (c c' : LruSqlCache S) : Type 0 where
    same_order : keys c'.entries ≡ c'.order
    distinct : Distinct (keys c'.entries)
    below : length c'.entries < c.capacity
    same_capacity : c'.capacity ≡ c.capacity
    absent : (k : Text) → among k (keys c.entries) ≡ false → among k (keys c'.entries) ≡ false
    shrinks : (k : Text) (s : S) → find k c'.entries ≡ some s → find k c.entries ≡ some s

  abbrev drop_oldest : LruSqlCache S → List Text → LruSqlCache S
  drop_oldest c [] = c
  drop_oldest c (oldest ∷ rest) = record c { entries = drop_key oldest c.entries; order = rest }

  find-tail :
      (k j : Text) (v s : S) (d : Dict S)
      → among j (keys d) ≡ false
      → find k d ≡ some s
      → find k ((j, v) ∷ d) ≡ some s
  find-tail k j v s d h e = ground (arith, has_key-among k d)

  drop_oldest-HasRoom :
      (c : LruSqlCache S) (d : Dict S) (order : List Text)
      → keys d ≡ order
      → Distinct (keys d)
      → length d ≤ c.capacity
      → 0 < c.capacity
      → c.capacity ≤ length d
      → HasRoom (record c { entries = d }) (drop_oldest (record c { entries = d }) order)
  drop_oldest-HasRoom c [] order e n w r f = absurd (omega arith)
  drop_oldest-HasRoom c ((k, v) ∷ d) [] e n w r f = absurd (cc)
  drop_oldest-HasRoom c ((k, v) ∷ d) (o ∷ order) e n w r f =
      let gone : drop_key o ((k, v) ∷ d) ≡ d = ground (arith, drop_key-absent k d) in
      record {
        same_order = rw gone (ground arith);
        distinct = rw gone n.1;
        below = rw gone (omega arith);
        same_capacity = refl;
        absent = λ j h. rw gone (ground arith);
        shrinks = λ j s h. find-tail j k v s d n.0 (subst (λ x. find j x ≡ some s) gone h);
      }

  evict-HasRoom : (c : LruSqlCache S) → IsBounded c → HasRoom c (evict c)
  unfolding evict
  evict-HasRoom c b = elim (Bool-cases (leb c.capacity (length c.entries))) [
    | inl full ↦ rw full (
        drop_oldest-HasRoom c c.entries c.order b.same_order b.distinct b.within b.room
          (ground arith))
    | inr free ↦ rw free (record {
      same_order = b.same_order;
      distinct = b.distinct;
      below = ground arith;
      same_capacity = refl;
      absent = λ k h. h;
      shrinks = λ k s h. h;
    })
  ]

  cache_insert-IsBounded :
      (key : Text) (value : S) (c : LruSqlCache S)
      → IsBounded c
      → IsBounded (cache_insert key value c)
  unfolding cache_insert
  cache_insert-IsBounded key value c b = elim (Bool-cases (has_key key c.entries)) [
    | inl old ↦ rw old (record {
      same_order = keys-put_old key value c.entries old ∙ b.same_order;
      distinct = put-Distinct key value c.entries b.distinct;
      within = rw (length-put_old key value c.entries old) b.within;
      room = b.room;
    })
    | inr new ↦
        let r = evict-HasRoom c b in
        let free : has_key key (evict c).entries ≡ false =
          has_key-among key (evict c).entries
          ∙ r.absent key (sym (has_key-among key c.entries) ∙ new) in
        rw new (record {
          same_order =
              keys-put_new key value (evict c).entries free
              ∙ ap (λ ks. ks ++ (key ∷ [])) r.same_order;
          distinct = put-Distinct key value (evict c).entries r.distinct;
          within =
              rw (length-put_new key value (evict c).entries free, r.same_capacity)
                (ground (arith, r.below));
          room = rw r.same_capacity b.room;
        })
  ]

module _ {S P : Type 0} (parse_sql : Text → Result S P) where
  -- Every cached value is what the parser gives for its text.
  pub record IsCache (c : LruSqlCache S) : Type 0 where
    pub bounded : IsBounded c
    pub sound : (k : Text) (s : S) → find k c.entries ≡ some s → parse_sql k ≡ ok s

  abbrev IsSound : Dict S → Type 0
  IsSound d = (k : Text) (s : S) → find k d ≡ some s → parse_sql k ≡ ok s

  put-IsSound :
      (key : Text) (value : S) (d : Dict S)
      → IsSound d
      → parse_sql key ≡ ok value
      → IsSound (put key value d)
  put-IsSound key value d h p k s e = elim (Text-discrete key k) [
    | yes same ↦
        let found : find k (put key value d) ≡ some value =
          subst (λ j. find j (put key value d) ≡ some value) same (find-put_same key value d) in
        subst (λ j. parse_sql j ≡ ok s) same (p ∙ ap ok (some-injective (sym found ∙ e)))
    | no other ↦ h k s (sym (find-put_other key k value d other) ∙ e)
  ]
    where
      some-injective : {a b : S} → some a ≡ some b → a ≡ b
      some-injective e = cc

  cache_insert-IsSound :
      (key : Text) (value : S) (c : LruSqlCache S)
      → IsCache c
      → parse_sql key ≡ ok value
      → IsSound (cache_insert key value c).entries
  unfolding cache_insert
  cache_insert-IsSound key value c b p = elim (Bool-cases (has_key key c.entries)) [
    | inl old ↦ rw old (put-IsSound key value c.entries b.sound p)
    | inr new ↦ rw new (
        put-IsSound key value (evict c).entries
          (λ k s e. b.sound k s ((evict-HasRoom c b.bounded).shrinks k s e)) p)
  ]

  -- A lookup in the parse cache keeps it within its capacity, its queue equal to the texts of
  -- its entries in their order of insertion, each once, and every cached value equal to what
  -- the parser gives for its text.
  pub get_or_parse-IsCache :
      (sql : Text) (c : LruSqlCache S) → IsCache c → IsCache (get_or_parse parse_sql sql c).0
  unfolding get_or_parse
  get_or_parse-IsCache sql c b = split (find sql c.entries) (parse_sql sql) refl
    where
      split :
          (o : Option S) (r : Result S P)
          → parse_sql sql ≡ r
          → IsCache
              (elim o as (λ x. LruSqlCache S × Result S P) [
                | some s ↦ (record c { hits = c.hits + 1 }, ok s)
                | none ↦ elim r [ err e ↦ (c, err e) | ok s ↦ (cache_insert sql s c, ok s) ]
              ]).0
      split (some s) r p = record {
        bounded = record {
          same_order = b.bounded.same_order;
          distinct = b.bounded.distinct;
          within = b.bounded.within;
          room = b.bounded.room;
        };
        sound = b.sound;
      }
      split none (err e) p = b
      split none (ok s) p = record {
        bounded = cache_insert-IsBounded sql s c b.bounded;
        sound = cache_insert-IsSound sql s c b p;
      }

  -- A lookup in a sound parse cache answers what the parser answers, errors included.
  pub get_or_parse-parse_sql :
      (sql : Text) (c : LruSqlCache S)
      → IsCache c
      → (get_or_parse parse_sql sql c).1 ≡ parse_sql sql
  unfolding get_or_parse
  get_or_parse-parse_sql sql c b = elim (Option-cases (find sql c.entries)) [
    | inl missed ↦ rw (get_or_parse, missed) (answer (parse_sql sql))
    | inr (s, hit) ↦ rw (get_or_parse, hit) (sym (b.sound sql s hit))
  ]
    where
      answer :
          (r : Result S P)
          → (elim r as (λ x. LruSqlCache S × Result S P) [
            | err e ↦ (c, err e)
            | ok s ↦ (cache_insert sql s c, ok s)
          ]).1
            ≡ r
      answer (ok s) = refl
      answer (err e) = refl
