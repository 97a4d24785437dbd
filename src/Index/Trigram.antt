-- ===== src/Index/Trigram.antt =====
-- The postings of the TRIGRAM index under each operation, and the candidates for a LIKE run
-- (engine/index.rs).
use a3sql.Prelude.{
  ℕ, ◌≤◌, ◌≡◌, refl, true, false, ◌&&◌, ◌||◌, not, some, List, [], ◌∷◌, ◌++◌, map, append_assoc,
  All, arith, ite, ◌==◌, length, length-append, ltb, Option-cases, inl, inr,
}
use a3sql.Prelude.Map.{Map}
use a3sql.Prelude.Texts.{among}
use a3sql.Prelude.Text.{Text, Text-discrete, bytes}
use a3sql.Host.{Host}
use a3sql.Value.{DbValue}
use a3sql.Index.{
  windows, contains, set_insert, trigrams, post, post_all, unpost, unpost_all, or_default, found,
  retain_in, retain_in_all, intersect, like_candidates, value_to_plain, TrigramIndex,
  trigram_insert, trigram_remove,
}
use a3sql.Index.BTree.{contains-retain_ne}

abbrev pub postings : Map (List ℕ) → Text → List ℕ
postings m tg = or_default (m tg)

contains-set_insert :
    (i row : ℕ) (rows : List ℕ) → contains i (set_insert row rows) ≡ (i == row || contains i rows)
unfolding set_insert contains
contains-set_insert i row [] = ground arith
contains-set_insert i row (j ∷ rows) = ground (arith, contains-set_insert i row rows)

contains-post :
    (i row : ℕ) (tg t : Text) (m : Map (List ℕ))
    → contains i (postings (post row tg m) t)
      ≡ (ite (Text-discrete tg t) (i == row) false || contains i (postings m t))
contains-post i row tg t m = ground (arith, contains-set_insert i row (postings m tg))

contains-post_all :
    (i row : ℕ) (tgs : List Text) (t : Text) (m : Map (List ℕ))
    → contains i (postings (post_all row tgs m) t)
      ≡ (among t tgs && i == row || contains i (postings m t))
contains-post_all i row [] t m = refl
contains-post_all i row (tg ∷ tgs) t m =
    ground (arith, contains-post_all i row tgs t (post row tg m), contains-post i row tg t m)

contains-unpost :
    (i row : ℕ) (tg t : Text) (m : Map (List ℕ))
    → contains i (postings (unpost row tg m) t)
      ≡ (not (ite (Text-discrete tg t) (i == row) false) && contains i (postings m t))
unfolding contains
contains-unpost i row tg t m = ground (arith, contains-retain_ne i row (postings m tg))

contains-unpost_all :
    (i row : ℕ) (tgs : List Text) (t : Text) (m : Map (List ℕ))
    → contains i (postings (unpost_all row tgs m) t)
      ≡ (not (among t tgs && i == row) && contains i (postings m t))
contains-unpost_all i row [] t m = refl
contains-unpost_all i row (tg ∷ tgs) t m =
    ground (arith, contains-unpost_all i row tgs t (unpost row tg m), contains-unpost i row tg t m)

contains-retain_in :
    (i : ℕ) (acc list : List ℕ)
    → contains i (retain_in acc list) ≡ (contains i acc && contains i list)
unfolding retain_in contains
contains-retain_in i [] list = refl
contains-retain_in i (j ∷ acc) list = ground (arith, contains-retain_in i acc list)

-- The row is posted under every one of the trigrams.
abbrev pub IsPosted : Map (List ℕ) → ℕ → List Text → Type 0
IsPosted m row tgs = All (λ tg. contains row (postings m tg) ≡ true) tgs

found-some :
    (m : Map (List ℕ)) (tg : Text) (tgs : List Text) {rows : List ℕ}
    → m tg ≡ some rows
    → found m (tg ∷ tgs) ≡ rows ∷ found m tgs
unfolding found
found-some m tg tgs e = rw (e, found)

-- A posting that holds a row is there.
posting-some :
    (m : Map (List ℕ)) (row : ℕ) (tg : Text)
    → contains row (postings m tg) ≡ true
    → (rows : List ℕ) × (m tg ≡ some rows) × (contains row rows ≡ true)
unfolding contains
posting-some m row tg h = elim (Option-cases (m tg)) [
  | inl e ↦ absurd (ground arith)
  | inr (rows, e) ↦ (rows, e, ground arith)
]

retain_in_all-found :
    (m : Map (List ℕ)) (row : ℕ) (acc : List ℕ) (tgs : List Text)
    → contains row acc ≡ true
    → IsPosted m row tgs
    → contains row (retain_in_all acc (found m tgs)) ≡ true
unfolding retain_in_all
retain_in_all-found m row acc [] h p = unfold found in h
retain_in_all-found m row acc (tg ∷ tgs) h p =
    let (rows, e, there) = posting-some m row tg p.0 in
    let kept : contains row (retain_in acc rows) ≡ true =
      ground (arith, contains-retain_in row acc rows) in
    rw (found-some m tg tgs e) (retain_in_all-found m row (retain_in acc rows) tgs kept p.1)

-- A row that is posted under all of at least one trigram is left by the intersection.
intersect-found :
    (m : Map (List ℕ)) (row : ℕ) (tg : Text) (tgs : List Text)
    → IsPosted m row (tg ∷ tgs)
    → contains row (intersect (found m (tg ∷ tgs))) ≡ true
intersect-found m row tg tgs p =
    let (rows, e, there) = posting-some m row tg p.0 in
    rw (found-some m tg tgs e) (retain_in_all-found m row rows tgs there p.1)

module _ {κ} (P : Text → Type κ) where
  All-windows_prefix : (xs ys : Text) → All P (windows (xs ++ ys)) → All P (windows xs)
  unfolding windows
  All-windows_prefix (a ∷ b ∷ c ∷ xs) ys h = (h.0, All-windows_prefix (b ∷ c ∷ xs) ys h.1)
  All-windows_prefix [] ys h = tt
  All-windows_prefix (a ∷ []) ys h = tt
  All-windows_prefix (a ∷ b ∷ []) ys h = tt

  All-windows_tail : (a : ℕ) (xs : Text) → All P (windows (a ∷ xs)) → All P (windows xs)
  unfolding windows
  All-windows_tail a [] h = tt
  All-windows_tail a (b ∷ []) h = tt
  All-windows_tail a (b ∷ c ∷ xs) h = h.1

  All-windows_suffix : (xs ys : Text) → All P (windows (xs ++ ys)) → All P (windows ys)
  All-windows_suffix [] ys h = h
  All-windows_suffix (a ∷ xs) ys h = All-windows_suffix xs ys (All-windows_tail a (xs ++ ys) h)

  All-map : (f : Text → Text) (ts : List Text) → All P (map f ts) → All (λ t. P (f t)) ts
  All-map f [] h = tt
  All-map f (t ∷ ts) h = (h.0, All-map f ts h.1)

  map-All : (f : Text → Text) (ts : List Text) → All (λ t. P (f t)) ts → All P (map f ts)
  map-All f [] h = tt
  map-All f (t ∷ ts) h = (h.0, map-All f ts h.1)

ltb-false : (a b : ℕ) → b ≤ a → ltb a b ≡ false
ltb-false a b h = ground arith

two_spaces :
    (a run b : Text)
    → bytes "  " ++ ((a ++ (run ++ b)) ++ bytes "  ")
      ≡ (bytes "  " ++ a) ++ (run ++ (b ++ bytes "  "))
two_spaces a run b = simp append_assoc

module _ {E : Type 0} (host : Host E) where
  abbrev pub of_value : DbValue → List Text
  of_value v = trigrams host (value_to_plain host v)

  -- After an insertion into a TRIGRAM index, a row is posted under a trigram if it was before,
  -- or if it is the new row and the trigram is of the new value's text, and otherwise not.
  contains-trigram_insert :
      (idx : TrigramIndex) (row i : ℕ) (v : DbValue) (tg : Text)
      → contains i (postings (trigram_insert host row v idx).trigram_map tg)
        ≡ (among tg (of_value v) && i == row || contains i (postings idx.trigram_map tg))
  unfolding trigram_insert
  contains-trigram_insert idx row i v tg = contains-post_all i row (of_value v) tg idx.trigram_map

  -- After a removal from a TRIGRAM index, a row is posted under a trigram if it was before,
  -- unless it is the removed row and the trigram is of the value's text.
  contains-trigram_remove :
      (idx : TrigramIndex) (row i : ℕ) (v : DbValue) (tg : Text)
      → contains i (postings (trigram_remove host row v idx).trigram_map tg)
        ≡ (not (among tg (of_value v) && i == row) && contains i (postings idx.trigram_map tg))
  unfolding trigram_remove
  contains-trigram_remove idx row i v tg = contains-unpost_all i row (of_value v) tg idx.trigram_map

  abbrev padded_text : Text → Text
  padded_text s = bytes "  " ++ (host.to_lowercase s ++ bytes "  ")

  trigrams-windows :
      (s : Text) → trigrams host s ≡ map host.from_utf8_lossy (windows (padded_text s))
  unfolding trigrams
  trigrams-windows s = ground (arith, length-append (host.to_lowercase s) (bytes "  "))

  -- The trigrams of a text hold all windows of what stands in it.
  IsPosted-run :
      (m : Map (List ℕ)) (row : ℕ) (s a run b : Text)
      → host.to_lowercase s ≡ a ++ (run ++ b)
      → IsPosted m row (trigrams host s)
      → IsPosted m row (map host.from_utf8_lossy (windows run))
  IsPosted-run m row s a run b e p =
      let Here : Text → Type 0 = λ tg. contains row (postings m tg) ≡ true in
      let At : Text → Type 0 = λ w. Here (host.from_utf8_lossy w) in
      let all : All At (windows (padded_text s)) =
        All-map Here host.from_utf8_lossy (windows (padded_text s)) (rw trigrams-windows at p) in
      let split : All At (windows ((bytes "  " ++ a) ++ (run ++ (b ++ bytes "  ")))) =
        rw (e, two_spaces) at all in
      map-All Here host.from_utf8_lossy (windows run) (
        All-windows_prefix At run (b ++ bytes "  ")
          (All-windows_suffix At (bytes "  " ++ a) (run ++ (b ++ bytes "  ")) split))

  intersect-windows :
      (m : Map (List ℕ)) (row : ℕ) (run : Text)
      → 3 ≤ length run
      → IsPosted m row (map host.from_utf8_lossy (windows run))
      → contains row (intersect (found m (map host.from_utf8_lossy (windows run)))) ≡ true
  unfolding windows
  intersect-windows m row [] n p = absurd (omega arith)
  intersect-windows m row (a ∷ []) n p = absurd (omega arith)
  intersect-windows m row (a ∷ b ∷ []) n p = absurd (omega arith)
  intersect-windows m row (a ∷ b ∷ c ∷ run) n p =
      intersect-found m row (host.from_utf8_lossy (a ∷ b ∷ c ∷ []))
        (map host.from_utf8_lossy (windows (b ∷ c ∷ run))) p

  -- If a row is posted under all trigrams of a text whose lower-case form contains the
  -- lower-case form of a run of at least three bytes, the row is among the candidates of the
  -- run: the TRIGRAM index misses no row.
  pub contains-like_candidates :
      (idx : TrigramIndex) (row : ℕ) (v : DbValue) (run a b : Text)
      → IsPosted idx.trigram_map row (of_value v)
      → 3 ≤ length (host.to_lowercase run)
      → host.to_lowercase (value_to_plain host v) ≡ a ++ (host.to_lowercase run ++ b)
      → contains row (like_candidates host idx run) ≡ true
  unfolding like_candidates
  contains-like_candidates idx row v run a b p n e =
      let posted = IsPosted-run idx.trigram_map row (value_to_plain host v) a lower b e p in
      rw (ltb-false (length lower) 3 n) (intersect-windows idx.trigram_map row lower n posted)
    where
      lower : Text
      lower = host.to_lowercase run
