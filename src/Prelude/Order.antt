-- ===== src/Prelude/Order.antt =====
-- Rust's order of strings, which compares their bytes from the front, and fixed-width decimals.
use Prim.Native.Nat.Ordering.{lt, eq, gt}
use a3sql.Prelude.{
  ℕ, zero, suc, ◌+◌, ◌/◌, ◌%◌, ◌^◌, ◌<◌, ◌≡◌, refl, ap, ◌∙◌, [], ◌∷◌, ◌++◌, arith, compare,
  Ordering, length, length-append,
}
use native.Mathlib.Nat.{pow-suc}
use a3sql.Prelude.Text.{Text}

abbrev pub then : Ordering → Ordering → Ordering
then eq second = second
then first _ = first

unfoldable pub text_compare : Text → Text → Ordering
text_compare [] [] = eq
text_compare [] (y ∷ ys) = lt
text_compare (x ∷ xs) [] = gt
text_compare (x ∷ xs) (y ∷ ys) = then (compare x y) (text_compare xs ys)

pub text_compare_refl : (a : Text) → text_compare a a ≡ eq
unfolding text_compare
text_compare_refl [] = refl
text_compare_refl (x ∷ xs) = ground (arith, text_compare_refl xs)

pub eq_of_text_compare : (a b : Text) → text_compare a b ≡ eq → a ≡ b
unfolding text_compare
eq_of_text_compare [] [] h = refl
eq_of_text_compare [] (y ∷ ys) h = cc
eq_of_text_compare (x ∷ xs) [] h = cc
eq_of_text_compare (x ∷ xs) (y ∷ ys) h = ground (arith, eq_of_text_compare xs ys)

pub text_compare-lt_trans :
    (a b c : Text) → text_compare a b ≡ lt → text_compare b c ≡ lt → text_compare a c ≡ lt
unfolding text_compare
text_compare-lt_trans [] b [] h k = ground arith
text_compare-lt_trans [] b (z ∷ zs) h k = refl
text_compare-lt_trans (x ∷ xs) [] c h k = cc
text_compare-lt_trans (x ∷ xs) (y ∷ ys) [] h k = cc
text_compare-lt_trans (x ∷ xs) (y ∷ ys) (z ∷ zs) h k =
    ground (arith, text_compare-lt_trans xs ys zs)

pub text_compare-gt_of_lt : (a b : Text) → text_compare a b ≡ lt → text_compare b a ≡ gt
unfolding text_compare
text_compare-gt_of_lt [] [] h = cc
text_compare-gt_of_lt [] (y ∷ ys) h = refl
text_compare-gt_of_lt (x ∷ xs) [] h = cc
text_compare-gt_of_lt (x ∷ xs) (y ∷ ys) h = ground (arith, text_compare-gt_of_lt xs ys)

pub text_compare-lt_of_gt : (a b : Text) → text_compare a b ≡ gt → text_compare b a ≡ lt
unfolding text_compare
text_compare-lt_of_gt [] [] h = cc
text_compare-lt_of_gt [] (y ∷ ys) h = cc
text_compare-lt_of_gt (x ∷ xs) [] h = refl
text_compare-lt_of_gt (x ∷ xs) (y ∷ ys) h = ground (arith, text_compare-lt_of_gt xs ys)

-- `format!("{:0width$}", n)` for a number of at most `width` digits.
unfoldable pub padded : ℕ → ℕ → Text
padded zero n = []
padded (suc width) n = padded width (n / 10) ++ ((b'0' + n % 10) ∷ [])

length-padded : (width n : ℕ) → length (padded width n) ≡ width
unfolding padded
length-padded zero n = refl
length-padded (suc width) n = omega (
  arith,
  length-append (padded width (n / 10)) ((b'0' + n % 10) ∷ []),
  length-padded width (n / 10),
)

text_compare-snoc :
    (xs ys : Text) (a b : ℕ)
    → length xs ≡ length ys
    → text_compare (xs ++ (a ∷ [])) (ys ++ (b ∷ [])) ≡ then (text_compare xs ys) (compare a b)
unfolding text_compare
text_compare-snoc [] [] a b h = ground arith
text_compare-snoc [] (y ∷ ys) a b h = absurd (omega arith)
text_compare-snoc (x ∷ xs) [] a b h = absurd (omega arith)
text_compare-snoc (x ∷ xs) (y ∷ ys) a b h =
    ground (arith, text_compare-snoc xs ys a b (omega arith))

compare_digits :
    (m n : ℕ)
    → then (compare (m / 10) (n / 10)) (compare (b'0' + m % 10) (b'0' + n % 10)) ≡ compare m n
compare_digits m n = ground arith

div_ten : (width n : ℕ) → n < 10 ^ suc width → n / 10 < 10 ^ width
div_ten width n h = omega (arith, pow-suc 10 width)

same_length : (width m n : ℕ) → length (padded width m) ≡ length (padded width n)
same_length width m n = omega (arith, length-padded width m, length-padded width n)

-- At one width the order of the texts is the order of the numbers.
pub text_compare-padded :
    (width m n : ℕ)
    → m < 10 ^ width
    → n < 10 ^ width
    → text_compare (padded width m) (padded width n) ≡ compare m n
unfolding padded
text_compare-padded zero m n hm hn = unfold text_compare in ground arith
text_compare-padded (suc width) m n hm hn =
    text_compare-snoc (padded width (m / 10)) (padded width (n / 10)) (b'0' + m % 10)
      (b'0' + n % 10) (same_length width (m / 10) (n / 10))
    ∙ ap (λ o. then o (compare (b'0' + m % 10) (b'0' + n % 10)))
        (text_compare-padded width (m / 10) (n / 10) (div_ten width m hm) (div_ten width n hn))
    ∙ compare_digits m n
