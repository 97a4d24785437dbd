-- ===== src/Prelude/Quote.antt =====
-- Quotes written twice, as string literals and CSV fields hold them.
use mathlib.Core.Path.{◌≡◌, refl}
use mathlib.Core.Bool.{false}
use mathlib.Core.List.{[], ◌∷◌}
use a3sql.Prelude.Tests.{◌==◌, if◌then◌else◌}
use a3sql.Prelude.Text.{Text}
use a3sql.Prelude.Lists.{All}

-- `s.replace('"', "\"\"")`
unfoldable pub double_quotes : Text → Text
double_quotes [] = []
double_quotes (c ∷ cs) = if c == b'"' then c ∷ c ∷ double_quotes cs else c ∷ double_quotes cs

-- A text without quotes stays as it is.
pub double_quotes-plain : (s : Text) → All (λ c. (c == b'"') ≡ false) s → double_quotes s ≡ s
unfolding double_quotes
double_quotes-plain [] a = refl
double_quotes-plain (c ∷ s) (other, a) = rw (double_quotes, other, double_quotes-plain s a) refl
