-- ===== src/Sqf/Token.antt =====
-- sqf/lexer.rs: the tokens of SQF expressions and their display.
use a3sql.Prelude.{[], ◌∷◌, ◌++◌}
use a3sql.Prelude.Text.{Text, bytes}

pub data Token : Type 0 where
  number string ident : Text → Token
  keyword_true keyword_false keyword_nil : Token
  plus minus star slash percent : Token
  eq neq lt gt le ge : Token
  and or not : Token
  hash select : Token
  l_paren r_paren l_bracket r_bracket comma : Token

-- `Display for Token`: a quote inside a string is printed as it is.
unfoldable pub display : Token → Text
display (Token.number s) = s
display (Token.string s) = b'"' ∷ (s ++ (b'"' ∷ []))
display (Token.ident s) = s
display Token.keyword_true = bytes "true"
display Token.keyword_false = bytes "false"
display Token.keyword_nil = bytes "nil"
display Token.plus = bytes "+"
display Token.minus = bytes "-"
display Token.star = bytes "*"
display Token.slash = bytes "/"
display Token.percent = bytes "%"
display Token.eq = bytes "=="
display Token.neq = bytes "!="
display Token.lt = bytes "<"
display Token.gt = bytes ">"
display Token.le = bytes "<="
display Token.ge = bytes ">="
display Token.and = bytes "&&"
display Token.or = bytes "||"
display Token.not = bytes "!"
display Token.hash = bytes "#"
display Token.select = bytes "select"
display Token.l_paren = bytes "("
display Token.r_paren = bytes ")"
display Token.l_bracket = bytes "["
display Token.r_bracket = bytes "]"
display Token.comma = bytes ","
