-- ===== src/Error/Codes.antt =====
-- engine/error.rs: the codes of the response, their text, and the code of each error. `to_uppercase` is
-- Rust's conversion of letter case.
use a3sql.Prelude.{◌≡◌, refl, Option, none, some, ◌++◌, ite, Bool, true, false, if◌then◌else◌, ◌||◌}
use a3sql.Prelude.Text.{Text, bytes, Text-discrete}
use a3sql.Error.{EngineError}

pub data ErrorCode : Type 0 where
  ok parse exec table type pk io internal auth : ErrorCode

unfoldable pub code : EngineError → ErrorCode
code (EngineError.table_not_found t) = ErrorCode.table
code (EngineError.table_already_exists t) = ErrorCode.table
code (EngineError.column_not_found c) = ErrorCode.table
code (EngineError.column_not_found_in_table c t) = ErrorCode.table
code (EngineError.column_already_exists c) = ErrorCode.table
code (EngineError.null_primary_key c) = ErrorCode.pk
code (EngineError.duplicate_key k) = ErrorCode.pk
code (EngineError.index_not_found i) = ErrorCode.table
code (EngineError.index_already_exists i) = ErrorCode.table
code (EngineError.view_not_found v) = ErrorCode.table
code (EngineError.trigger_already_exists t) = ErrorCode.exec
code (EngineError.parse m) = ErrorCode.parse
code (EngineError.exec m) = ErrorCode.exec
code (EngineError.type_error d v) = ErrorCode.type
code (EngineError.io m) = ErrorCode.io
code (EngineError.savepoint_exists s) = ErrorCode.exec
code (EngineError.savepoint_not_found s) = ErrorCode.exec
code (EngineError.internal m) = ErrorCode.internal

-- The `Display` of a code.
unfoldable pub code_text : ErrorCode → Text
code_text ErrorCode.ok = bytes "OK"
code_text ErrorCode.parse = bytes "ERR_PARSE"
code_text ErrorCode.exec = bytes "ERR_EXEC"
code_text ErrorCode.table = bytes "ERR_TABLE"
code_text ErrorCode.type = bytes "ERR_TYPE"
code_text ErrorCode.pk = bytes "ERR_PK"
code_text ErrorCode.io = bytes "ERR_IO"
code_text ErrorCode.internal = bytes "ERR_INTERNAL"
code_text ErrorCode.auth = bytes "ERR_AUTH"

abbrev is_text : Text → Text → Bool
is_text s t = ite (Text-discrete s t) true false

unfoldable pub of_upper : Text → Option ErrorCode
of_upper s =
    if is_text s (bytes "OK")
    then some ErrorCode.ok
    else (if is_text s (bytes "ERR_PARSE") || is_text s (bytes "PARSE")
        then some ErrorCode.parse
        else (if is_text s (bytes "ERR_EXEC") || is_text s (bytes "EXEC")
            then some ErrorCode.exec
            else (if is_text s (bytes "ERR_TABLE") || is_text s (bytes "TABLE")
                then some ErrorCode.table
                else (if is_text s (bytes "ERR_TYPE") || is_text s (bytes "TYPE")
                    then some ErrorCode.type
                    else (if is_text s (bytes "ERR_PK") || is_text s (bytes "PK")
                        then some ErrorCode.pk
                        else (if is_text s (bytes "ERR_IO") || is_text s (bytes "IO")
                            then some ErrorCode.io
                            else (if is_text s (bytes "ERR_INTERNAL")
                                  || is_text s (bytes "INTERNAL")
                                then some ErrorCode.internal
                                else (if is_text s (bytes "ERR_AUTH") || is_text s (bytes "AUTH")
                                    then some ErrorCode.auth
                                    else none))))))))

unfoldable pub from_str : (Text → Text) → Text → Option ErrorCode
unfolding of_upper
from_str to_uppercase s = of_upper (to_uppercase s)

-- `ok_response` and `error_response`
unfoldable pub ok_response : Text → Text
ok_response answer = bytes "[0,\"OK\"," ++ (answer ++ bytes "]")

unfoldable pub error_response : ErrorCode → Text → Text
unfolding code_text
error_response c message =
    bytes "[-1,\"" ++ (code_text c ++ (bytes "\",\"" ++ (message ++ bytes "\"]")))

of_upper-code_text : (c : ErrorCode) → of_upper (code_text c) ≡ some c
unfolding of_upper code_text Text-discrete
of_upper-code_text ErrorCode.ok = refl
of_upper-code_text ErrorCode.parse = refl
of_upper-code_text ErrorCode.exec = refl
of_upper-code_text ErrorCode.table = refl
of_upper-code_text ErrorCode.type = refl
of_upper-code_text ErrorCode.pk = refl
of_upper-code_text ErrorCode.io = refl
of_upper-code_text ErrorCode.internal = refl
of_upper-code_text ErrorCode.auth = refl

-- If upper-casing leaves the text of an error code as it is, `from_str` reads the code back
-- from its text.
from_str-code_text :
    (to_uppercase : Text → Text) (c : ErrorCode)
    → to_uppercase (code_text c) ≡ code_text c
    → from_str to_uppercase (code_text c) ≡ some c
unfolding from_str
from_str-code_text to_uppercase c h = rw h (of_upper-code_text c)
