-- ===== src/Sqf.antt =====
-- The embedded script language (engine/sqf): expressions in SQF text are cut into tokens and parsed
-- by binding power. A text is the list of its characters, each a Unicode code point.
pub mod Token
pub mod Lexer
pub mod Parser
pub mod Eval
