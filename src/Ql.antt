-- ===== src/Ql.antt =====
-- epochql/src: the query language.
pub mod Chars
pub mod Error
pub mod Token
pub mod Lexer
pub mod Ast
pub mod Parser
pub mod Schema
