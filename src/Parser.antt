-- ===== src/Parser.antt =====
-- src/parser.c: SQL text to tokens, and tokens to statements.
pub mod Tokens
pub mod Syntax
pub mod Statements
pub mod Lexing
pub mod Written
pub mod Where
pub mod Conditions
pub mod Lists
pub mod Select
pub mod Changes
pub mod Creation
pub mod Sql
mod Tests
