-- ===== src/PromQl.antt =====
-- pkg/promql.
pub mod Run
pub mod Token
pub mod Lexer
pub mod Ast
pub mod Selectors
pub mod Parser
pub mod Sql
pub mod Translate
pub mod Binding
pub mod Placeholders
pub mod Fuel
pub mod Shrinking
pub mod Descent
pub mod Total
pub mod Strings
pub mod Trailing
pub mod Guard
pub mod Follows
pub mod Blank
pub mod Injection
mod Tests
