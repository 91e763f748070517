-- ===== src/ObserveQl.antt =====
-- pkg/observeql.
pub mod Ast
pub mod Render
pub mod Planner
pub mod Placeholders
pub mod Expressions
pub mod Clauses
pub mod Binding
pub mod Injection
mod Tests
pub mod Blank
