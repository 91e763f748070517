-- ===== src/LogQl.antt =====
-- pkg/logql.
pub mod Parse
pub mod Translate
pub mod Binding
pub mod Fuel
pub mod Total
mod Tests
