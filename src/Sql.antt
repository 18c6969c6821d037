-- ===== src/Sql.antt =====
-- The SQL query builder (src/sqlquery): the argument values, the condition nodes, the clause, the
-- three statements; then the calls that build a query, and what the built query is.
pub mod Placeholder
pub mod Node
pub mod Clause
pub mod Select
pub mod Insert
pub mod Update
pub mod Statement
pub mod Calls
pub mod Arity
pub mod Built
pub mod Texts
mod Tests
