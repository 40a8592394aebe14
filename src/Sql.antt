-- ===== src/Sql.antt =====
-- go/sql: columns and values (types.go, encoding.go) and the query builder (builder.go).
pub mod Value
pub mod Columns
pub mod Compare
pub mod Queries
pub mod Dml
