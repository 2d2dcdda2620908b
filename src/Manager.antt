-- ===== src/Manager.antt =====
-- The HTTP API: the package manager/base, which turns a request's parameters into filters and the
-- filters into a query, and the middlewares.
pub mod Filters
pub mod Parsers
pub mod FilterParser
pub mod Query
pub mod ListQuery
pub mod Filterer
