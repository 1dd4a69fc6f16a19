-- ===== src/Search.antt =====
-- apps/web/src/lib/search: full-text and metadata search over the episodes.
pub mod Sql
pub mod Filters
pub mod Query
pub mod Hybrid
pub mod Pool
pub mod Segments
pub mod Grouping
pub mod Grouped
pub mod Mentions
pub mod Routes
pub mod Page
mod Tests
