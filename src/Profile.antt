-- ===== src/Profile.antt =====
-- internal/adapters/profile.go: the profile of a table.
pub mod Source
pub mod Classify
pub mod Queries
pub mod Details
pub mod Column
pub mod Gather
pub mod Correlations
pub mod Table
pub mod Orders
pub mod Types
pub mod Reports
pub mod Optional
pub mod Facts
pub mod Columns
pub mod Cancelled
pub mod Syntax
pub mod Pairs
pub mod Bins
pub mod Tests
