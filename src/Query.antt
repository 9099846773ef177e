-- ===== src/Query.antt =====
-- src/native/apxdb_collection.c: lists of document ids, and the queries that combine them.
pub mod Ids
pub mod Operators
pub mod Scan
pub mod ScanMeets
pub mod Calls
pub mod Satisfies
pub mod Searchable
pub mod ScanOnly
pub mod RowIds
pub mod Answers
pub mod IdLaws
pub mod Combine
pub mod Matches
pub mod Rounds
pub mod Meaning
pub mod Member
pub mod Range
pub mod EmptyAnd
