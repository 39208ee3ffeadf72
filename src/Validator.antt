-- ===== src/Validator.antt =====
-- services/query_validator.py: whether a piece of SQL may be run, and which tables it reads.
pub mod Patterns
pub mod Scan
pub mod Segments
mod Takes
mod Pieces
mod ScanLaws
pub mod Mask
pub mod Refusals
mod Refused
pub mod Outcome
pub mod Sqlglot
pub mod Validate
pub mod Keywords
pub mod Accepted
pub mod Tables
