-- ===== src/Localize.antt =====
-- localize.go: texts for a person to read. Spans and Indices are the loops over brackets and
-- NormalizePath, Templates is expand, Catalogs the chain of catalogs, Tables the built-in ones,
-- Problems is Catalog.Validate. Fuel, Holes, Wording, Entries, Coverage, Bare and Soundness say what
-- these guarantee.
pub mod Spans
pub mod Indices
pub mod Templates
pub mod Fuel
pub mod Holes
pub mod Catalogs
pub mod Wording
pub mod Tables
pub mod Entries
pub mod Coverage
pub mod Problems
pub mod Bare
pub mod Soundness
