-- ===== src/Processors.antt =====
-- plugins/processors/: the processors whose work is on the event alone.
pub mod Failing
pub mod Regex
pub mod Deduplicate
pub mod Lookup
pub mod Template
pub mod Mapping
pub mod Labels
pub mod Cloning
pub mod Stats
pub mod Converter
pub mod Parsing
