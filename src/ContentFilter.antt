-- ===== src/ContentFilter.antt =====
-- sapl_base/src/sapl_base/pep/filters/content_filter.py: the redaction of JSON content.
pub mod Path
pub mod Tree
pub mod Slots
pub mod Conditions
pub mod Blacken
pub mod Providers
pub mod Actions
mod Tests
