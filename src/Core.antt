-- ===== src/Core.antt =====
-- core/: the event, its tracker, and the third-party tree of fields that it holds.
pub mod Fields
pub mod Tracker
pub mod Event
