-- ===== src/Tests.antt =====
-- Concrete events, services and configurations, and what the theorems state of them.
mod Builds
mod Events
mod Services
mod Files
mod Units
mod Outputs
mod Inputs
mod Tables
mod Stores
mod Statistics
mod Remotes
mod Helpers
mod Numbers
mod Conversions
mod Duplicates
