-- ===== src/Examples.antt =====
-- The theorems applied to small charts, and to an actor that runs one of them.
pub mod Charts
pub mod Domains
pub mod Engines
pub mod Plain
pub mod Actors
pub mod Loading
pub mod Parsing
pub mod Tools
