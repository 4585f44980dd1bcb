-- ===== src/Tests.antt =====
-- Runs of the models at concrete inputs.
pub mod Samples
mod Chains
mod Sealing
mod Accepting
mod Migrating
mod Serving
mod Exporting
mod Running
mod Progressing
mod Reading
mod Summing
