-- ===== src/Tests.antt =====
-- Runs of the modelled code on small concrete inputs: the theorems applied to them, by the part that
-- they are about.
pub mod Fixtures
mod Database
mod Manager
mod Messages
mod Commands
mod Polling
mod Banning
mod Threads
mod Overflows
mod Filters
mod Journals
mod Dialogues
mod Exemptions
