-- ===== src/Cli.antt =====
-- The commands of src/dnf2b/Main.cpp and src/dnf2b/cli/.
pub mod Tester
pub mod FilterWizard
pub mod Main
