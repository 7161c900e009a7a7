-- ===== src/Samples.antt =====
-- Concrete functions for what the code takes from other packages: with them the hypotheses on
-- those packages hold, and the definitions run in the tests.
pub mod Hex
pub mod Wire
pub mod Packages
pub mod Database
