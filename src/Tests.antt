-- ===== src/Tests.antt =====
-- Runs of the model on concrete inputs, and the theorems at inputs that meet their hypotheses.
pub mod States
pub mod Lists
pub mod Sessions
pub mod Groups
pub mod Rounds
pub mod Buffers
pub mod Page
pub mod Hangups
pub mod Runs
pub mod Matchings
