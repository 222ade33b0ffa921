-- ===== src/Examples.antt =====
-- The theorems at concrete inputs.
pub mod Data
pub mod OfTokens
pub mod OfSignIn
pub mod OfLogs
pub mod OfChecks
pub mod OfStartup
pub mod OfServing
