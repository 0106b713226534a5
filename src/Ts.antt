-- ===== src/Ts.antt =====
-- The TypeScript port of the package, ts/src, where it has the same contract.
pub mod Strings
pub mod Source
pub mod Identity
pub mod Claims
pub mod Adapters
pub mod Badge
pub mod SignOut
pub mod Userinfo
pub mod Discovery
pub mod Verifier
pub mod Startup
pub mod Tests
