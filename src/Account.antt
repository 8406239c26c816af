-- ===== src/Account.antt =====
-- Accounts: the change and the reset of a password in services/managers/AuthManager.ts, over
-- repositories/postgresql/UserPostgreSQLDataSource.ts.
pub mod Table
pub mod Source
pub mod Strength
pub mod Password
pub mod Stored
pub mod Change
pub mod Reuse
pub mod Register
pub mod Registered
mod RegisterTests
mod Memory
mod Tests
