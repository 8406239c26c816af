-- ===== src/Follow.antt =====
-- Who follows whom: repositories/UserRepository.ts (followUser, unfollowUser, getFollowers,
-- getFollowing) over repositories/postgresql/UserPostgreSQLDataSource.ts.
pub mod Table
pub mod Users
pub mod Rows
pub mod Writes
pub mod Followed
mod Memory
mod Tests
