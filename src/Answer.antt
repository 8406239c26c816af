-- ===== src/Answer.antt =====
-- Answers: repositories/AnswerRepository.ts over the data source of
-- repositories/postgresql/AnswerPostgreSQLDataSource.ts, which writes through the Prisma client.
pub mod Prisma
pub mod Source
pub mod Repository
pub mod Kinds
pub mod Reactions
pub mod Steps
pub mod Likes
pub mod Paging
pub mod Sorted
pub mod Manager
pub mod Synced
pub mod Memory
mod Tests
mod SyncedTests
