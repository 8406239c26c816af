-- ===== src/Question.antt =====
-- Questions: repositories/QuestionRepository.ts over
-- repositories/postgresql/QuestionPostgreSQLDataSource.ts, and the operations of
-- services/managers/QuestionManager.ts that change and delete questions.
pub mod Table
pub mod Source
pub mod Manager
pub mod Loops
pub mod Writes
pub mod Cleaned
pub mod Deleted
pub mod Pictures
pub mod Store
pub mod Listed
mod Memory
mod Tests
