-- ===== src/Ancestry.antt =====
-- The chain of ancestors of a question or an answer: computeAncestors, computeAncestorsForAnswer and
-- the choice of the parent in createAnswer (services/managers/AnswerManager.ts; QuestionManager.ts
-- has the first two in the same words).
pub mod Chain
pub mod Depths
pub mod Backfill
pub mod Climb
pub mod Collected
pub mod Backfilled
mod Tests
