-- ===== src/Error.antt =====
-- infrastructure/error: the categories of errors, their classification, the application errors
-- that the services throw, and the handler that turns them into a response
-- (middlewares/errors/appErrorHandler.ts).
pub mod Types
pub mod Classifier
pub mod Application
pub mod Handler
pub mod Flags
pub mod Response
mod Tests
