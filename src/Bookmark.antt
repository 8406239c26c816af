-- ===== src/Bookmark.antt =====
-- Bookmarks: services/managers/BookmarkManager.ts over the interfaces of its repository and cache.
pub mod Model
pub mod Table
pub mod Rows
pub mod Source
pub mod Repository
pub mod Manager
pub mod Collections
pub mod Laws
pub mod Owner
pub mod Coherence
pub mod Runs
pub mod Refined
pub mod Stored
mod TableMemory
mod StoredTests
mod Memory
mod Tests
