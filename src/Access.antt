-- ===== src/Access.antt =====
-- Who may call a route: infrastructure/auth/tokenHelpers.ts, types/database.ts and
-- middlewares/authorization/.
pub mod Bearer
pub mod Identity
pub mod Gate
pub mod Permission
pub mod Tokens
pub mod Grants
mod Tests
