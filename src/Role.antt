-- ===== src/Role.antt =====
-- Roles: repositories/UserRoleRepository.ts and services/managers/UserRoleManager.ts over the
-- PostgreSQL data source of the roles of users, and the part of RoleManager.ts, RoleRepository.ts
-- and PermissionManager.ts that makes and changes roles and permissions.
pub mod Table
pub mod Assigned
pub mod Catalog
pub mod Made
pub mod Rows
pub mod Given
pub mod Memory
mod Tests
