-- ===== src/Tests.antt =====
-- The program on concrete inputs.
mod Setup
mod Validation
mod Queries
mod Text
mod Schemas
mod Caches
mod Registries
mod Tokens
mod Backend
mod Sessions
mod Settings
