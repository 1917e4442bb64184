-- ===== src/Api.antt =====
-- The custom resources (api/v1): what the types have in common, their specs, and the objects.
pub mod Meta
pub mod Common
pub mod Specs
pub mod Objects
pub mod Copies
