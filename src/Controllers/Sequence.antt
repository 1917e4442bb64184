-- ===== src/Controllers/Sequence.antt =====
-- The RPCs of `EditConfig` (controllers/editconfig_controller.go): their order, and the status.
pub mod Order
pub mod Status
