-- ===== src/Tests.antt =====
-- Concrete runs: a device laboratory (Fixture), runs on it (Runs), and the theorems applied to it
-- (the other modules).
pub mod Fixture
mod Runs
mod Devices
mod Delivery
mod Whole
mod Starts
mod Endings
mod Lives
mod Races
mod Copies
