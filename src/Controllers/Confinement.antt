-- ===== src/Controllers/Confinement.antt =====
-- Which device a reconcile reaches: the calls that touch one device (Device), validation
-- (Validation), the work (Work, Edit, Subscriptions), a whole reconcile (OneSession), an object that
-- is being deleted (Deleted), and one with a dependency (Unmet).
pub mod Device
pub mod Validation
pub mod Work
pub mod Edit
pub mod Subscriptions
pub mod OneSession
pub mod Deleted
pub mod Unmet
