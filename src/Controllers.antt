-- ===== src/Controllers.antt =====
-- The controllers (controllers/*.go).
pub mod Common
pub mod Assign
pub mod Template
pub mod All
pub mod OneRpc
pub mod Confinement
pub mod Requeue
pub mod Completion
pub mod Lifecycle
pub mod Notify
pub mod Sequence
pub mod MountPoint
pub mod Lock
pub mod Unlock
pub mod EditConfig
pub mod Commit
pub mod Get
pub mod GetConfig
pub mod Rpc
pub mod CreateSubscription
pub mod EstablishSubscription
