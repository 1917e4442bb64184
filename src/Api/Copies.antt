-- ===== src/Api/Copies.antt =====
-- The deep copies (api/v1/zz_generated.deepcopy.go): the memory that they work on (Memory), what the
-- functions of all types share (Shared), the functions of each type, and that a copy is deep (Deep).
-- DeepCopyInto is deep_copy_into, DeepCopy deep_copy and DeepCopyObject deep_copy_object; those of a
-- list and of a spec have the prefixes list_ and spec_.
pub mod Memory
pub mod Shared
pub mod MountPoint
pub mod Lock
pub mod Unlock
pub mod EditConfig
pub mod Commit
pub mod Get
pub mod GetConfig
pub mod Rpc
pub mod CreateSubscription
pub mod EstablishSubscription
pub mod Deep
