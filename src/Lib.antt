-- ===== src/Lib.antt =====
-- netconf-operator: a Kubernetes operator that runs NETCONF operations on network devices.
--
-- The program. Each of ten custom resources (api/v1) has a controller (controllers). The controller
-- of `MountPoint` opens an SSH session to a device and keeps it in the global map `Sessions`, under
-- the resource's namespaced name. The other nine (`Lock`, `Unlock`, `EditConfig`, `Commit`, `Get`,
-- `GetConfig`, `RPC`, `CreateSubscription`, `EstablishSubscription`) name a mount point, look its
-- session up, send RPCs on it and write the outcome into the status. A subscription leaves a
-- callback with the client library, which hands notifications on to Kafka or to the event recorder.
--
-- The files.
--   Base            what all share: Go's map (Base/GoMap), `time.Duration` in seconds on 64 bits
--                   (Base/Duration), `string(rune(n))` (Base/Rune).
--   Api             api/v1/*_types.go: specs, status and objects, by kind. A Go string is a String,
--                   an int32 a ℤ, a slice a List. Api/Copies is the generated deep copies
--                   (api/v1/zz_generated.deepcopy.go), which work on a memory where a slice is the
--                   address of its array and a map or a number behind a pointer its own: DeepCopyInto is deep_copy_into, DeepCopy deep_copy, and
--                   DeepCopyObject deep_copy_object, with list_ and spec_ before those of a list and
--                   of a spec.
--   Runtime         what a controller runs on. Runtime/Monad is a Go function with `Sessions`, a
--                   panic, and `log.Fatal`; Runtime/Calls the values and the calls; Runtime/Libraries
--                   the libraries as a parameter `Platform`; Runtime/Io its calls as actions, each
--                   noted in the state, the latest first; Runtime/Keeps, Runtime/Frame and
--                   Runtime/Returns the rules by which properties pass through such code.
--   Controllers     controllers/*.go. Controllers/Common is common.go, and a controller X is
--                   Controllers/X, with the functions' names: isValid is is_valid, isInitialized
--                   is_initialized, manageOperatorLogic manage_operator_logic, manageCleanUpLogic
--                   manage_clean_up_logic, Reconcile reconcile. A function is cut into several
--                   where it may return early. Pointers that may be nil are Options, and a
--                   dereference of none panics. An object that Go changes through its pointer is
--                   returned. Controllers/Template is the body that the ten Reconcile share,
--                   Controllers/All a table of the controllers for the proofs, Controllers/OneRpc the
--                   six that send one RPC, Controllers/Notify the callbacks. The proofs stand in
--                   Controllers/Confinement (which device a reconcile reaches), Controllers/Sequence
--                   (the RPCs of `EditConfig`), Controllers/Requeue (no session),
--                   Controllers/Completion (how a reconcile ends, rules in Runtime/Finishes),
--                   Controllers/Lifecycle (finalizers), and below the controller that they are about.
--   Startup         main.go, and the registration of each controller (AddX, newXReconciler and addX
--                   are add_x, new_x_reconciler and add_x_reconciler in Startup/Registration).
--                   Startup/Host is controller-runtime's manager as a parameter.
--   System          the runs one after the other, as steps between states (main.go), and in
--                   System/Interleaving the runs of different controllers at the same time, each cut
--                   into the read of its object, the validation, and the rest.
--   Tests           a laboratory in place of the libraries, runs on it, and the theorems on it.
--
-- Parameters. The libraries (go-netconf-client, controller-runtime, apimachinery, operator-utils,
-- kafka-go, encoding/xml) are a record `Platform` over a type `W` for the world outside: the
-- cluster, the devices and the brokers. A theorem that relies on their behaviour names it:
-- `FetchesByName` (the client returns the object that was asked for), `Replies` (`SyncRPC` on a live
-- session returns a reply or an error), and that the constructor of a message accepts what it is
-- given; `Returning` is the first two, and that no call of the client library ends the process,
-- while its constructors, greetings and streams may panic. No theorem assumes that a dial returns a
-- session or an error: the client can return neither. The manager of controller-runtime is a record
-- `Host`, with `IsSound` for what its calls return. The deep copies of the types of other packages
-- are a record `Copies`, with `IsFaithful`: those of `ObjectMeta` and `ListMeta` are deep copies.
--
-- Bounds. No definition runs on fuel, since the only loop of the source goes over a list. A timeout
-- in nanoseconds wraps at 64 bits, and `rune` at 32, as in Go.
--
-- Not modelled. Logging; the types that the scheme registers; the libraries themselves. The ten
-- controllers run at the same time and share `Sessions` without a lock in the source: they are
-- interleaved between the three parts of a reconcile, and not between the calls of one part, nor is
-- the memory model of Go's maps modelled. In the deep copies a condition is a value, the metadata has
-- the fields of Api/Copies/Memory, and the memory holds the resources of one kind.

pub mod Base
pub mod Api
pub mod Runtime
pub mod Controllers
pub mod Startup
pub mod System
pub mod Tests
