-- ===== src/Startup.antt =====
-- The start of the process (main.go) and the registration of the controllers (`AddX`, `newXReconciler`
-- and `addX` in controllers/*_controller.go): the manager as a parameter (Host), the registration,
-- `main`, and what they do as a specification (Trace) with the proofs (Adding, Calls, Names).
pub mod Host
pub mod Registration
pub mod Main
pub mod Trace
pub mod Adding
pub mod Calls
pub mod Names
