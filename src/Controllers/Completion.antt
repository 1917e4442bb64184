-- ===== src/Controllers/Completion.antt =====
-- How a reconcile ends (controllers/*_controller.go): what is relied on (Answers), the shared body
-- (Body), the validation (Valid), the work of each controller (Rpcs, Edit, Subscriptions, Mount), and
-- the whole (Whole).
pub mod Answers
pub mod Body
pub mod Valid
pub mod Rpcs
pub mod Edit
pub mod Subscriptions
pub mod Mount
pub mod Whole
