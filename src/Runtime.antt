-- ===== src/Runtime.antt =====
-- What the controllers run on: the calls that they make of other people's code (Calls), that code
-- as a parameter with what is relied upon (Libraries), and the monad of a Go function (Monad).
pub mod Calls
pub mod Libraries
pub mod Monad
pub mod Io
pub mod Keeps
pub mod Frame
pub mod Returns
pub mod Finishes
pub use Calls.*
pub use Libraries.*
pub use Monad.*
unfoldable pub use Frame.{Within}
pub use Frame.{
  IsClusterCall, KeptByCluster, All, Adds, Within-refl, Within-sessions, Within-call,
  Within-KeptByCluster, Within-All, Adds-mono,
}
