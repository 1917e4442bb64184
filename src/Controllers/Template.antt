-- ===== src/Controllers/Template.antt =====
-- The body that the ten `Reconcile` methods share (controllers/*_controller.go), over what each
-- controller puts into it.
pub mod Keeps
use netconf_operator.Base.{Bool, not, Option, none, some, is_some, if◌then◌else◌}
use netconf_operator.Api.Meta.{NamespacedName}
use netconf_operator.Api.Objects.{Kind, Object}
use netconf_operator.Runtime.{Platform, M, ◌>>=◌, pure, Error, Reconciled}
use netconf_operator.Runtime.Io
use netconf_operator.Controllers.Assign.{settled}

-- The parts of one controller, for objects of its kind.
pub record Hooks (W : Type 0) (k : Kind) : Type 0 where
  pub is_valid : Object k → M W (Bool × Option Error)
  -- What follows a failed validation.
  pub reject : Object k → Option Error → M W Reconciled
  -- The test, and the object after it.
  pub is_initialized : Object k → Bool × Object k
  pub finalize : Object k → M W Reconciled
  pub manage_operator_logic : Object k → M W (Option Error × Object k)

module _ {W : Type 0} (P : Platform W) (k : Kind) (h : Hooks W k) where
  -- The report of how the work went.
  unfoldable pub report : Option Error × Object k → M W Reconciled
  report (err, obj) = if is_some err then Io.manage_error P k obj err else Io.manage_success P k obj

  unfoldable pub work : Object k → M W Reconciled
  unfolding report
  work obj = h.manage_operator_logic obj >>= report

  -- What follows the update of an object that has just been initialized.
  unfoldable pub updated : Object k → Option Error → M W Reconciled
  updated obj err = if is_some err then Io.manage_error P k obj err else pure settled

  unfoldable pub enrol : Object k → M W Reconciled
  unfolding updated
  enrol obj = Io.client_update P k obj >>= updated obj

  unfoldable pub proceed : Bool × Object k → M W Reconciled
  unfolding work enrol
  proceed (initialized, obj) =
      if not initialized
      then enrol obj
      else if P.is_being_deleted obj.meta
      then h.finalize obj
      else work obj

  unfoldable pub judged : Object k → Bool × Option Error → M W Reconciled
  unfolding proceed
  judged instance' (valid, err) =
      if not valid then h.reject instance' err else proceed (h.is_initialized instance')

  unfoldable pub judge : Object k → M W Reconciled
  unfolding judged
  judge instance' = h.is_valid instance' >>= judged instance'

  unfoldable pub fetched : Option Error × Object k → M W Reconciled
  unfolding judge
  fetched (err, instance') = elim err [
    | some e ↦ if P.is_not_found e then pure settled else Io.manage_error P k instance' (some e)
    | none ↦ judge instance'
  ]

  unfoldable pub reconcile : NamespacedName → M W Reconciled
  unfolding fetched
  reconcile req = Io.client_get P k req >>= fetched
