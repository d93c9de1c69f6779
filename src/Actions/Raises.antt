-- ===== src/Actions/Raises.antt =====
-- No action raises an exception that it is meant to turn into a result.
use irnmn.Prelude.{String, ◌≡◌, Option, none, some, refl}
use irnmn.Effect.{
  Exception, mapping_error, host_not_empty, power_timeout, unsupported_power_target,
  unsupported_instance_policy, host_return_not_safe, value_error, host_recovery_failure,
  reconciliation_error, filter_error, rotation_interval_too_long, module_failed, key_error,
  external, api_error, system_exit, Result, ok, err, Exec,
}
use irnmn.PowerOps.Cloud.{Cloud}
use irnmn.Lock.RedisServer.{Redis}
use irnmn.Actions.{
  Conf, Context, Action, Reply, audit_event, expected_message, settle, caught, expected, perform,
  run_action,
}

-- The exceptions that are neither a PowerOpsError nor a ValueError.
abbrev pub IsUnexpected : Exception → Type 0
IsUnexpected (mapping_error m) = ⊥
IsUnexpected (host_not_empty m) = ⊥
IsUnexpected (power_timeout m) = ⊥
IsUnexpected (unsupported_power_target m) = ⊥
IsUnexpected (unsupported_instance_policy m) = ⊥
IsUnexpected (host_return_not_safe m) = ⊥
IsUnexpected (value_error m) = ⊥
IsUnexpected _ = Unit

-- A raise carries such an exception.
abbrev pub RaisesUnexpected : {W : Type 0} → Result Reply × W → Type 0
RaisesUnexpected (ok a, w) = Unit
RaisesUnexpected (err e, w) = IsUnexpected e

uncaught-IsUnexpected : (e : Exception) → expected_message e ≡ none → IsUnexpected e
uncaught-IsUnexpected (mapping_error m) h = cc
uncaught-IsUnexpected (host_not_empty m) h = cc
uncaught-IsUnexpected (power_timeout m) h = cc
uncaught-IsUnexpected (unsupported_power_target m) h = cc
uncaught-IsUnexpected (unsupported_instance_policy m) h = cc
uncaught-IsUnexpected (host_return_not_safe m) h = cc
uncaught-IsUnexpected (value_error m) h = cc
uncaught-IsUnexpected (host_recovery_failure m) h = tt
uncaught-IsUnexpected (reconciliation_error m) h = tt
uncaught-IsUnexpected (filter_error m) h = tt
uncaught-IsUnexpected (rotation_interval_too_long m) h = tt
uncaught-IsUnexpected (module_failed m) h = tt
uncaught-IsUnexpected (key_error m) h = tt
uncaught-IsUnexpected (external m) h = tt
uncaught-IsUnexpected (api_error status m) h = tt
uncaught-IsUnexpected (system_exit status) h = tt

settle_unexpected :
    {W : Type 0} (e : Exception) (m : Option String) (w : W)
    → expected_message e ≡ m
    → RaisesUnexpected (settle e m w)
settle_unexpected e none w h = uncaught-IsUnexpected e h
settle_unexpected e (some m) w h = tt

caught_unexpected : {W : Type 0} (x : Result Reply × W) → RaisesUnexpected (caught x)
caught_unexpected (ok a, w) = tt
caught_unexpected (err e, w) = settle_unexpected e (expected_message e) w refl

expected_unexpected :
    {W : Type 0} (call : Exec W Reply) (w : W) → RaisesUnexpected (expected call w)
unfolding expected
expected_unexpected call w = caught_unexpected (call w)

-- Whatever the services do, an action replies, or fails with a message, or raises an
-- exception that is neither a PowerOpsError nor a ValueError.
pub run_action_unexpected :
    {W : Type 0} (cloud : Cloud W) (redis : Redis W) (conf : Conf) (new_id : W → String × W)
    (context : Context) (action : Action) (w : W)
    → RaisesUnexpected (run_action cloud redis conf new_id context action w)
unfolding run_action
run_action_unexpected cloud redis conf new_id context (audit_event host event outcome) w = tt
run_action_unexpected cloud redis conf new_id context action w =
    expected_unexpected (perform cloud redis conf new_id context action) w
