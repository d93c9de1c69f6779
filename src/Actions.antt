-- ===== src/Actions.antt =====
-- The Mistral actions of plugins/mistral_power_actions, src/openstack_power_actions/actions.py:
-- each builds a `PowerOperations` or a `RedisHostLock`, and turns the expected failures into results.
pub mod Raises
mod Tests
use irnmn.Prelude.{
  ℕ, String, ◌==◌, Bool, true, false, not, nat_eq, List, [], Option, none, some, ◌&◌, if◌then◌else◌,
}
use irnmn.Attr.{Attr, missing, null, text, or_attr}
use irnmn.Effect.{
  Exception, mapping_error, host_not_empty, power_timeout, unsupported_power_target,
  unsupported_instance_policy, host_return_not_safe, value_error, Result, ok, err, Exec, pure, lift,
  raise_if, ◌>>=◌, ◌>>◌,
}
use irnmn.PowerOps.Cloud.{Cloud}
use irnmn.PowerOps.Duration.{ℤ, pos, negsuc}
use irnmn.PowerOps.Lookup.{HostIds, resolve_host}
use irnmn.PowerOps.Services.{
  NovaReply, MaintenanceReply, FailSafeReply, StatusReply, set_nova_service,
  set_masakari_maintenance, fail_safe_host, status,
}
use irnmn.PowerOps.Servers.{DrainReply, drain_host, assert_host_empty}
use irnmn.PowerOps.Power.{PowerReply, request_power, wait_power}
use irnmn.PowerOps.HostReturn.{NovaUp, ReadyReply, wait_nova_service, verify_host_return}
use irnmn.Lock.RedisServer.{Redis}
use irnmn.Lock.{HostLock, make_lock, acquire, refresh, release}

-- The options of `[powerops]` in clients.py that the actions read.
pub record Conf : Type 0 where
  pub lock_ttl : ℤ
  pub drain_timeout : ℤ
  pub power_timeout : ℤ
  pub poll_interval : ℤ
  pub stable_observations : ℕ

-- The two ids of an action context, a dict or an object.
pub record Context : Type 0 where
  pub workflow_execution_id : Attr
  pub execution_id : Attr

-- The action classes with the arguments of their `__init__`.
pub data Action : Type 0 where
  acquire_host_lock refresh_host_lock release_host_lock : String → Option ℤ → Action
  resolve_host_ids : String → Action
  set_nova : String → Bool → String → Action
  set_maintenance : String → Bool → Action
  drain : String → String → Option ℤ → Option ℤ → Action
  assert_empty : String → Bool → Action
  ironic_power : String → String → Bool → Action
  wait_for_power : String → String → Option ℤ → Option ℤ → Option ℕ → Action
  wait_for_nova : String → Option ℤ → Option ℤ → Action
  verify_return : String → Bool → Action
  power_status : String → Action
  audit_event : String → String → String → Action
  fail_safe : String → Action

-- What the actions return; `failed` is `mistral_actions.Result(error=...)`.
pub data Reply : Type 0 where
  failed : String → Reply
  lock_owned refreshed released : String → String → Reply
  host_ids : HostIds → Reply
  nova_set : NovaReply → Reply
  maintenance_set : MaintenanceReply → Reply
  drained : DrainReply → Reply
  power_seen : PowerReply → Reply
  nova_up : NovaUp → Reply
  ready : ReadyReply → Reply
  status_seen : StatusReply → Reply
  audited : String → String → String → String → Reply
  failed_safe : FailSafeReply → Reply

-- `isinstance(exc, (PowerOpsError, ValueError))`, with `str(exc)`
abbrev pub expected_message : Exception → Option String
expected_message (mapping_error m) = some m
expected_message (host_not_empty m) = some m
expected_message (power_timeout m) = some m
expected_message (unsupported_power_target m) = some m
expected_message (unsupported_instance_policy m) = some m
expected_message (host_return_not_safe m) = some m
expected_message (value_error m) = some m
expected_message _ = none

abbrev pub settle : {W : Type 0} → Exception → Option String → W → Result Reply × W
settle e none w = (err e, w)
settle e (some message) w = (ok (failed message), w)

abbrev pub caught : {W : Type 0} → Result Reply × W → Result Reply × W
caught (ok a, w) = (ok a, w)
caught (err e, w) = settle e (expected_message e) w

-- `_expected`
unfoldable pub expected : {W : Type 0} → Exec W Reply → Exec W Reply
expected call w = caught (call w)

abbrev pub replies : {W A : Type 0} → (A → Reply) → Exec W A → Exec W Reply
replies f call = do a ← call; pure (f a)

abbrev text_of : Attr → String
text_of (text s) = s
text_of _ = ""

-- `_owner`
unfoldable pub owner_of : Context → Result String
owner_of context =
    let value = text_of (or_attr context.workflow_execution_id context.execution_id) in
    if value == ""
    then err (value_error "workflow execution id is required for host lock")
    else ok value

-- `self.timeout or default`
abbrev pub or_default : Option ℤ → ℤ → ℤ
or_default none default = default
or_default (some (pos n)) default = if nat_eq n 0 then default else pos n
or_default (some (negsuc n)) default = negsuc n

abbrev pub or_default_count : Option ℕ → ℕ → ℕ
or_default_count none default = default
or_default_count (some n) default = if nat_eq n 0 then default else n

-- `ttl if ttl is not None else default`
abbrev pub unless_none : Option ℤ → ℤ → ℤ
unless_none none default = default
unless_none (some n) default = n

abbrev pub returning : {W A : Type 0} → (W → A × W) → Exec W A
returning call w = let (a, w') = call w in (ok a, w')

module _ {W : Type 0} (cloud : Cloud W) (redis : Redis W) (conf : Conf)
    (new_id : W → String × W) where
  -- A call on the lock of the action's host and owner; a false result raises.
  unfoldable pub with_lock :
      (HostLock → W → Bool × W)
      → String
      → (String → Reply)
      → Context
      → String
      → Option ℤ
      → Exec W Reply
  unfolding owner_of
  with_lock call complaint answer context host ttl = do
    owner ← lift (owner_of context)
    lock ← lift (make_lock host (unless_none ttl conf.lock_ttl) owner)
    done ← returning (call lock)
    raise_if (not done) (value_error complaint)
    pure (answer owner)

  -- What the `run` of each class calls. `_operations()` passes no `required_network_agents`.
  unfoldable pub perform : Context → Action → Exec W Reply
  unfolding with_lock
  perform context (acquire_host_lock host ttl) =
      with_lock (acquire redis) ("host operation lock is already held: " & host) (lock_owned host)
        context host ttl
  perform context (refresh_host_lock host ttl) =
      with_lock (refresh redis) "host operation lock ownership was lost" (refreshed host) context
        host ttl
  perform context (release_host_lock host ttl) =
      with_lock (release redis) "host operation lock ownership was lost" (released host) context
        host ttl
  perform context (resolve_host_ids host) = replies host_ids (resolve_host cloud host)
  perform context (set_nova host enabled reason) =
      replies nova_set (set_nova_service cloud host enabled reason)
  perform context (set_maintenance host enabled) =
      replies maintenance_set (set_masakari_maintenance cloud host enabled)
  perform context (drain host policy timeout interval) = replies drained (
      drain_host cloud host policy (or_default timeout conf.drain_timeout)
        (or_default interval conf.poll_interval))
  perform context (assert_empty host allow_shutoff) =
      replies drained (assert_host_empty cloud host allow_shutoff)
  perform context (ironic_power host target soft) =
      replies power_seen (request_power cloud host target soft)
  perform context (wait_for_power host target timeout interval observations) = replies power_seen (
      wait_power cloud host target (or_default timeout conf.power_timeout)
        (or_default interval conf.poll_interval)
        (or_default_count observations conf.stable_observations))
  perform context (wait_for_nova host timeout interval) = replies nova_up (
      wait_nova_service cloud host (or_default timeout conf.power_timeout)
        (or_default interval conf.poll_interval))
  perform context (verify_return host checked) =
      replies ready (verify_host_return cloud [] host checked)
  perform context (power_status host) = replies status_seen (status cloud host)
  perform context (audit_event host event outcome) =
      replies (λ event_id. audited event_id host event outcome) (returning new_id)
  perform context (fail_safe host) = replies failed_safe (fail_safe_host cloud host)

  -- `run`: every class but `AuditEventAction` goes through `_expected`.
  unfoldable pub run_action : Context → Action → Exec W Reply
  unfolding expected perform
  run_action context (audit_event host event outcome) =
      perform context (audit_event host event outcome)
  run_action context action = expected (perform context action)
