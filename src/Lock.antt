-- ===== src/Lock.antt =====
-- The host operation locks of plugins/mistral_power_actions, `class RedisHostLock` in
-- src/openstack_power_actions/locks.py, with the two scripts that Redis runs for it. Redis itself
-- is a parameter: its commands and, for the proofs, what its documentation says of them.
pub mod RedisServer
pub mod Owned
pub mod Exclusion
mod Tests
use irnmn.Prelude.{
  ℕ, ◌*◌, String, Bool, true, false, not, ◌||◌, is_blank, nat_eq, ◌==◌, ◌&◌, Option, none, some,
  if◌then◌else◌,
}
use irnmn.Effect.{Result, ok, err, value_error}
use irnmn.PowerOps.Duration.{ℤ, pos, negsuc}
use RedisServer.{Redis}

-- A lock object after `__init__`, without its client.
pub record HostLock : Type 0 where
  pub key : String
  pub ttl_ms : ℕ
  pub owner : String

unfoldable pub lock_key : String → String
lock_key host = "powerops:host:" & host

-- `RedisHostLock.__init__`, for whole seconds.
unfoldable pub make_lock : String → ℤ → String → Result HostLock
unfolding lock_key
make_lock host (pos ttl) owner =
    if is_blank host || is_blank owner
    then err (value_error "host and owner are required")
    else if nat_eq ttl 0
    then err (value_error "ttl_seconds must be positive")
    else ok (record { key = lock_key host; ttl_ms = ttl * 1000; owner = owner })
make_lock host (negsuc n) owner =
    if is_blank host || is_blank owner
    then err (value_error "host and owner are required")
    else err (value_error "ttl_seconds must be positive")

-- `redis.call('get', KEYS[1]) == ARGV[1]`
abbrev pub is_value : Option String → String → Bool
is_value none v = false
is_value (some u) v = u == v

module _ {W : Type 0} (redis : Redis W) where
  open redis use {get, set_nx_px, pexpire, del}

  -- The two scripts, each of which Redis runs as one step.
  unfoldable pub refresh_script : String → String → ℕ → W → ℕ × W
  refresh_script key value ttl w = if is_value (get key w) value then pexpire key ttl w else (0, w)

  unfoldable pub release_script : String → String → W → ℕ × W
  release_script key value w = if is_value (get key w) value then del key w else (0, w)

  -- `bool(reply)` of a number
  abbrev pub as_bool : ℕ × W → Bool × W
  as_bool (n, w) = (not (nat_eq n 0), w)

  unfoldable pub acquire : HostLock → W → Bool × W
  acquire lock w = set_nx_px lock.key lock.owner lock.ttl_ms w

  unfoldable pub refresh : HostLock → W → Bool × W
  unfolding refresh_script
  refresh lock w = as_bool (refresh_script lock.key lock.owner lock.ttl_ms w)

  unfoldable pub release : HostLock → W → Bool × W
  unfolding release_script
  release lock w = as_bool (release_script lock.key lock.owner w)
