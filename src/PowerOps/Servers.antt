-- ===== src/PowerOps/Servers.antt =====
-- The servers on a host: listing, draining under each policy, and the emptiness check.
pub mod Waited
pub mod Drained
pub mod Emptied
use irnmn.Prelude.{
  String, Bool, not, ◌&&◌, ◌==◌, List, [], ◌∷◌, map, select, any, all, is_empty, ◌&◌, if◌then◌else◌,
}
use irnmn.Attr.{Attr, null, text, get_attr, is_text, or_attr}
use irnmn.Effect.{
  Exec, pure, raise, lift, raise_if, host_not_empty, unsupported_instance_policy, ◌>>=◌, ◌>>◌,
}
use irnmn.Effect.Polling.{Round, done, again, poll}
use irnmn.PowerOps.Cloud.{Server, Cloud}
use irnmn.PowerOps.Duration.{ℤ, attempts}

-- One entry of `list_servers`.
pub record ServerInfo : Type 0 where
  pub id : String
  pub name : Attr
  pub status : Attr

-- The dicts that `drain_host` and `assert_host_empty` return: `servers_on_source` is always `[]`.
pub data DrainReply : Type 0 where
  servers_on_source_empty : String → DrainReply
  remaining_statuses : String → List Attr → DrainReply

-- `hypervisor_hostname` or the extended attribute
unfoldable pub server_host : Server → Attr
server_host server =
    or_attr (get_attr server.hypervisor_hostname null)
      (get_attr server.ext_hypervisor_hostname null)

abbrev pub is_on : String → Server → Bool
is_on host server = is_text (server_host server) host

-- `getattr(item, "status", "UNKNOWN")`
abbrev pub status_of : Server → Attr
status_of server = get_attr server.status (text "UNKNOWN")

abbrev pub is_shutoff : Attr → Bool
is_shutoff status = is_text status "SHUTOFF"

abbrev pub is_error : Attr → Bool
is_error status = is_text status "ERROR"

unfoldable pub is_instance_policy : String → Bool
is_instance_policy policy =
    any (λ known. policy == known) ("require_empty" ∷ "live_migrate" ∷ "stop" ∷ [])

abbrev pub server_info : Server → ServerInfo
server_info item = record {
  id = item.id;
  name = get_attr item.name (text item.id);
  status = status_of item;
}

module _ {W : Type 0} (cloud : Cloud W) where
  open cloud use {servers, live_migrate_server, stop_server, sleep}

  unfoldable pub servers_on_host : String → Exec W (List Server)
  servers_on_host host = do found ← servers host; pure (select (is_on host) found)

  unfoldable pub list_servers : String → Exec W (List ServerInfo)
  unfolding servers_on_host
  list_servers host = do found ← servers_on_host host; pure (map server_info found)

  -- `for item in initial: call(item)`
  unfoldable pub for_each : (Server → Exec W (Unit {0})) → List Server → Exec W (Unit {0})
  for_each call [] = pure tt
  for_each call (item ∷ rest) = do call item; for_each call rest

  -- One round of the loop that waits for the migrations.
  unfoldable pub migration_round : String → Unit {0} → Exec W (Round (Unit {0}) DrainReply)
  migration_round host _ = do
    remaining ← servers_on_host host
    if is_empty remaining
        then pure (done (servers_on_source_empty host))
        else if any (λ item. is_error (get_attr item.status null)) remaining
        then raise (host_not_empty "server migration entered ERROR")
        else pure (again tt)

  -- One round of the loop that waits for the stops.
  unfoldable pub stop_round : String → Unit {0} → Exec W (Round (Unit {0}) DrainReply)
  stop_round host _ = do
    remaining ← servers_on_host host
    let statuses = map status_of remaining
    if all is_shutoff statuses
        then pure (done (remaining_statuses host statuses))
        else if any is_error statuses
        then raise (host_not_empty "server stop entered ERROR")
        else pure (again tt)

  unfoldable pub wait_migrated : String → ℤ → ℤ → Exec W DrainReply
  unfolding migration_round
  wait_migrated host timeout interval = do
    rounds ← lift (attempts timeout interval)
    poll (sleep interval) (migration_round host)
        (host_not_empty "servers did not leave host before timeout") rounds tt

  unfoldable pub wait_stopped : String → ℤ → ℤ → Exec W DrainReply
  unfolding stop_round
  wait_stopped host timeout interval = do
    rounds ← lift (attempts timeout interval)
    poll (sleep interval) (stop_round host) (host_not_empty "servers did not stop before timeout")
        rounds tt

  -- `drain_host` after the policy check, on the servers first seen.
  unfoldable pub drain_with : String → String → ℤ → ℤ → List Server → Exec W DrainReply
  unfolding for_each wait_migrated wait_stopped
  drain_with host policy timeout interval initial =
      if policy == "require_empty"
      then (if is_empty initial
          then pure (servers_on_source_empty host)
          else raise (host_not_empty ("host " & host & " still has servers")))
      else if policy == "live_migrate"
      then (do for_each live_migrate_server initial; wait_migrated host timeout interval)
      else (do for_each stop_server initial; wait_stopped host timeout interval)

  unfoldable pub drain_host : String → String → ℤ → ℤ → Exec W DrainReply
  unfolding is_instance_policy servers_on_host drain_with
  drain_host host policy timeout interval = do
    raise_if (not (is_instance_policy policy))
        (unsupported_instance_policy ("unsupported instance policy: " & policy))
    initial ← servers_on_host host
    drain_with host policy timeout interval initial

  unfoldable pub assert_host_empty : String → Bool → Exec W DrainReply
  unfolding servers_on_host
  assert_host_empty host allow_shutoff = do
    found ← servers_on_host host
    let statuses = map status_of found
    raise_if (not (is_empty found) && not (allow_shutoff && all is_shutoff statuses))
        (host_not_empty ("host " & host & " is not safe for power off"))
    pure (remaining_statuses host statuses)
