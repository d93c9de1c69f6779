-- ===== src/PowerOps/HostReturn.antt =====
-- The return of a host to service: the wait for Nova, and the final verification.
pub mod Verified
use irnmn.Prelude.{String, Bool, true, false, not, List, [], ◌∷◌, select, ◌&◌, if◌then◌else◌}
use irnmn.Attr.{null, get_attr, is_text, is_set}
use irnmn.Effect.{Exec, pure, lift, raise_if, host_return_not_safe, ◌>>=◌, ◌>>◌}
use irnmn.Effect.Polling.{Round, done, again, poll}
use irnmn.PowerOps.Cloud.{Agent, Cloud}
use irnmn.PowerOps.Duration.{ℤ, attempts}
use irnmn.PowerOps.Lookup.{ironic_node, nova_service}

pub record NovaUp : Type 0 where
  pub host : String

-- `{"host": host, "ready": True, "stale_domains_checked": True}`
pub record ReadyReply : Type 0 where
  pub host : String
  pub ready : Bool
  pub stale_domains_checked : Bool

-- Exactly one agent has the binary, and it is alive.
abbrev pub one_alive : List Agent → Bool
one_alive (agent ∷ []) = is_set agent.is_alive
one_alive _ = false

unfoldable pub agent_is_healthy : List Agent → String → Bool
agent_is_healthy found binary = one_alive (select (λ item. is_text item.binary binary) found)

-- The loop over `required_network_agents`.
unfoldable pub check_agents : {W : Type 0} → List Agent → List String → Exec W (Unit {0})
unfolding agent_is_healthy
check_agents found [] = pure tt
check_agents found (binary ∷ rest) = do
  raise_if (not (agent_is_healthy found binary))
      (host_return_not_safe ("required network agent " & binary & " is not healthy"))
  check_agents found rest

module _ {W : Type 0} (cloud : Cloud W) where
  open cloud use {get_node, agents, sleep}

  unfoldable pub nova_round : String → Unit {0} → Exec W (Round (Unit {0}) NovaUp)
  nova_round host _ = do
    service ← nova_service cloud host
    if is_text (get_attr service.state null) "up"
        then pure (done (record { host = host }))
        else pure (again tt)

  unfoldable pub wait_nova_service : String → ℤ → ℤ → Exec W NovaUp
  unfolding nova_round
  wait_nova_service host timeout interval = do
    rounds ← lift (attempts timeout interval)
    poll (sleep interval) (nova_round host)
        (host_return_not_safe "Nova service did not become up before timeout") rounds tt

  unfoldable pub verify_host_return : List String → String → Bool → Exec W ReadyReply
  unfolding check_agents
  verify_host_return required_network_agents host stale_domains_checked = do
    raise_if (not stale_domains_checked) (host_return_not_safe "stale domain check is required")
    known ← ironic_node cloud host
    node ← get_node known
    raise_if (not (is_text (get_attr node.power_state null) "power on"))
        (host_return_not_safe "Ironic power on is not confirmed")
    service ← nova_service cloud host
    raise_if (not (is_text (get_attr service.state null) "up"))
        (host_return_not_safe "Nova service is not up")
    found ← agents host
    check_agents found required_network_agents
    pure (record { host = host; ready = true; stale_domains_checked = true })
