-- ===== src/PowerOps/Tests.antt =====
-- Runs of the power operations on the fake cloud, and the theorems at these inputs.
use irnmn.Prelude.{◌≡◌, ◌⊎◌, ◌≤◌, refl, true, false, [], ◌∷◌, arith}
use irnmn.Attr.{null, text, is_text, truthy}
use irnmn.Effect.{ok, err, unsupported_power_target}
use irnmn.Effect.Post.{Returns, Succeeds}
use irnmn.PowerOps.Cloud.{Node, Cloud}
use irnmn.PowerOps.Duration.{pos, attempts}
use irnmn.PowerOps.Lookup.{ironic_node, nova_service, masakari_host}
use irnmn.Effect.Polling.{poll}
use irnmn.PowerOps.Observe.{Streak}
use irnmn.PowerOps.Power.{effective_target, is_power_target, judge, request_power, wait_power}
use irnmn.PowerOps.Power.Stable.{wait_power-Returns}
use irnmn.PowerOps.Power.Settles.{IsSteady, wait_power-Succeeds}
use irnmn.PowerOps.Power.Requests.{request_power_writes, request_power_unknown}
use irnmn.PowerOps.Servers.{server_host, is_instance_policy, drain_host}
use irnmn.PowerOps.Servers.Waited.{LastListing}
use irnmn.PowerOps.Servers.Drained.{Drained, drain_host-Returns}
use irnmn.PowerOps.Services.{set_masakari_maintenance, fail_safe_host}
use irnmn.PowerOps.Services.Settled.{
  NovaSettled, MaintenanceSettled, set_masakari_maintenance-Returns, fail_safe_host-Returns,
}
use irnmn.PowerOps.HostReturn.{verify_host_return}
use irnmn.PowerOps.HostReturn.Verified.{IsVerified, verify_host_return-Returns}
use irnmn.PowerOps.Fake.{World, fake, calm, node_in, server_in}

-- On, off, on, off, off: stable after the last read.
abbrev flapping : World
flapping = record calm {
  next_nodes =
      node_in "power on" null
      ∷ node_in "power off" null
      ∷ node_in "power on" null
      ∷ node_in "power off" null
      ∷ node_in "power off" null
      ∷ [];
}

wait_power-flapping :
    (wait_power fake "compute-01" "power off" (pos 30) (pos 5) 2 flapping).0
    ≡ ok (record { host = "compute-01"; power_state = text "power off"; target_power_state = null })
unfolding wait_power attempts poll ironic_node judge
wait_power-flapping = refl

wait_power-Returns_example :
    Returns
      (λ reply w'.
        (2 ≤ 2)
        × (is_text reply.power_state "power off" ≡ true)
        × ((n : Node) × Streak fake "power off" n 2 w'))
      (wait_power fake "compute-01" "power off" (pos 30) (pos 5) 2 flapping)
wait_power-Returns_example =
    wait_power-Returns fake "compute-01" "power off" (pos 30) (pos 5) 2 flapping

-- A node that always reports that it is off.
abbrev settled : World
settled = record calm { node = node_in "power off" null }

-- The fake cloud with reads that always report off.
abbrev always_off : Cloud World
always_off = record fake { get_node = λ _ w. (ok (node_in "power off" null), w) }

always_off-IsSteady : IsSteady always_off "power off"
always_off-IsSteady n w = (node_in "power off" null, w, refl, (refl, refl))

wait_power-Succeeds_example :
    Succeeds (wait_power always_off "compute-01" "power off" (pos 30) (pos 5) 3 settled)
unfolding ironic_node attempts
wait_power-Succeeds_example =
    wait_power-Succeeds always_off "compute-01" "power off" always_off-IsSteady (pos 30) (pos 5) 3 7
      (node_in "power off" null) settled settled (omega arith) refl refl (omega arith)

request_power_writes_example :
    ((request_power fake "compute-01" "power off" true calm).1 ≡ calm)
    ⊎ ((truthy (node_in "power on" null).target_power_state ≡ false)
        × (is_text (node_in "power on" null).power_state "power off" ≡ false)
        × ((request_power fake "compute-01" "power off" true calm).1
            ≡ (fake.set_node_power_state
                (node_in "power on" null)
                (effective_target "power off" true)
                calm).1))
unfolding ironic_node is_power_target
request_power_writes_example =
    request_power_writes fake "compute-01" "power off" true (node_in "power on" null) calm calm refl
      refl

-- The soft request is the one that is sent.
request_power_sent :
    (request_power fake "compute-01" "power off" true calm).1.calls ≡ "power soft power off" ∷ []
unfolding request_power ironic_node
request_power_sent = refl

request_power_unknown_example :
    request_power fake "compute-01" "manage" false calm
    ≡ (err (unsupported_power_target "unsupported power target: manage"), calm)
unfolding is_power_target
request_power_unknown_example = request_power_unknown fake "compute-01" "manage" false calm refl

-- One server is seen, then none.
abbrev migrating : World
migrating = record calm {
  next_servers = (server_in "ACTIVE" ∷ []) ∷ (server_in "ACTIVE" ∷ []) ∷ [] ∷ [];
}

drain_migrates :
    (drain_host fake "compute-01" "live_migrate" (pos 30) (pos 5) migrating).1.calls
    ≡ "migrate server-1" ∷ []
unfolding drain_host attempts poll server_host
drain_migrates = refl

drain_host-Returns_example :
    Returns
      (λ _ w'.
        (is_instance_policy "live_migrate" ≡ true)
        × LastListing fake "compute-01" (Drained fake "compute-01" "live_migrate") w')
      (drain_host fake "compute-01" "live_migrate" (pos 30) (pos 5) migrating)
drain_host-Returns_example =
    drain_host-Returns fake "compute-01" "live_migrate" (pos 30) (pos 5) migrating

set_masakari_maintenance-Returns_example :
    Returns
      (λ reply w'.
        (reply.on_maintenance ≡ true) × MaintenanceSettled fake "compute-01" true calm w')
      (set_masakari_maintenance fake "compute-01" true calm)
set_masakari_maintenance-Returns_example =
    set_masakari_maintenance-Returns fake "compute-01" true calm

fail_safe_host-Returns_example :
    Returns
      (λ reply w'.
        (reply.nova_enabled ≡ false)
        × (reply.on_maintenance ≡ true)
        × ((between : World) × NovaSettled fake "compute-01" false "PowerOps fail-safe" calm between
            × MaintenanceSettled fake "compute-01" true between w'))
      (fail_safe_host fake "compute-01" calm)
fail_safe_host-Returns_example = fail_safe_host-Returns fake "compute-01" calm

fail_safe_calls :
    (fail_safe_host fake "compute-01" calm).1.calls
    ≡ "disable: PowerOps fail-safe" ∷ "maintenance" ∷ []
unfolding fail_safe_host nova_service masakari_host
fail_safe_calls = refl

verify_host_return-Returns_example :
    Returns
      (λ reply w'.
        (true ≡ true)
        × (reply.ready ≡ true)
        × IsVerified fake ("ovn-controller" ∷ []) "compute-01" calm w')
      (verify_host_return fake ("ovn-controller" ∷ []) "compute-01" true calm)
verify_host_return-Returns_example =
    verify_host_return-Returns fake ("ovn-controller" ∷ []) "compute-01" true calm
