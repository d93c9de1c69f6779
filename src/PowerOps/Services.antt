-- ===== src/PowerOps/Services.antt =====
-- The Nova service and the Masakari maintenance flag of a host, and the fail-safe that sets both.
pub mod Settled
use irnmn.Prelude.{String, Bool, true, false, not, differ, if◌then◌else◌}
use irnmn.Attr.{Attr, is_text, is_set}
use irnmn.Effect.{Exec, pure, run_if, ◌>>=◌, ◌>>◌}
use irnmn.PowerOps.Cloud.{Cloud}
use irnmn.PowerOps.Lookup.{nova_service, ironic_node, masakari_host}

pub record NovaReply : Type 0 where
  pub host : String
  pub enabled : Bool

pub record MaintenanceReply : Type 0 where
  pub host : String
  pub on_maintenance : Bool

pub record FailSafeReply : Type 0 where
  pub host : String
  pub nova_enabled : Bool
  pub on_maintenance : Bool

pub record StatusReply : Type 0 where
  pub host : String
  pub nova_status : Attr
  pub nova_state : Attr
  pub power_state : Attr
  pub target_power_state : Attr
  pub masakari_on_maintenance : Bool

module _ {W : Type 0} (cloud : Cloud W) where
  open cloud use {enable_service, disable_service, update_host}

  unfoldable pub set_nova_service : String → Bool → String → Exec W NovaReply
  set_nova_service host enabled reason = do
    service ← nova_service cloud host
    if enabled
        then run_if (not (is_text service.status "enabled")) (enable_service service)
        else run_if (not (is_text service.status "disabled")) (disable_service service reason)
    pure (record { host = host; enabled = enabled })

  unfoldable pub set_masakari_maintenance : String → Bool → Exec W MaintenanceReply
  set_masakari_maintenance host enabled = do
    found ← masakari_host cloud host
    run_if (differ (is_set found.1.on_maintenance) enabled) (update_host found.1 found.0 enabled)
    pure (record { host = host; on_maintenance = enabled })

  unfoldable pub fail_safe_host : String → Exec W FailSafeReply
  unfolding set_nova_service set_masakari_maintenance
  fail_safe_host host = do
    set_nova_service host false "PowerOps fail-safe"
    set_masakari_maintenance host true
    pure (record { host = host; nova_enabled = false; on_maintenance = true })

  unfoldable pub status : String → Exec W StatusReply
  status host = do
    service ← nova_service cloud host
    node ← ironic_node cloud host
    found ← masakari_host cloud host
    pure (record {
      host = host;
      nova_status = service.status;
      nova_state = service.state;
      power_state = node.power_state;
      target_power_state = node.target_power_state;
      masakari_on_maintenance = is_set found.1.on_maintenance;
    })
