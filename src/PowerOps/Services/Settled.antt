-- ===== src/PowerOps/Services/Settled.antt =====
-- What `set_nova_service`, `set_masakari_maintenance` and `fail_safe_host` of operations.py have
-- done when they return.
use irnmn.Prelude.{String, ◌≡◌, ◌⊎◌, inl, inr, refl, Bool, true, false, not, differ, arith}
use irnmn.Attr.{is_text, is_set}
use irnmn.Effect.{ok, Exec}
use irnmn.Effect.Post.{Returns, Returns-bind, Returns-run_if}
use irnmn.PowerOps.Cloud.{Service, Segment, SegmentHost, Cloud}
use irnmn.PowerOps.Lookup.{nova_service, masakari_host}
use irnmn.PowerOps.Services.{set_nova_service, set_masakari_maintenance, fail_safe_host}

module _ {W : Type 0} (cloud : Cloud W) where
  abbrev pub wanted_status : Bool → String
  wanted_status true = "enabled"
  wanted_status false = "disabled"

  abbrev pub switch : Bool → String → Service → Exec W (Unit {0})
  switch true reason service = cloud.enable_service service
  switch false reason service = cloud.disable_service service reason

  -- The host's one Nova service had the status and nothing was written, or it had another one and
  -- the call that switches it returned.
  abbrev pub NovaSettled : String → Bool → String → W → W → Type 0
  NovaSettled host enabled reason w w' =
      (service : Service) × (seen : W) × (nova_service cloud host w ≡ (ok service, seen))
      × (((is_text service.status (wanted_status enabled) ≡ true) × (w' ≡ seen))
          ⊎ ((is_text service.status (wanted_status enabled) ≡ false)
              × (switch enabled reason service seen ≡ (ok tt, w'))))

  -- The same of the host's one Masakari record and its maintenance flag.
  abbrev pub MaintenanceSettled : String → Bool → W → W → Type 0
  MaintenanceSettled host enabled w w' =
      (found : Segment × SegmentHost) × (seen : W) × (masakari_host cloud host w ≡ (ok found, seen))
      × (((is_set found.1.on_maintenance ≡ enabled) × (w' ≡ seen))
          ⊎ ((is_set found.1.on_maintenance ≡ not enabled)
              × (cloud.update_host found.1 found.0 enabled seen ≡ (ok tt, w'))))

  -- When `set_nova_service` returns, the host's one Nova service had the wanted status and nothing
  -- was written, or it had another and the call that enables or disables it returned.
  set_nova_service-Returns :
      (host : String) (enabled : Bool) (reason : String) (w : W)
      → Returns
          (λ reply w'. (reply.enabled ≡ enabled) × NovaSettled host enabled reason w w')
          (set_nova_service cloud host enabled reason w)
  unfolding set_nova_service
  set_nova_service-Returns host true reason w =
      Returns-bind _ _ (nova_service cloud host) w λ service seen looked.
        Returns-run_if _ _ (not (is_text service.status "enabled")) (cloud.enable_service service)
          seen (λ same. (refl, (service, seen, looked, inl (ground arith, refl))))
          (λ w' other called. (refl, (service, seen, looked, inr (ground arith, called))))
  set_nova_service-Returns host false reason w =
      Returns-bind _ _ (nova_service cloud host) w λ service seen looked.
        Returns-run_if _ _ (not (is_text service.status "disabled"))
          (cloud.disable_service service reason) seen
          (λ same. (refl, (service, seen, looked, inl (ground arith, refl))))
          (λ w' other called. (refl, (service, seen, looked, inr (ground arith, called))))

  -- When `set_masakari_maintenance` returns, the flag of the host's one Masakari record was as
  -- wanted and nothing was written, or it was not and the call that sets it returned.
  pub set_masakari_maintenance-Returns :
      (host : String) (enabled : Bool) (w : W)
      → Returns
          (λ reply w'. (reply.on_maintenance ≡ enabled) × MaintenanceSettled host enabled w w')
          (set_masakari_maintenance cloud host enabled w)
  unfolding set_masakari_maintenance
  set_masakari_maintenance-Returns host enabled w =
      Returns-bind _ _ (masakari_host cloud host) w λ found seen looked.
        Returns-run_if _ _ (differ (is_set found.1.on_maintenance) enabled)
          (cloud.update_host found.1 found.0 enabled) seen
          (λ same. (refl, (found, seen, looked, inl (same_flag _ _ same, refl))))
          (λ w' other called. (refl, (found, seen, looked, inr (other_flag _ _ other, called))))
    where
      same_flag : (a b : Bool) → differ a b ≡ false → a ≡ b
      same_flag a b h = ground arith

      other_flag : (a b : Bool) → differ a b ≡ true → a ≡ not b
      other_flag a b h = ground arith

  -- When `fail_safe_host` returns, it has settled the Nova service as disabled and then, from the
  -- world that this left, the Masakari record as on maintenance.
  pub fail_safe_host-Returns :
      (host : String) (w : W)
      → Returns
          (λ reply w'.
            (reply.nova_enabled ≡ false)
            × (reply.on_maintenance ≡ true)
            × ((between : W) × NovaSettled host false "PowerOps fail-safe" w between
                × MaintenanceSettled host true between w'))
          (fail_safe_host cloud host w)
  unfolding fail_safe_host
  fail_safe_host-Returns host w =
      Returns-bind _ _ (set_nova_service cloud host false "PowerOps fail-safe") w λ _ between nova.
        Returns-bind _ _ (set_masakari_maintenance cloud host true) between λ _ w' masakari. (
          refl,
          refl,
          (
            between,
            (rw nova at (set_nova_service-Returns host false "PowerOps fail-safe" w)).1,
            (rw masakari at (set_masakari_maintenance-Returns host true between)).1,
          ),
        )
