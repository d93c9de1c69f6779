-- ===== src/Effect.antt =====
-- Python code that calls services and may raise: a function of the state of the world that returns
-- a result or an exception and the state reached, also after a raise.
pub mod Polling
pub mod Post
use irnmn.Prelude.{ℕ, String, Bool, true, false, ◌≡◌, refl}
use irnmn.Text.Numbers.{show}

-- The exceptions that the modelled code raises, by class, each with its message. `module_failed` is
-- the exit by `fail_json`, or by `exit_json` with `failed`; `key_error` any lookup that fails; and
-- `external` any exception raised by code outside the repository; `api_error` is that of the
-- libraries of Docker and Podman with its status code; `system_exit` is `sys.exit`.
pub data Exception : Type 0 where
  mapping_error host_not_empty power_timeout : String → Exception
  unsupported_power_target unsupported_instance_policy : String → Exception
  host_return_not_safe value_error host_recovery_failure : String → Exception
  reconciliation_error filter_error rotation_interval_too_long module_failed key_error external :
      String → Exception
  api_error : ℕ → String → Exception
  system_exit : ℕ → Exception

pub data Result {ℓ} (A : Type ℓ) : Type ℓ where
  ok : A → Result A
  err : Exception → Result A

abbrev pub Exec {ℓ κ} : Type ℓ → Type κ → Type (ℓ ⊔ κ)
Exec W A = W → Result A × W

module _ {ℓ κ} {W : Type ℓ} {A : Type κ} where
  abbrev pub pure : A → Exec W A
  pure a w = (ok a, w)

  abbrev pub raise : Exception → Exec W A
  raise e w = (err e, w)

  abbrev pub lift : Result A → Exec W A
  lift r w = (r, w)

module _ {ℓ κ μ} {W : Type ℓ} {A : Type κ} {B : Type μ} where
  abbrev pub continue : Result A → (A → Exec W B) → Exec W B
  continue (ok a) f w = f a w
  continue (err e) f w = (err e, w)

  infixl 5 ◌>>=◌ ◌>>◌
  abbrev pub ◌>>=◌ : Exec W A → (A → Exec W B) → Exec W B
  ◌>>=◌ m f w = let (r, w') = m w in continue r f w'

  abbrev pub ◌>>◌ : Exec W A → Exec W B → Exec W B
  m >> n = m >>= λ _. n

-- `if test: raise e`
abbrev pub raise_if {ℓ} : {W : Type ℓ} → Bool → Exception → Exec W (Unit {0})
raise_if true e = raise e
raise_if false e = pure tt

-- A statement under `if`, with no `else`.
abbrev pub run_if {ℓ} : {W : Type ℓ} → Bool → Exec W (Unit {0}) → Exec W (Unit {0})
run_if true m = m
run_if false m = pure tt

-- `str(exc)`
abbrev pub message : Exception → String
message (mapping_error m) = m
message (host_not_empty m) = m
message (power_timeout m) = m
message (unsupported_power_target m) = m
message (unsupported_instance_policy m) = m
message (host_return_not_safe m) = m
message (value_error m) = m
message (host_recovery_failure m) = m
message (reconciliation_error m) = m
message (filter_error m) = m
message (rotation_interval_too_long m) = m
message (module_failed m) = m
message (key_error m) = m
message (external m) = m
message (api_error status m) = m
message (system_exit code) = show code
