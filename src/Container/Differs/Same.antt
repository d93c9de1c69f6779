-- ===== src/Container/Differs/Same.antt =====
-- What each comparison that finds no difference has found equal.
use irnmn.Prelude.{
  String, ◌≡◌, refl, Bool, true, false, not, ◌==◌, eq_iff, differ, is_empty, all, Option, none,
  some, Bool-cases, inl, inr, ◌⊎◌, arith, if◌then◌else◌,
}
use irnmn.Effect.{Result, ok, err, value_error}
use irnmn.Container.Params.{Params, ContainerInfo}
use irnmn.Container.Volumes.{generate_tmpfs}
use irnmn.Container.Compare.{
  is_unconfined, same_option, current_cgroupns_mode, compare_ipc_mode, compare_security_opt,
  compare_cgroupns_mode, compare_privileged, compare_tmpfs, compare_volumes_from,
  compare_container_state,
}
use irnmn.Container.Compare.Sets.{SameMembers, sets_differ_iff}
use irnmn.Container.Compare.Parsing.{
  Labels, current_env, is_current, last_value, compare_environment,
}

-- What the comparisons ask of a mode.
abbrev pub IsMode : Option String → String → Type 0
IsMode none current = Unit
IsMode (some mode) current = mode ≡ current

abbrev pub IsState : String → String → Type 0
IsState asked current = (asked ≡ current) ⊎ ((asked ≡ "started") × (current ≡ "running"))

-- The declared variables have their values, where any are declared.
abbrev pub HasEnvironment : Params → ContainerInfo → Type 0
HasEnvironment params info =
    (is_empty params.environment ≡ true)
    ⊎ ((env : Labels) × (current_env info.env ≡ some env)
        × (all (λ entry. is_current (last_value entry.0 env) entry.1) params.environment ≡ true))

if_false : (test b : Bool) → test ≡ false → (if test then false else b) ≡ false → b ≡ false
if_false test b is h = ground (arith, is, h)

else_ok :
    (test : Bool) (r : Result Bool)
    → test ≡ false
    → (if test then ok false else r) ≡ ok false
    → r ≡ ok false
else_ok true r is h = absurd (ground (arith, is))
else_ok false r is h = h

differ_same : (a b : Bool) → differ a b ≡ false → a ≡ b
differ_same true b h = ground (arith, h)
differ_same false b h = ground (arith, h)

pub ok_false : (b : Bool) → ◌≡◌ {A = Result Bool} (ok b) (ok false) → b ≡ false
ok_false b h = ground (arith, h)

module _ (params : Params) (info : ContainerInfo) where
  pub security_opt-same :
      compare_security_opt params info ≡ false
      → is_unconfined params ≡ false
      → SameMembers params.security_opt info.security_opt
  unfolding compare_security_opt
  security_opt-same h confined =
      (sets_differ_iff params.security_opt info.security_opt).0
        (if_false (is_unconfined params) _ confined h)

  pub ipc_mode-same : compare_ipc_mode params info ≡ false → IsMode params.ipc_mode info.ipc_mode
  unfolding compare_ipc_mode
  ipc_mode-same h = go params.ipc_mode h
    where
      go :
          (mode : Option String)
          → (elim mode [ none ↦ false | some m ↦ not (same_option (some m) info.ipc_mode) ]) ≡ false
          → IsMode mode info.ipc_mode
      go none h = tt
      go (some mode) h = (eq_iff mode info.ipc_mode).0 (ground (arith, h))

  pub cgroupns_mode-same :
      compare_cgroupns_mode params info ≡ false
      → IsMode params.cgroupns_mode (current_cgroupns_mode info)
  unfolding compare_cgroupns_mode
  cgroupns_mode-same h = go params.cgroupns_mode h
    where
      go :
          (mode : Option String)
          → (elim mode [ none ↦ false | some m ↦ not (m == current_cgroupns_mode info) ]) ≡ false
          → IsMode mode (current_cgroupns_mode info)
      go none h = tt
      go (some mode) h = (eq_iff mode (current_cgroupns_mode info)).0 (ground (arith, h))

  pub tmpfs-same :
      compare_tmpfs params info ≡ false → SameMembers info.tmpfs (generate_tmpfs params.tmpfs)
  unfolding compare_tmpfs
  tmpfs-same h = (sets_differ_iff info.tmpfs (generate_tmpfs params.tmpfs)).0 h

  pub volumes_from-same :
      compare_volumes_from params info ≡ false → SameMembers info.volumes_from params.volumes_from
  unfolding compare_volumes_from
  volumes_from-same h = (sets_differ_iff info.volumes_from params.volumes_from).0 h

  pub privileged-same : compare_privileged params info ≡ false → params.privileged ≡ info.privileged
  unfolding compare_privileged
  privileged-same h = differ_same params.privileged info.privileged h

  pub state-same : compare_container_state params info ≡ false → IsState params.state info.status
  unfolding compare_container_state
  state-same h = ground (
    arith,
    h,
    eq_iff params.state info.status,
    eq_iff params.state "started",
    eq_iff info.status "running",
  )

  pub environment-same : compare_environment params info ≡ ok false → HasEnvironment params info
  unfolding compare_environment
  environment-same h = elim (Bool-cases (is_empty params.environment)) [
    | inl none_asked ↦ inl none_asked
    | inr asked ↦ go (current_env info.env) refl (else_ok (is_empty params.environment) _ asked h)
  ]
    where
      go :
          (found : Option Labels)
          → current_env info.env ≡ found
          → (elim found [
            | none ↦ err (value_error "not enough values to unpack (expected 2, got 1)")
            | some env ↦ ok (
                not (all (λ entry. is_current (last_value entry.0 env) entry.1) params.environment))
          ])
            ≡ ok false
          → HasEnvironment params info
      go none e h = absurd (ground (arith, h))
      go (some env) e h = inr (env, e, ground (arith, h))
