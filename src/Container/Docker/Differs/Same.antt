-- ===== src/Container/Docker/Differs/Same.antt =====
-- What each comparison of DockerWorker's own that finds no difference has found equal.
use irnmn.Prelude.{
  String, ◌≡◌, refl, true, false, not, eq_iff, is_blank, map, Option, none, some, arith,
}
use irnmn.Effect.{Result, ok, err}
use irnmn.Container.Params.{Params, ContainerInfo}
use irnmn.Container.Volumes.{Volumes, generate_volumes}
use irnmn.Container.Compare.{
  same_option, bind_text, sets_differ, compare_pid_mode, compare_cap_add, volumes_differ,
}
use irnmn.Container.Compare.Sets.{SameMembers, sets_differ_iff}
use irnmn.Container.Differs.Same.{ok_false}
use irnmn.Container.Docker.Differs.{compare_volumes, differs_in}

abbrev pub IsPidMode : Option String → String → Type 0
IsPidMode none current = is_blank current ≡ true
IsPidMode (some mode) current = mode ≡ current

-- The engine's volumes and binds are those of the declared volumes.
abbrev pub HasVolumes : Params → ContainerInfo → Type 0
HasVolumes params info =
    (volumes : Volumes) × (generate_volumes params.volumes ≡ ok volumes)
    × SameMembers volumes.vol_list info.volumes
    × SameMembers (map bind_text volumes.vol_dict) info.binds

option_same :
    (mode : Option String) (current : String)
    → not (same_option mode current) ≡ false
    → IsPidMode mode current
option_same none current h = ground (arith, h)
option_same (some mode) current h = (eq_iff mode current).0 (ground (arith, h))

volumes_same :
    (volumes : Volumes) (info : ContainerInfo)
    → volumes_differ volumes info ≡ false
    → SameMembers volumes.vol_list info.volumes
      × SameMembers (map bind_text volumes.vol_dict) info.binds
unfolding volumes_differ
volumes_same volumes info h =
    let listed : sets_differ volumes.vol_list info.volumes ≡ false = ground (arith, h) in
    let bound : sets_differ (map bind_text volumes.vol_dict) info.binds ≡ false =
      ground (arith, h) in
    (
      (sets_differ_iff volumes.vol_list info.volumes).0 listed,
      (sets_differ_iff (map bind_text volumes.vol_dict) info.binds).0 bound,
    )

module _ (params : Params) (info : ContainerInfo) where
  pub cap_add-same : compare_cap_add params info ≡ false → SameMembers params.cap_add info.cap_add
  unfolding compare_cap_add
  cap_add-same h = (sets_differ_iff params.cap_add info.cap_add).0 h

  pub pid_mode-same : compare_pid_mode params info ≡ false → IsPidMode params.pid_mode info.pid_mode
  unfolding compare_pid_mode
  pid_mode-same h = option_same params.pid_mode info.pid_mode h

  pub volumes-same : compare_volumes params info ≡ ok false → HasVolumes params info
  unfolding compare_volumes
  volumes-same h = go (generate_volumes params.volumes) refl h
    where
      go :
          (found : Result Volumes)
          → generate_volumes params.volumes ≡ found
          → differs_in found info ≡ ok false
          → HasVolumes params info
      go (err e) e1 h = absurd (ground (arith, h))
      go (ok volumes) e1 h =
          let (targets, binds) = volumes_same volumes info (ok_false _ h) in
          (volumes, e1, targets, binds)
