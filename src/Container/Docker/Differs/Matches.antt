-- ===== src/Container/Docker/Differs/Matches.antt =====
-- A container in which DockerWorker finds no difference matches the parameters.
use mathlib.Core.Path.{subst}
use irnmn.Prelude.{◌≡◌, false, Option, none, some}
use irnmn.Effect.{ok}
use irnmn.Effect.Post.{Returns, Returns-map, Returns-bind}
use irnmn.Container.Params.{Params, ContainerInfo, ContainerEntry}
use irnmn.Container.Compare.Sets.{SameMembers}
use irnmn.Container.Engine.{Docker, Run, call}
use irnmn.Container.Differs.{found_differs}
use irnmn.Container.Differs.Agrees.{Promises, Agrees, IfFound, found_differs-Agrees}
use irnmn.Container.Docker.Images.{check_container, inspect_found, get_container_info}
use irnmn.Container.Docker.Differs.{comparisons, check_container_differs}
use irnmn.Container.Docker.Differs.Same.{
  IsPidMode, HasVolumes, cap_add-same, pid_mode-same, volumes-same,
}
use irnmn.Container.Docker.Differs.Image.{HasImage, compare_image-NoOnlyAt}

-- The declared parameters and what the engine reports of the container agree, its image being the
-- one listed in the state of the run.
abbrev pub Matches : {W : Type 0} → Docker W → Params → ContainerInfo → Run W → Type 0
Matches docker params info r =
    Agrees (comparisons docker params) params info (SameMembers params.cap_add info.cap_add)
      (HasImage docker params info r) (IsPidMode params.pid_mode info.pid_mode)
      (HasVolumes params info)

promises :
    {W : Type 0} (docker : Docker W) (params : Params) (r : Run W) (info : ContainerInfo)
    → Promises
        (comparisons docker params)
        info
        r
        (SameMembers params.cap_add info.cap_add)
        (HasImage docker params info r)
        (IsPidMode params.pid_mode info.pid_mode)
        (HasVolumes params info)
unfolding comparisons
promises docker params r info = record {
  cap_add = cap_add-same params info;
  image = compare_image-NoOnlyAt docker params info r;
  pid_mode = pid_mode-same params info;
  volumes = volumes-same params info;
}

-- The engine has just reported the container, in a call that left the world.
abbrev pub IsInspected : {W : Type 0} → Docker W → Params → W → ContainerInfo → Type 0
IsInspected {W} docker params w' info =
    (w : W) × (docker.inspect_container params.name w ≡ (ok info, w'))

get_container_info-Returns :
    {W : Type 0} (docker : Docker W) (params : Params) (r : Run W)
    → Returns
        (λ found r'. IfFound (IsInspected docker params r'.world) found)
        (get_container_info docker params r)
unfolding get_container_info
get_container_info-Returns {W = W} docker params r =
    Returns-bind _ _ (check_container docker params) r (λ found r' _. go found r')
  where
    go :
        (found : Option ContainerEntry) (r : Run W)
        → Returns
            (λ found r'. IfFound (IsInspected docker params r'.world) found)
            (inspect_found docker params found r)
    go none r = tt
    go (some container) r =
        Returns-bind _ _ (call (docker.inspect_container params.name)) r
          (λ info r' inspected. (r.world, λ i. ((inspected i).0, (inspected i).1.world)))

-- The run that starts in the first state first has the engine report the container, which leaves
-- the second state.
abbrev pub Inspected : {W : Type 0} → Docker W → Params → Run W → ContainerInfo → Run W → Type 0
Inspected docker params r info r' =
    (get_container_info docker params r ≡ (ok (some info), r'))
    × IsInspected docker params r'.world info

pub check_container_differs-Matches :
    {W : Type 0} (docker : Docker W) (params : Params) (r : Run W)
    → Returns
        (λ answer _.
          answer ≡ false
          → (info : ContainerInfo) × (r' : Run W) × Inspected docker params r info r'
            × Matches docker params info r')
        (check_container_differs docker params r)
unfolding check_container_differs
check_container_differs-Matches {W = W} docker params r =
    Returns-bind _ _ (get_container_info docker params) r (λ found r' called.
      Returns-map _ _ (found_differs (comparisons docker params) params found r')
        (λ answer _ same e. let (info, there, agrees) = same e in (info, r', there, agrees))
        (found_differs-Agrees (comparisons docker params) params
          (λ info. Inspected docker params r info r')
          (λ info. SameMembers params.cap_add info.cap_add) (λ info. HasImage docker params info r')
          (λ info. IsPidMode params.pid_mode info.pid_mode) (HasVolumes params) found r'
          (promises docker params r') (go found r' called)))
  where
    go :
        (found : Option ContainerInfo) (r' : Run W)
        → get_container_info docker params r ≡ (ok found, r')
        → IfFound (λ info. Inspected docker params r info r') found
    go none r' called = tt
    go (some info) r' called = (
      called,
      subst (Returns (λ found r'. IfFound (IsInspected docker params r'.world) found)) called
          (get_container_info-Returns docker params r),
    )
