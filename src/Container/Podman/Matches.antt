-- ===== src/Container/Podman/Matches.antt =====
-- A container that PodmanWorker finds no difference in matches the parameters.
use mathlib.Core.Path.{subst}
use irnmn.Prelude.{
  ◌≡◌, refl, false, eq_iff, nat_eq, Bool-cases, inl, inr, Option, none, some, arith,
}
use irnmn.Effect.{Result, ok, err, api_error}
use irnmn.Effect.Post.{Returns, Returns-follow, Returns-map, Returns-bind}
use irnmn.Container.Params.{Params, ContainerInfo, ImageEntry}
use irnmn.Container.Engine.{Run, call}
use irnmn.Container.Differs.{found_differs}
use irnmn.Container.Differs.Agrees.{Promises, Agrees, IfFound, found_differs-Agrees}
use irnmn.Container.Differs.NoOnlyIf.{NoOnlyAt}
use irnmn.Container.Podman.Engine.{Container, Podman}
use irnmn.Container.Podman.Compare.{parse_tag}
use irnmn.Container.Podman.Images.{
  image_or_none, check_image, check_container, get_container_info, attrs_of,
}
use irnmn.Container.Podman.Differs.{
  image_differs, compare_image, comparisons, check_container_differs,
}
use irnmn.Container.Podman.Found.{IsReported, ReportedIfFound, check_container-Returns}
use irnmn.Container.Podman.Caps.{HasCaps, cap_add-same}
use irnmn.Container.Podman.Same.{HasPidMode, HasVolumes, pid_mode-same, volumes-same}

-- In the state of the run, the engine gives the image of the declared name, which is the
-- container's: its id, and the last part of both names.
abbrev pub HasImage : {W : Type 0} → Podman W → Params → ContainerInfo → Run W → Type 0
HasImage podman params info r =
    ((image : ImageEntry) × ((podman.get_image params.image r.world).0 ≡ ok image)
      × (image.id ≡ info.image_id))
    × (parse_tag params.image ≡ parse_tag info.config_image)

-- The image that the engine has given in the state.
abbrev Given : {W : Type 0} → Podman W → Params → Run W → Option ImageEntry → Type 0
Given podman params r none = Unit
Given podman params r (some image) = (podman.get_image params.image r.world).0 ≡ ok image

given :
    {W : Type 0} (podman : Podman W) (params : Params) (r : Run W) (x : Result ImageEntry × Run W)
    → call (podman.get_image params.image) r ≡ x
    → Returns (λ found _. Given podman params r found) (image_or_none x)
given podman params r (ok image, r') e = λ i. (e i).0
given podman params r (err (api_error status m), r') e = elim (Bool-cases (nat_eq status 404)) [
  | inl missing ↦ rw missing tt
  | inr other ↦ rw other tt
]
given podman params r (err _, r') e = tt

module _ {W : Type 0} (podman : Podman W) (params : Params) where
  check_image-Given :
      (r : Run W) → Returns (λ found _. Given podman params r found) (check_image podman params r)
  unfolding check_image
  check_image-Given r = given podman params r _ refl

  module _ (info : ContainerInfo) where
    image-same :
        (r : Run W) (found : Option ImageEntry)
        → Given podman params r found
        → image_differs podman params found info ≡ false
        → HasImage podman params info r
    image-same r none there h = absurd (ground (arith, h))
    image-same r (some image) there h = (
      (image, there, (eq_iff image.id info.image_id).0 (ground (arith, h))),
      (eq_iff (parse_tag params.image) (parse_tag info.config_image)).0 (ground (arith, h)),
    )

    compare_image-NoOnlyAt :
        (r : Run W) → NoOnlyAt r (HasImage podman params info r) (compare_image podman params info)
    unfolding compare_image
    compare_image-NoOnlyAt r = record {
      at_it =
          Returns-follow _ _ (check_image podman params r) (check_image-Given r)
            (λ found _ there. image-same r found there);
    }

-- The declared parameters and what the engine reports of the container agree, its image being the
-- one that the engine gives in the state of the run.
abbrev pub Matches : {W : Type 0} → Podman W → Params → ContainerInfo → Run W → Type 0
Matches podman params info r =
    Agrees (comparisons podman params) params info (HasCaps params info)
      (HasImage podman params info r) (HasPidMode params.pid_mode info.pid_mode)
      (HasVolumes params info)

promises :
    {W : Type 0} (podman : Podman W) (params : Params) (r : Run W) (info : ContainerInfo)
    → Promises
        (comparisons podman params)
        info
        r
        (HasCaps params info)
        (HasImage podman params info r)
        (HasPidMode params.pid_mode info.pid_mode)
        (HasVolumes params info)
unfolding comparisons
promises podman params r info = record {
  cap_add = cap_add-same params info;
  image = compare_image-NoOnlyAt podman params info r;
  pid_mode = pid_mode-same params info;
  volumes = volumes-same params info;
}

-- The engine has just reported a container of the name with this information.
abbrev pub HasReport : {W : Type 0} → Podman W → Params → W → ContainerInfo → Type 0
HasReport podman params w' info =
    (container : Container) × IsReported podman params w' container × (container.attrs ≡ info)

get_container_info-Returns :
    {W : Type 0} (podman : Podman W) (params : Params) (r : Run W)
    → Returns
        (λ found r'. IfFound (HasReport podman params r'.world) found)
        (get_container_info podman params r)
unfolding get_container_info
get_container_info-Returns {W = W} podman params r =
    Returns-follow _ _ (check_container podman params r) (check_container-Returns podman params r)
      (λ found r' there. go found r'.world there)
  where
    go :
        (found : Option Container) (w : W)
        → ReportedIfFound podman params w found
        → IfFound (HasReport podman params w) (attrs_of podman params found)
    go none w there = tt
    go (some container) w there = (container, there, refl)

-- The run that starts in the first state first has the engine report the container, which leaves
-- the second state.
abbrev pub Reported : {W : Type 0} → Podman W → Params → Run W → ContainerInfo → Run W → Type 0
Reported podman params r info r' =
    (get_container_info podman params r ≡ (ok (some info), r'))
    × HasReport podman params r'.world info

-- A container that `check_container_differs` finds no difference in is one of the name that the
-- engine reports at the start of this run, and the report matches the parameters: the image is the
-- one that the engine gives right after the report, the labels are those declared and those that
-- the image has besides, the volumes and binds are the declared ones but for final slashes and the
-- flags that Podman adds, the words of a declared command are the program and its arguments, and the
-- dimensions and the health check agree by the comparison of the source.
pub podman_differs-Matches :
    {W : Type 0} (podman : Podman W) (params : Params) (r : Run W)
    → Returns
        (λ answer _.
          answer ≡ false
          → (info : ContainerInfo) × (r' : Run W) × Reported podman params r info r'
            × Matches podman params info r')
        (check_container_differs podman params r)
unfolding check_container_differs
podman_differs-Matches {W = W} podman params r =
    Returns-bind _ _ (get_container_info podman params) r (λ found r' called.
      Returns-map _ _ (found_differs (comparisons podman params) params found r')
        (λ answer _ same e. let (info, there, agrees) = same e in (info, r', there, agrees))
        (found_differs-Agrees (comparisons podman params) params
          (λ info. Reported podman params r info r') (HasCaps params)
          (λ info. HasImage podman params info r')
          (λ info. HasPidMode params.pid_mode info.pid_mode) (HasVolumes params) found r'
          (promises podman params r') (go found r' called)))
  where
    go :
        (found : Option ContainerInfo) (r' : Run W)
        → get_container_info podman params r ≡ (ok found, r')
        → IfFound (λ info. Reported podman params r info r') found
    go none r' called = tt
    go (some info) r' called = (
      called,
      subst (Returns (λ found r'. IfFound (HasReport podman params r'.world) found)) called
          (get_container_info-Returns podman params r),
    )
