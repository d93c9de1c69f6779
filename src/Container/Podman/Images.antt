-- ===== src/Container/Podman/Images.antt =====
-- The lookups of images, containers and volumes in kolla_podman_worker.py, and the calls on images
-- and volumes.
use irnmn.Prelude.{
  ℕ, String, Bool, true, false, not, ◌==◌, is_blank, nat_eq, List, [], ◌∷◌, ◌&◌, Option, none, some,
  if◌then◌else◌,
}
use irnmn.Text.Split.{split_all, has_char}
use irnmn.Effect.{
  Exception, Result, ok, err, Exec, pure, raise, run_if, module_failed, api_error, ◌>>=◌, ◌>>◌,
}
use irnmn.Container.Params.{Params, ContainerInfo, ImageEntry}
use irnmn.Container.Engine.{Run, call, set_changed, assign_changed, set_volume}
use irnmn.Container.Docker.Images.{is_found, handle_api}
use irnmn.Container.Podman.Engine.{Container, Podman}
use irnmn.Container.Podman.Args.{prepare_image_args}

abbrev pub internal_error : String → Exception
internal_error m = module_failed ("Internal error: " & m)

-- An image that is not there is an empty one.
abbrev pub image_or_none : {W : Type 0} → Result ImageEntry × W → Result (Option ImageEntry) × W
image_or_none (ok image, w) = (ok (some image), w)
image_or_none (err (api_error status m), w) =
    if nat_eq status 404 then (ok none, w) else (err (internal_error m), w)
image_or_none (err e, w) = (err e, w)

-- Any error of the engine reads as a volume that is not there.
abbrev pub volume_or_none : {W : Type 0} → Result (Unit {0}) × W → Result Bool × W
volume_or_none (ok _, w) = (ok true, w)
volume_or_none (err (api_error status m), w) = (ok false, w)
volume_or_none (err e, w) = (err e, w)

-- An engine's error while pulling.
abbrev pub pull_failed : {W : Type 0} → Result (Unit {0}) × W → Result (Unit {0}) × W
pull_failed (err (api_error status m), w) = (err (module_failed ("Unknown error message: " & m)), w)
pull_failed x = x

-- A conflict, or another error, of the engine.
abbrev pub in_use_or_internal : {W : Type 0} → String → ℕ → String → Exec W (Unit {0})
in_use_or_internal thing status m =
    if nat_eq status 409
    then raise (module_failed (thing & " is currently in-use"))
    else raise (internal_error m)

module _ {W : Type 0} (podman : Podman W) (params : Params) where
  unfoldable pub check_image : Exec (Run W) (Option ImageEntry)
  check_image r = image_or_none (call (podman.get_image params.image) r)

  unfoldable pub check_volume : String → Exec (Run W) Bool
  check_volume name r = volume_or_none (call (podman.get_volume name) r)

  -- The first container of the name; each one is read before its name is compared.
  unfoldable pub first_named : List String → Exec (Run W) (Option Container)
  first_named [] = pure none
  first_named (id ∷ ids) = do
    container ← call (podman.reload id)
    if params.name == container.name then pure (some container) else first_named ids

  unfoldable pub check_container : Exec (Run W) (Option Container)
  unfolding first_named
  check_container = do ids ← call podman.containers; first_named ids

  abbrev pub attrs_of : Option Container → Option ContainerInfo
  attrs_of none = none
  attrs_of (some container) = some container.attrs

  unfoldable pub get_container_info : Exec (Run W) (Option ContainerInfo)
  unfolding check_container
  get_container_info = do container ← check_container; pure (attrs_of container)

  abbrev pub same_image : Option ImageEntry → ImageEntry → Bool
  same_image none image = false
  same_image (some old) image = podman.same_attrs old image

  abbrev pub pulled : Option ImageEntry → Option ImageEntry → Exec (Run W) (Unit {0})
  pulled old none = raise (module_failed ("The requested image does not exist: " & params.image))
  pulled old (some image) = assign_changed (not (same_image old image))

  unfoldable pub pull_image : Exec (Run W) (Unit {0})
  unfolding check_image prepare_image_args
  pull_image = do
    old_image ← check_image
    λ r. pull_failed ((call (podman.pull (prepare_image_args params)) >>= pulled old_image) r)

  unfoldable pub ensure_image : Exec (Run W) (Unit {0})
  unfolding check_image pull_image
  ensure_image = do image ← check_image; run_if (not (is_found image)) pull_image

  unfoldable pub create_volume : String → Exec (Run W) (Unit {0})
  unfolding check_volume
  create_volume name = do
    let volume_name = if is_blank name then params.name else name
    found ← check_volume volume_name
    if found
        then pure tt
        else (do set_changed; call (podman.create_volume volume_name); set_volume volume_name)

  abbrev pub first_part : List String → String
  first_part [] = ""
  first_part (part ∷ parts) = part

  unfoldable pub create_container_volumes : List String → Exec (Run W) (Unit {0})
  unfolding create_volume split_all has_char
  create_container_volumes [] = pure tt
  create_container_volumes (volume ∷ rest) = do
    let name = first_part (split_all 58 volume)
    run_if (not (has_char 47 name)) (create_volume name)
    create_container_volumes rest

  unfoldable pub remove_volume : Exec (Run W) (Unit {0})
  unfolding check_volume
  remove_volume = do
    found ← check_volume params.name
    if found
        then (do
          set_changed
          λ r.
              handle_api (call (podman.remove_volume params.name) r)
                (in_use_or_internal ("Volume named '" & params.name & "'")))
        else pure tt

  unfoldable pub remove_image : Exec (Run W) (Unit {0})
  unfolding check_image
  remove_image = do
    found ← check_image
    if is_found found
        then (do
          image ← call (podman.get_image params.image)
          set_changed
          λ r.
              handle_api (call (podman.remove_image image) r)
                (in_use_or_internal ("Image '" & params.image & "'")))
        else pure tt
