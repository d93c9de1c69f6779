-- ===== src/Container/Docker/Images.antt =====
-- The lookups of images, containers and volumes in kolla_docker_worker.py, and the calls on images
-- and volumes.
use irnmn.Prelude.{
  ℕ, String, Bool, true, false, not, ◌==◌, is_blank, nat_eq, any, List, [], ◌∷◌, ◌&◌, Option, none,
  some, if◌then◌else◌,
}
use irnmn.Text.{ends_with}
use irnmn.Text.Split.{split_all, has_char}
use irnmn.Effect.{
  Exception, Result, err, Exec, pure, raise, run_if, module_failed, api_error, ◌>>=◌, ◌>>◌,
}
use irnmn.Container.Params.{Params, ContainerInfo, ImageEntry, ContainerEntry}
use irnmn.Container.Image.{parse_image, find_image}
use irnmn.Container.Engine.{Docker, Run, call, set_changed, assign_changed}

abbrev pub is_listed : String → List String → Bool
is_listed s names = any (λ t. t == s) names

-- The first image with the name among its tags.
unfoldable pub image_named : String → List ImageEntry → Option ImageEntry
image_named name [] = none
image_named name (image ∷ rest) =
    if is_listed name image.repo_tags then some image else image_named name rest

unfoldable pub container_named : String → List ContainerEntry → Option ContainerEntry
container_named name [] = none
container_named name (container ∷ rest) =
    if is_listed name container.names then some container else container_named name rest

abbrev pub is_found : {A : Type 0} → Option A → Bool
is_found none = false
is_found (some a) = true

-- `image[0] if len(image) == 1 else None`
abbrev pub only_id : List String → Option String
only_id (id ∷ []) = some id
only_id _ = none

abbrev pub same_id : Option String → Option String → Bool
same_id none none = true
same_id (some a) (some b) = a == b
same_id _ _ = false

-- The loop over the statuses from the last to the first, which fails with the last error.
unfoldable pub last_error : List (Option String) → Option String
last_error [] = none
last_error (status ∷ rest) = elim (last_error rest) [ some e ↦ some e | none ↦ status ]

abbrev pub pull_failure : String → String → String → Exception
pull_failure image tag e =
    if ends_with "not found" e
    then module_failed ("The requested image does not exist: " & image & ":" & tag)
    else module_failed ("Unknown error message: " & e)

abbrev pub raise_some : {W : Type 0} → Option Exception → Exec W (Unit {0})
raise_some none = pure tt
raise_some (some e) = raise e

-- `try` with a handler of the engine's errors.
abbrev pub handle_api :
    {W : Type 0} → Result (Unit {0}) × W → (ℕ → String → Exec W (Unit {0})) → Result (Unit {0}) × W
handle_api (err (api_error status m), w) handler = handler status m w
handle_api x handler = x

module _ {W : Type 0} (docker : Docker W) (params : Params) where
  unfoldable pub check_image : Exec (Run W) (Option ImageEntry)
  unfolding image_named find_image
  check_image = do images ← call docker.images; pure (image_named (find_image params.image) images)

  unfoldable pub check_volume : Exec (Run W) Bool
  check_volume = do volumes ← call docker.volumes; pure (is_listed params.name volumes)

  unfoldable pub check_container : Exec (Run W) (Option ContainerEntry)
  unfolding container_named
  check_container = do
    containers ← call docker.containers
    pure (container_named ("/" & params.name) containers)

  abbrev pub inspect_found : Option ContainerEntry → Exec (Run W) (Option ContainerInfo)
  inspect_found none = pure none
  inspect_found (some container) = do
    info ← call (docker.inspect_container params.name)
    pure (some info)

  unfoldable pub get_container_info : Exec (Run W) (Option ContainerInfo)
  unfolding check_container
  get_container_info = check_container >>= inspect_found

  unfoldable pub get_image_id : Exec (Run W) (Option String)
  get_image_id = do ids ← call (docker.image_ids params.image); pure (only_id ids)

  abbrev pub login_if : Option String → Exec (Run W) (Unit {0})
  login_if none = pure tt
  login_if (some username) = run_if (not (is_blank username)) (call (docker.login params))

  abbrev pub failure_of : Option String → Option Exception
  failure_of none = none
  failure_of (some e) =
      some (pull_failure ((parse_image params.image).0) ((parse_image params.image).1) e)

  unfoldable pub pull_image : Exec (Run W) (Unit {0})
  unfolding get_image_id last_error parse_image
  pull_image = do
    login_if params.auth_username
    old_image_id ← get_image_id
    statuses ← call (docker.pull ((parse_image params.image).0) ((parse_image params.image).1))
    raise_some (failure_of (last_error statuses))
    new_image_id ← get_image_id
    assign_changed (not (same_id old_image_id new_image_id))

  unfoldable pub ensure_image : Exec (Run W) (Unit {0})
  unfolding check_image pull_image
  ensure_image = do image ← check_image; run_if (not (is_found image)) pull_image

  -- The volume that is looked for has the container's name, whatever volume is created.
  unfoldable pub create_volume : String → Exec (Run W) (Unit {0})
  unfolding check_volume
  create_volume volume_name = do
    found ← check_volume
    if found then pure tt else (do set_changed; call (docker.create_volume volume_name))

  abbrev pub source_of : List String → String
  source_of [] = ""
  source_of (source ∷ rest) = source

  unfoldable pub create_container_volumes : List String → Exec (Run W) (Unit {0})
  unfolding create_volume split_all has_char
  create_container_volumes [] = pure tt
  create_container_volumes (volume ∷ rest) = do
    let source = source_of (split_all 58 volume)
    run_if (not (has_char 47 source))
        (create_volume (if is_blank source then params.name else source))
    create_container_volumes rest

  unfoldable pub remove_volume : Exec (Run W) (Unit {0})
  unfolding check_volume
  remove_volume = do
    found ← check_volume
    if found
        then (do
          set_changed
          λ r. handle_api (call (docker.remove_volume params.name) r) (λ status m.
              if nat_eq status 409
              then raise (module_failed ("Volume named '" & params.name & "' is currently in-use"))
              else raise (api_error status m)))
        else pure tt

  unfoldable pub remove_image : Exec (Run W) (Unit {0})
  unfolding check_image
  remove_image = do
    image ← check_image
    if is_found image
        then (do
          set_changed
          λ r. handle_api (call (docker.remove_image params.image) r) (λ status m.
              if nat_eq status 409
              then raise (module_failed ("Image '" & params.image & "' is currently in-use"))
              else if nat_eq status 500
              then raise (module_failed "Server error")
              else raise (api_error status m)))
        else pure tt
