-- ===== src/Cli/Publish.antt =====
-- `publish_images` of tools/powerops_cli.py, over a runner of commands, which may raise and change
-- the world. The images are texts, and a service without one has the empty text.
pub mod Confirmed
use Prim.Native.Char.{code}
use irnmn.Prelude.{
  String, Bool, true, false, not, ◌&&◌, ◌==◌, is_blank, nat_eq, List, [], ◌∷◌, map, all, is_empty,
  ◌&◌, Option, none, some, if◌then◌else◌,
}
use irnmn.Text.{contains}
use irnmn.Values.{text_or, Dict, get}
use irnmn.Effect.{Result, ok, err, Exec, pure, raise_if, lift, value_error, ◌>>=◌, ◌>>◌}

-- `IMAGE_SERVICES`
abbrev pub image_services : List String
image_services = "mistral-api" ∷ "mistral-engine" ∷ "mistral-executor" ∷ "masakari-engine" ∷ []

abbrev pub image_of : Dict → String → String
image_of images service = text_or (get service images) ""

unfoldable pub missing_image : Dict → Dict → List String → Result (Unit {0})
missing_image base derived [] = ok tt
missing_image base derived (service ∷ rest) =
    let later = missing_image base derived rest in
    if is_blank (image_of base service)
    then err (value_error ("missing base image for " & service))
    else if is_blank (image_of derived service)
    then err (value_error ("missing derived image for " & service))
    else later

abbrev pub bad_mappings : Result Dict
bad_mappings = err (value_error "powerops_base_images and powerops_derived_images must be mappings")

abbrev pub checked : Result (Unit {0}) → Dict → Result Dict
checked (ok _) derived = ok derived
checked (err e) derived = err e

-- The derived images of `_image_mappings`; a value that is no mapping is `none`.
unfoldable pub image_mappings : Option Dict → Option Dict → Result Dict
unfolding missing_image
image_mappings (some base) (some derived) =
    checked (missing_image base derived image_services) derived
image_mappings _ _ = bad_mappings

-- `image.split("/", 1)[0]`
unfoldable pub until_slash : String → String
until_slash String.[] = ""
until_slash (String.◌∷◌ c s) =
    let rest = until_slash s in if nat_eq (code c) 47 then "" else String.◌∷◌ c rest

unfoldable pub registry_host : String → Result String
unfolding until_slash
registry_host image =
    if not (contains "/" image)
    then err (value_error "derived image must include an explicit registry host")
    else ok (until_slash image)

abbrev pub host_first : Result String → Result (List String) → Result (List String)
host_first (ok h) (ok hs) = ok (h ∷ hs)
host_first (ok h) (err e) = err e
host_first (err e) _ = err e

-- `{_registry_host(image) for image in images}`
unfoldable pub registries : List String → Result (List String)
unfolding registry_host
registries [] = ok []
registries (image ∷ rest) = host_first (registry_host image) (registries rest)

-- `registries == {confirm_registry}`
abbrev pub is_confirmed : String → List String → Bool
is_confirmed confirm hosts = not (is_empty hosts) && all (λ h. h == confirm) hosts

module _ {W : Type 0} (run : List String → Exec W (Unit {0})) where
  unfoldable pub run_each : (String → List String) → List String → Exec W (Unit {0})
  run_each command [] = pure tt
  run_each command (image ∷ rest) = do run (command image); run_each command rest

  -- From the comparison of the registries on.
  unfoldable pub publish_confirmed :
      String → String → List String → List String → Exec W (List String)
  unfolding run_each
  publish_confirmed engine confirm_registry images hosts = do
    raise_if (not (is_confirmed confirm_registry hosts))
        (value_error "registry confirmation does not match derived image registry")
    run_each (λ image. engine ∷ "image" ∷ "inspect" ∷ image ∷ []) images
    run_each (λ image. engine ∷ "push" ∷ image ∷ []) images
    pure images

  unfoldable pub publish_images : Option Dict → Option Dict → String → String → Exec W (List String)
  unfolding image_mappings registries publish_confirmed
  publish_images base derived engine confirm_registry = do
    found ← lift (image_mappings base derived)
    let images = map (image_of found) image_services
    hosts ← lift (registries images)
    publish_confirmed engine confirm_registry images hosts
