-- ===== src/Cli/Publish/Confirmed.antt =====
-- No command is run for images of a registry that was not confirmed.
use irnmn.Prelude.{
  String, ◌≡◌, refl, ◌∙◌, Bool, false, ◌&&◌, ◌==◌, List, [], ◌∷◌, map, all, Bool-cases, inl, inr,
  some,
}
use irnmn.Text.{contains}
use irnmn.Values.{Dict}
use irnmn.Effect.{Result, ok, err, Exec, continue, lift, ◌>>=◌}
use irnmn.Effect.Post.{FailsAt, Gives}
use irnmn.Cli.Publish.{
  image_services, image_of, missing_image, checked, publish_confirmed, until_slash, registry_host,
  host_first, registries, publish_images,
}

-- The image names its registry, which is the one confirmed.
unfoldable pub is_at : String → String → Bool
unfolding until_slash
is_at confirm image = contains "/" image && until_slash image == confirm

first-Gives :
    (confirm : String) (image : String) (rest : List String) (r : Result (List String))
    → Gives (λ hosts. all (λ h. h == confirm) hosts ≡ all (is_at confirm) rest) r
    → Gives
        (λ hosts. all (λ h. h == confirm) hosts ≡ all (is_at confirm) (image ∷ rest))
        (host_first (registry_host image) r)
unfolding registry_host is_at
first-Gives confirm image rest (ok hosts) later = elim (Bool-cases (contains "/" image)) [
  | inl named ↦ rw (named, later) refl
  | inr bare ↦ rw bare tt
]
first-Gives confirm image rest (err e) later = elim (Bool-cases (contains "/" image)) [
  | inl named ↦ rw named tt
  | inr bare ↦ rw bare tt
]

registries-Gives :
    (confirm : String) (images : List String)
    → Gives
        (λ hosts. all (λ h. h == confirm) hosts ≡ all (is_at confirm) images)
        (registries images)
unfolding registries
registries-Gives confirm [] = refl
registries-Gives confirm (image ∷ rest) =
    first-Gives confirm image rest (registries rest) (registries-Gives confirm rest)

module _ {W : Type 0} (run : List String → Exec W (Unit {0})) (engine confirm : String) where
  confirmed-FailsAt :
      (images : List String) (r : Result (List String)) (w : W)
      → all (is_at confirm) images ≡ false
      → Gives (λ hosts. all (λ h. h == confirm) hosts ≡ all (is_at confirm) images) r
      → FailsAt w (continue r (publish_confirmed run engine confirm images) w)
  unfolding publish_confirmed
  confirmed-FailsAt images (ok []) w other same = refl
  confirmed-FailsAt images (ok (h ∷ hs)) w other same =
      let refused : (h == confirm && all (λ h. h == confirm) hs) ≡ false = same ∙ other in
      rw refused refl
  confirmed-FailsAt images (err e) w other same = refl

-- Where an image has no registry, or one other than the confirmed one, the call raises before any
-- command is run.
pub publish_images-Confirmed :
    {W : Type 0} (run : List String → Exec W (Unit {0})) (base derived : Dict)
    (engine confirm : String) (w : W)
    → all (is_at confirm) (map (image_of derived) image_services) ≡ false
    → FailsAt w (publish_images run (some base) (some derived) engine confirm w)
unfolding publish_images
publish_images-Confirmed run base derived engine confirm w other =
    go (missing_image base derived image_services)
  where
    go :
        (r : Result (Unit {0}))
        → FailsAt w (
            continue
              (checked r derived)
              (λ found.
                lift (registries (map (image_of found) image_services))
                >>= publish_confirmed run engine confirm (map (image_of found) image_services))
              w)
    go (ok _) =
        confirmed-FailsAt run engine confirm (map (image_of derived) image_services)
          (registries (map (image_of derived) image_services)) w other
          (registries-Gives confirm (map (image_of derived) image_services))
    go (err e) = refl
