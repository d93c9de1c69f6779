-- ===== src/Container/Docker/Differs/Image.antt =====
-- The comparison with the image that the engine lists.
use irnmn.Prelude.{String, ◌≡◌, refl, true, false, eq_iff, List, Option, none, some, arith}
use irnmn.Effect.{ok}
use irnmn.Effect.Post.{Returns, Returns-follow, Returns-bind}
use irnmn.Container.Params.{Params, ContainerInfo, ImageEntry}
use irnmn.Container.Engine.{Docker, Run}
use irnmn.Container.Docker.Images.{check_image}
use irnmn.Container.Docker.Differs.{image_differs, compare_image}
use irnmn.Container.Image.{find_image}
use irnmn.Container.Engine.{call}
use irnmn.Container.Docker.Images.{image_named}
use irnmn.Container.Docker.Differs.{same_pair}
use irnmn.Container.Differs.NoOnlyIf.{NoOnlyAt}

-- In the state of the run, the engine lists an image by the declared name, which is the container's: its id, and the
-- repository and tag of both names.
pub record HasImage {W : Type 0} (docker : Docker W) (params : Params) (info : ContainerInfo)
    (r : Run W) : Type 0 where
  pub images : List ImageEntry
  pub listed : (docker.images r.world).0 ≡ ok images
  pub image : ImageEntry
  pub named : image_named (find_image params.image) images ≡ some image
  pub same_id : image.id ≡ info.image_id
  pub same_name :
      docker.parse_repository_tag info.config_image ≡ docker.parse_repository_tag params.image

pair_same : (x y : String × String) → same_pair x y ≡ true → x ≡ y
pair_same (a, b) (c, d) h =
    let first = (eq_iff a c).0 (ground (arith, h)) in
    let second = (eq_iff b d).0 (ground (arith, h)) in λ i. (first i, second i)

module _ {W : Type 0} (docker : Docker W) (params : Params) (info : ContainerInfo) where
  -- The image that `check_image` has found in the state.
  abbrev pub Checked : Run W → Option ImageEntry → Type 0
  Checked r none = Unit
  Checked r (some image) =
      (images : List ImageEntry) × ((docker.images r.world).0 ≡ ok images)
      × (image_named (find_image params.image) images ≡ some image)

  image-Checked : (r : Run W) → Returns (λ found _. Checked r found) (check_image docker params r)
  unfolding check_image
  image-Checked r = Returns-bind _ _ (call docker.images) r (λ images r' listed.
      go images (λ i. (listed i).0) (image_named (find_image params.image) images) refl)
    where
      go :
          (images : List ImageEntry)
          → (docker.images r.world).0 ≡ ok images
          → (found : Option ImageEntry) → image_named (find_image params.image) images ≡ found
          → Checked r found
      go images listed none e = tt
      go images listed (some image) e = (images, listed, e)

  image-same :
      (r : Run W) (found : Option ImageEntry)
      → Checked r found
      → image_differs docker params found info ≡ false
      → HasImage docker params info r
  image-same r none checked h = absurd (ground (arith, h))
  image-same r (some image) (images, listed, named) h = record {
    images = images;
    listed = listed;
    image = image;
    named = named;
    same_id = (eq_iff image.id info.image_id).0 (ground (arith, h));
    same_name = pair_same _ _ (ground (arith, h));
  }

  pub compare_image-NoOnlyAt :
      (r : Run W) → NoOnlyAt r (HasImage docker params info r) (compare_image docker params info)
  unfolding compare_image
  compare_image-NoOnlyAt r = record {
    at_it =
        Returns-follow _ _ (check_image docker params r) (image-Checked r)
          (λ found _ checked. image-same r found checked);
  }
