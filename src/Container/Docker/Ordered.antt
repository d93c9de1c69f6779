-- ===== src/Container/Docker/Ordered.antt =====
-- The order of the actions of DockerWorker, and what holds after them.
use irnmn.Prelude.{
  String, ◌≡◌, refl, true, Bool-cases, inl, inr, List, [], ◌∷◌, is_blank, none, some, if◌then◌else◌,
}
use irnmn.Text.Split.{split_all, has_char}
use irnmn.Effect.{Exception, ok, err, pure}
use irnmn.Container.Params.{Params, ContainerEntry}
use irnmn.Container.Systemd.{SystemdHost, ContainerUnit}
use irnmn.Container.Engine.{Docker, Run, set_changed}
use irnmn.Container.Docker.Images.{
  is_listed, check_image, check_volume, check_container, pull_image, create_volume,
  create_container_volumes, source_of,
}
use irnmn.Container.Docker.Differs.{check_container_differs}
use irnmn.Container.Docker.{recreate, recreate_or_restart_container, is_strategy}

module _ {W : Type 0} (docker : Docker W) (params : Params) (host : SystemdHost W)
    (u : ContainerUnit) where
  recreate-fails :
      (r listed pulled : Run W) (e : Exception)
      → check_image docker params r ≡ (ok none, listed)
      → pull_image docker params listed ≡ (err e, pulled)
      → recreate docker params host u r ≡ (err e, pulled)
  unfolding recreate
  recreate-fails r listed pulled e missing refused = rw (missing, refused) refl

volume-kept :
    {W : Type 0} (docker : Docker W) (params : Params) (names : List String) (r : Run W)
    → docker.volumes r.world ≡ (ok names, r.world)
    → is_listed params.name names ≡ true
    → (name : String) → create_volume docker params name r ≡ (ok tt, r)
unfolding create_volume check_volume
volume-kept docker params names r lists there name = rw (lists, there) refl

-- The volume that is looked for has the container's name: where the engine lists one of that name,
-- no volume is created, whatever volumes the container declares.
create_container_volumes-listed :
    {W : Type 0} (docker : Docker W) (params : Params) (names : List String) (r : Run W)
    → docker.volumes r.world ≡ (ok names, r.world)
    → is_listed params.name names ≡ true
    → (volumes : List String) → create_container_volumes docker params volumes r ≡ (ok tt, r)
unfolding create_container_volumes
create_container_volumes-listed docker params names r lists there [] = refl
create_container_volumes-listed docker params names r lists there (volume ∷ rest) =
    let source = source_of docker params (split_all 58 volume) in
    let later = create_container_volumes-listed docker params names r lists there rest in
    elim (Bool-cases (has_char 47 source)) [
      | inl bound ↦ rw bound later
      | inr named ↦
          rw
            (
              named,
              volume-kept docker params names r lists there
                  (if is_blank source then params.name else source),
            )
            later
    ]

-- A running container is kept until its image is there: where the container must be created again,
-- the image is missing and pulling it raises, `recreate_or_restart_container` raises the same and
-- leaves the state that the pull left.
pub recreate_or_restart_container-keeps :
    {W : Type 0} (docker : Docker W) (params : Params) (host : SystemdHost W) (u : ContainerUnit)
    (r found differing looked pulled : Run W) (container : ContainerEntry) (e : Exception)
    → check_container docker params ((set_changed r).1) ≡ (ok (some container), found)
    → (if is_strategy docker params host u "COPY_ONCE"
          then pure true
          else check_container_differs docker params)
        found
      ≡ (ok true, differing)
    → check_image docker params differing ≡ (ok none, looked)
    → pull_image docker params looked ≡ (err e, pulled)
    → recreate_or_restart_container docker params host u r ≡ (err e, pulled)
unfolding recreate_or_restart_container
recreate_or_restart_container-keeps docker params host u r found differing looked pulled container e
      there differs missing refused =
    rw
      (
        there,
        differs,
        recreate-fails docker params host u differing looked pulled e missing refused,
      )
      refl
