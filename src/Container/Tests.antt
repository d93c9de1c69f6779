-- ===== src/Container/Tests.antt =====
-- Runs of the workers on a host, and the properties at these runs.
mod Host
mod Podman
use irnmn.Prelude.{
  ℕ, suc, ◌&◌, String, ◌≡◌, refl, ◌↔◌, true, false, ◌==◌, eq_refl, if◌then◌else◌, List, [], ◌∷◌,
  Option, none, some,
}
use irnmn.Values.{text, get}
use irnmn.Effect.{Exception, Result, ok, err, module_failed}
use irnmn.Effect.Post.{Returns}
use irnmn.Container.Params.{Params, ImageEntry, ContainerEntry}
use irnmn.Text.Split.{has_char, split_first}
use irnmn.Container.Image.{find_image, image_part}
use irnmn.Container.Systemd.{
  UnitEntry, Method, start_unit, restart_unit, stop_unit, reload_unit, enable_unit_files,
  SystemdHost, ContainerUnit, wait_loop, create_unit_file, remove_unit_file,
}
use irnmn.Container.Systemd.UnitFile.{KeepsFiles, is_some, unit_file-again}
use irnmn.Container.Systemd.Waits.{Answers, SeenIn, wait_loop-ends}
use irnmn.Container.Compare.{sets_differ}
use irnmn.Container.Compare.Sets.{SameMembers, sets_differ_iff}
use irnmn.Container.Engine.{Docker, Run}
use irnmn.Container.Docker.Images.{
  check_image, check_container, pull_image, create_container_volumes,
}
use irnmn.Container.Docker.Differs.{check_container_differs}
use irnmn.Container.Docker.Differs.Matches.{Matches}
use irnmn.Container.Docker.{start_container, recreate_or_restart_container}
use irnmn.Container.Docker.Started.{IsStarted, start_container-IsStarted}
use irnmn.Container.Docker.Ordered.{recreate_or_restart_container-keeps}
use irnmn.Container.Module.{no_arg, text_arg, number_arg, get_arg, as_number, merge_args}
use irnmn.Container.Module.Effective.{merge_args-effective}
use irnmn.Container.Tests.Host.{
  Machine, unit, host, keeps, machine, params, inspected, wrote, docker, run_on, empty_machine,
}

unit_file-again_example :
    Returns
      (λ _ m. create_unit_file host unit m ≡ (ok false, m))
      (create_unit_file host unit machine)
    × Returns
        (λ _ m. remove_unit_file host unit m ≡ (ok false, m))
        (remove_unit_file host unit machine)
unit_file-again_example = unit_file-again host keeps unit machine

wait_loop-ends_example :
    Returns (Answers (SeenIn host unit "running")) (wait_loop host unit 4 12 "running" 0 machine)
wait_loop-ends_example = wait_loop-ends host unit 12 "running" machine

-- A container that matches is left alone, although its binds are listed in another order.
matching_kept : start_container docker params host unit (run_on machine) ≡ (ok tt, run_on machine)
unfolding start_container
matching_kept = refl

-- A machine whose image is gone, as after an update of the tag.
abbrev without_image : Run Machine
without_image = run_on (record machine { images = [] })

abbrev pull_refused : Exception
pull_refused = module_failed "The requested image does not exist: registry:4000/nova-api:2025.1"

recreate_or_restart_container-keeps_example :
    recreate_or_restart_container docker params host unit without_image
    ≡ (err pull_refused, record without_image { changed = true })
unfolding check_container check_container_differs check_image pull_image get
recreate_or_restart_container-keeps_example =
    recreate_or_restart_container-keeps docker params host unit without_image
      (record without_image { changed = true }) (record without_image { changed = true })
      (record without_image { changed = true }) (record without_image { changed = true })
      (record { names = "/nova_api" ∷ []; status = "Up 2 hours" }) pull_refused refl refl refl refl

-- A container that is not there is created, and its unit is written and started.
absent_created : (start_container docker params host unit (run_on empty_machine)).0 ≡ ok tt
unfolding start_container
absent_created = refl

-- An argument that the task leaves out, with a common option that is a text of digits.
merge_args-effective_example :
    get_arg "client_timeout" (
      merge_args
        (("name", text_arg "nova_api") ∷ ("client_timeout", no_arg) ∷ [])
        (("client_timeout", text_arg "300") ∷ []))
    ≡ some (number_arg 300)
unfolding as_number get_arg
merge_args-effective_example =
    merge_args-effective "client_timeout" no_arg (("name", text_arg "nova_api") ∷ []) []
      (("client_timeout", text_arg "300") ∷ []) refl refl
