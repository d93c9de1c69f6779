-- ===== src/Container/Compare.antt =====
-- The comparisons of kolla_container_worker.py that neither call the engine nor raise.
pub mod Sets
pub mod Parsing
use irnmn.Prelude.{
  String, Bool, true, false, not, ◌&&◌, ◌||◌, ◌==◌, differ, is_blank, length, nat_eq, any, all,
  List, [], ◌∷◌, map, ◌&◌, Option, none, some, if◌then◌else◌,
}
use irnmn.Values.{Value, text, value_eq}
use irnmn.Container.Params.{Params, ContainerInfo}
use irnmn.Container.Volumes.{Bind, Volumes, generate_tmpfs}

-- `item in items`
abbrev pub member : String → List String → Bool
member s items = any (λ t. t == s) items

-- `set(xs).symmetric_difference(set(ys))` is not empty.
unfoldable pub sets_differ : List String → List String → Bool
sets_differ xs ys = not (all (λ x. member x ys) xs && all (λ y. member y xs) ys)

abbrev pub is_option : Option String → String → Bool
is_option none s = false
is_option (some t) s = t == s

-- A text that is falsy reads as `None`.
abbrev pub same_option : Option String → String → Bool
same_option none current = is_blank current
same_option (some new) current = new == current && not (is_blank current)

-- Only compared if it is specified.
unfoldable pub compare_ipc_mode : Params → ContainerInfo → Bool
compare_ipc_mode params info = elim params.ipc_mode [
  | none ↦ false
  | some mode ↦ not (same_option (some mode) info.ipc_mode)
]

unfoldable pub compare_pid_mode : Params → ContainerInfo → Bool
compare_pid_mode params info = not (same_option params.pid_mode info.pid_mode)

unfoldable pub compare_cap_add : Params → ContainerInfo → Bool
unfolding sets_differ
compare_cap_add params info = sets_differ params.cap_add info.cap_add

-- In the host's name spaces, or with all privileges, the options have no effect.
abbrev pub is_unconfined : Params → Bool
is_unconfined params =
    is_option params.ipc_mode "host" || is_option params.pid_mode "host" || params.privileged

unfoldable pub compare_security_opt : Params → ContainerInfo → Bool
unfolding sets_differ
compare_security_opt params info =
    if is_unconfined params then false else sets_differ params.security_opt info.security_opt

-- A container without the entry behaves as on the host.
abbrev pub current_cgroupns_mode : ContainerInfo → String
current_cgroupns_mode info = if is_blank info.cgroupns_mode then "host" else info.cgroupns_mode

unfoldable pub compare_cgroupns_mode : Params → ContainerInfo → Bool
compare_cgroupns_mode params info = elim params.cgroupns_mode [
  | none ↦ false
  | some mode ↦ not (mode == current_cgroupns_mode info)
]

unfoldable pub compare_privileged : Params → ContainerInfo → Bool
compare_privileged params info = differ params.privileged info.privileged

unfoldable pub compare_tmpfs : Params → ContainerInfo → Bool
unfolding sets_differ
compare_tmpfs params info = sets_differ info.tmpfs (generate_tmpfs params.tmpfs)

unfoldable pub compare_volumes_from : Params → ContainerInfo → Bool
unfolding sets_differ
compare_volumes_from params info = sets_differ info.volumes_from params.volumes_from

abbrev pub bind_text : String × Bind → String
bind_text (source, b) = source & ":" & b.bind & ":" & b.mode

-- By the volumes that `generate_volumes` gives.
unfoldable pub volumes_differ : Volumes → ContainerInfo → Bool
unfolding sets_differ
volumes_differ volumes info =
    sets_differ volumes.vol_list info.volumes
    || sets_differ (map bind_text volumes.vol_dict) info.binds

unfoldable pub compare_container_state : Params → ContainerInfo → Bool
compare_container_state params info =
    if params.state == "started" && info.status == "running"
    then false
    else not (params.state == info.status)
