-- ===== src/Container/Podman/Compare.antt =====
-- The comparisons of kolla_podman_worker.py that do not call the engine.
use text.Mathlib.Text.{starts_with}
use irnmn.Prelude.{
  String, Bool, true, false, not, ◌&&◌, ◌||◌, ◌==◌, ◌++◌, is_blank, nat_eq, any, all, select, map,
  List, [], ◌∷◌, ◌&◌, Option, none, some, if◌then◌else◌,
}
use irnmn.Text.{upper, ends_with}
use irnmn.Text.Split.{split_all, split_last}
use irnmn.Effect.{Result, ok, err, key_error, module_failed}
use irnmn.Container.Params.{Params, ContainerInfo, Dimension, no_value, number, written, Ulimit}
use irnmn.Container.Volumes.{Bind, Volumes, generate_volumes}
use irnmn.Container.Compare.{member, sets_differ, same_option}
use irnmn.Container.Dimensions.{find_dimension, or_no_value, is_set, or_result, is_supported}
use irnmn.Container.Dimensions.Ulimits.{compare_ulimits}
use irnmn.Container.Podman.Args.{is_default_ulimit}

abbrev pub prefixed : String → String → String
prefixed prefix name = if starts_with name prefix then name else prefix & name

-- The name of a capability, in capitals and with its prefix.
abbrev pub cap_name : String → String
cap_name cap = prefixed "CAP_" (upper cap)

abbrev pub audit_write : String
audit_write = "CAP_AUDIT_WRITE"

abbrev pub with_audit_write : Bool → List String → List String
with_audit_write true caps = caps
with_audit_write false caps = if member audit_write caps then caps else caps ++ (audit_write ∷ [])

unfoldable pub compare_cap_add : Params → ContainerInfo → Bool
unfolding sets_differ upper
compare_cap_add params info =
    sets_differ (with_audit_write info.privileged (map cap_name params.cap_add))
      (with_audit_write info.privileged (map upper info.cap_add))

abbrev pub is_none : Option String → Bool
is_none none = true
is_none (some s) = false

unfoldable pub compare_pid_mode : Params → ContainerInfo → Bool
compare_pid_mode params info =
    if is_none params.pid_mode && info.pid_mode == "private"
    then false
    else not (same_option params.pid_mode info.pid_mode)

-- `tag.rsplit('/', 1)[-1]`
abbrev pub after_last : String → Option (String × String) → String
after_last tag none = tag
after_last tag (some (before, after)) = after

unfoldable pub parse_tag : String → String
unfolding split_last
parse_tag tag = after_last tag (split_last 47 tag)

abbrev pub check_slash : String → String
check_slash s = if is_blank s || ends_with "/" s then s else s & "/"

abbrev pub default_flags : List String
default_flags = "rprivate" ∷ "nosuid" ∷ "nodev" ∷ "rbind" ∷ []

abbrev pub special_paths_noexec : List String
special_paths_noexec = "/proc" ∷ "/run" ∷ "/sys" ∷ "/var/run" ∷ []

-- A flag that Podman adds by itself to a mount at the path.
abbrev pub is_added : String → String → Bool
is_added path flag =
    member flag default_flags || (flag == "noexec" && any (starts_with path) special_paths_noexec)

abbrev pub with_access : List String → List String
with_access flags = if member "ro" flags || member "rw" flags then flags else flags ++ ("rw" ∷ [])

-- The flags of a mode, as the members of a list.
unfoldable pub normalize_mode : String → String → List String
unfolding split_all
normalize_mode path mode =
    with_access
      (select (λ flag. not (is_added path flag)) (if is_blank mode then [] else split_all 44 mode))

-- Source, target and flags of a bind.
pub record BindFlags : Type 0 where
  pub source : String
  pub target : String
  pub flags : List String

abbrev pub bind_flags : String × Bind → BindFlags
bind_flags (source, bind) = record {
  source = check_slash source;
  target = check_slash bind.bind;
  flags = normalize_mode (check_slash bind.bind) bind.mode;
}

unfoldable pub build_bind_list : List (String × Bind) → List BindFlags
unfolding normalize_mode
build_bind_list binds = map bind_flags binds

abbrev pub same_bind : BindFlags → BindFlags → Bool
same_bind a b = a.source == b.source && a.target == b.target && not (sets_differ a.flags b.flags)

-- The sets of binds differ.
unfoldable pub binds_differ : List BindFlags → List BindFlags → Bool
unfolding sets_differ
binds_differ xs ys = not (all (λ x. any (same_bind x) ys) xs && all (λ y. any (same_bind y) xs) ys)

abbrev pub slashed : List String → List String
slashed targets = map check_slash (select (λ v. not (is_blank v)) targets)

abbrev pub volumes_differ : Volumes → Volumes → Bool
volumes_differ asked current =
    sets_differ (slashed asked.vol_list) (slashed current.vol_list)
    || binds_differ (build_bind_list asked.vol_dict) (build_bind_list current.vol_dict)

abbrev pub both_volumes : Result Volumes → Result Volumes → Result Bool
both_volumes (err e) current = err e
both_volumes (ok asked) (err e) = err e
both_volumes (ok asked) (ok current) = ok (volumes_differ asked current)

unfoldable pub compare_volumes : Params → ContainerInfo → Result Bool
unfolding generate_volumes build_bind_list binds_differ
compare_volumes params info =
    both_volumes (generate_volumes params.volumes) (generate_volumes info.binds)

-- `a == b`
abbrev pub same_dimension : Dimension → Dimension → Bool
same_dimension no_value no_value = true
same_dimension (number m) (number n) = nat_eq m n
same_dimension (written s) (written t) = s == t
same_dimension _ _ = false

-- An entry that was asked for; another one must be reported, with the default.
abbrev pub entry_differs : String → Option Dimension → Option Dimension → Result Bool
entry_differs name (some asked) current = ok (not (same_dimension asked (or_no_value current)))
entry_differs name none none = err (key_error name)
entry_differs name none (some current) = ok (is_set current)

unfoldable pub entries_differ :
    List (String × String) → List (String × Dimension) → List (String × Dimension) → Result Bool
unfolding find_dimension
entries_differ [] asked current = ok false
entries_differ ((key, name) ∷ rest) asked current =
    or_result (entry_differs name (find_dimension key asked) (find_dimension name current))
      (entries_differ rest asked current)

unfoldable pub normalize_ulimit_name : String → String
unfolding upper
normalize_ulimit_name name = prefixed "RLIMIT_" (upper name)

abbrev pub normalize_ulimit : Ulimit → Ulimit
normalize_ulimit u = record u { name = normalize_ulimit_name u.name }

-- An entry of a dict of ulimits, by the name.
abbrev pub put_ulimit : Ulimit → List Ulimit → List Ulimit
put_ulimit u [] = u ∷ []
put_ulimit u (v ∷ rest) = if v.name == u.name then u ∷ rest else v ∷ put_ulimit u rest

unfoldable pub desired_ulimits : List Ulimit → List Ulimit → List Ulimit
unfolding normalize_ulimit_name
desired_ulimits found [] = found
desired_ulimits found (u ∷ rest) =
    desired_ulimits
      (if is_default_ulimit (normalize_ulimit_name u.name)
        then found
        else put_ulimit (normalize_ulimit u) found)
      rest

unfoldable pub current_ulimits : List Ulimit → List Ulimit
unfolding normalize_ulimit_name
current_ulimits ulimits =
    map normalize_ulimit (select (λ u. not (is_default_ulimit u.name)) ulimits)

abbrev pub or_no_ulimits : Option (List Ulimit) → List Ulimit
or_no_ulimits none = []
or_no_ulimits (some ulimits) = ulimits

-- `dimension_map`, without its last entry, `ulimits`.
abbrev pub podman_dimension_map : List (String × String)
podman_dimension_map =
    ("mem_limit", "Memory")
    ∷ ("mem_reservation", "MemoryReservation")
    ∷ ("memswap_limit", "MemorySwap")
    ∷ ("cpu_period", "CpuPeriod")
    ∷ ("cpu_quota", "CpuQuota")
    ∷ ("cpu_shares", "CpuShares")
    ∷ ("cpuset_cpus", "CpusetCpus")
    ∷ ("cpuset_mems", "CpusetMems")
    ∷ ("kernel_memory", "KernelMemory")
    ∷ ("blkio_weight", "BlkioWeight")
    ∷ []

unfoldable pub compare_dimensions : Params → ContainerInfo → Result Bool
unfolding entries_differ desired_ulimits current_ulimits compare_ulimits
compare_dimensions params info =
    if all (λ entry. is_supported podman_dimension_map entry.0) params.dimensions
    then or_result (entries_differ podman_dimension_map params.dimensions info.dimensions) (
        ok (
          compare_ulimits (desired_ulimits [] (or_no_ulimits params.ulimits))
            (current_ulimits info.ulimits)))
    else err (module_failed "Unsupported dimensions")
