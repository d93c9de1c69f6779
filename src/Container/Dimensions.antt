-- ===== src/Container/Dimensions.antt =====
-- `compare_dimensions`, `dimensions_differ` and `compare_ulimits` of kolla_container_worker.py, with
-- the changes that kolla_docker_worker.py makes to them.
pub mod Ulimits
use Prim.Native.Char.{Char, code}
use Prim.Native.String.{String}
use irnmn.Prelude.{
  ℕ, ◌*◌, Bool, true, false, not, ◌||◌, ◌==◌, is_blank, is_empty, nat_eq, any, List, [], ◌∷◌,
  select, ◌&◌, Option, none, some, if◌then◌else◌,
}
use irnmn.Text.Numbers.{show, parse, is_digit}
use irnmn.Effect.{Result, ok, err, external, value_error, module_failed}
use irnmn.Container.Params.{Dimension, no_value, number, written, Ulimit}
use irnmn.Container.Dimensions.Ulimits.{compare_ulimits}

-- `dimension_map` of the Docker worker, without its last entry, `ulimits`.
abbrev pub dimension_map : List (String × String)
dimension_map =
    ("mem_limit", "Memory")
    ∷ ("mem_reservation", "MemoryReservation")
    ∷ ("memswap_limit", "MemorySwap")
    ∷ ("cpu_period", "CpuPeriod")
    ∷ ("cpu_quota", "CpuQuota")
    ∷ ("cpu_shares", "CpuShares")
    ∷ ("cpuset_cpus", "CpusetCpus")
    ∷ ("cpuset_mems", "CpusetMems")
    ∷ ("blkio_weight", "BlkioWeight")
    ∷ []

-- `dimensions.get(key)`, and whether the key is there.
unfoldable pub find_dimension : String → List (String × Dimension) → Option Dimension
find_dimension key [] = none
find_dimension key ((k, d) ∷ rest) = if k == key then some d else find_dimension key rest

abbrev pub or_no_value : Option Dimension → Dimension
or_no_value none = no_value
or_no_value (some d) = d

abbrev pub is_set : Dimension → Bool
is_set no_value = false
is_set (number n) = not (nat_eq n 0)
is_set (written s) = not (is_blank s)

-- `str(value or "")`
unfoldable pub text_or_blank : Dimension → String
unfolding show
text_or_blank no_value = ""
text_or_blank (number n) = if nat_eq n 0 then "" else show n
text_or_blank (written s) = s

-- `s[:-1]` and `s[-1]`
abbrev push_first : Char → Option (String × Char) → String × Char
push_first c none = ("", c)
push_first c (some (start, last)) = (String.◌∷◌ c start, last)

unfoldable pub split_end : String → Option (String × Char)
split_end String.[] = none
split_end (String.◌∷◌ c s) = some (push_first c (split_end s))

-- `unit_sizes`, in either case
abbrev pub unit_size : ℕ → Option ℕ
unit_size c =
    if nat_eq c 98 || nat_eq c 66
    then some 1
    else if nat_eq c 107 || nat_eq c 75
    then some 1024
    else if nat_eq c 109 || nat_eq c 77
    then some 1048576
    else if nat_eq c 103 || nat_eq c 71
    then some 1073741824
    else none

abbrev pub times_unit : ℕ → Option ℕ → Result String
times_unit size none = err (value_error "invalid literal for int() with base 10")
times_unit size (some n) = ok (show (n * size))

abbrev pub in_unit : String → String → Option ℕ → Result String
in_unit whole start none =
    err (
      module_failed
        ("The docker dimension unit is not supported for the dimension [" & whole & "]"))
in_unit whole start (some size) = times_unit size (parse start)

abbrev pub in_bytes : String → Option (String × Char) → Result String
in_bytes whole none = err (external "string index out of range")
in_bytes whole (some (start, last)) =
    if is_digit last then ok whole else in_unit whole start (unit_size (code last))

-- The text that is compared, in which a unit is multiplied out.
unfoldable pub normalized : String → Result String
unfolding show parse split_end
normalized s = in_bytes s (split_end s)

abbrev pub differ_from : Result String → Result String → Result Bool
differ_from (err e) b = err e
differ_from (ok a) (err e) = err e
differ_from (ok a) (ok b) = ok (not (a == b))

abbrev pub is_cpuset : String → Bool
is_cpuset key = key == "cpuset_cpus" || key == "cpuset_mems"

abbrev pub no_longer_supported : String → Result Bool
no_longer_supported key =
    err (module_failed ("The dimension [" & key & "] is no more supported by Docker"))

-- The base class's method, on values that are texts already.
unfoldable pub quantities_differ : String → Dimension → Dimension → Result Bool
unfolding normalized text_or_blank
quantities_differ key no_value b = no_longer_supported key
quantities_differ key a no_value = no_longer_supported key
quantities_differ key (number a) (number b) =
    differ_from (normalized (show a)) (normalized (show b))
quantities_differ key (number a) (written b) = differ_from (normalized (show a)) (normalized b)
quantities_differ key (written a) (number b) = differ_from (normalized a) (normalized (show b))
quantities_differ key (written a) (written b) = differ_from (normalized a) (normalized b)

unfoldable pub dimensions_differ : String → Dimension → Dimension → Result Bool
unfolding quantities_differ text_or_blank
dimensions_differ key a b =
    if is_cpuset key
    then ok (not (text_or_blank a == text_or_blank b))
    else quantities_differ key a b

-- One entry of the map: a dimension that was asked for, or the default.
abbrev pub entry_differs : String → Option Dimension → Dimension → Result Bool
entry_differs key none current = ok (is_set current)
entry_differs key (some asked) current = dimensions_differ key asked current

abbrev pub or_result : Result Bool → Result Bool → Result Bool
or_result (err e) later = err e
or_result (ok true) later = ok true
or_result (ok false) later = later

unfoldable pub entries_differ :
    List (String × String) → List (String × Dimension) → List (String × Dimension) → Result Bool
unfolding dimensions_differ find_dimension
entries_differ [] asked current = ok false
entries_differ ((key, name) ∷ rest) asked current =
    or_result
      (entry_differs key (find_dimension key asked) (or_no_value (find_dimension name current)))
      (entries_differ rest asked current)

abbrev pub ulimits_differ : Option (List Ulimit) → List Ulimit → Bool
ulimits_differ none current = not (is_empty current)
ulimits_differ (some asked) current = compare_ulimits asked current

abbrev pub is_supported : List (String × String) → String → Bool
is_supported map key = any (λ entry. entry.0 == key) map

unfoldable pub compare_dimensions :
    List (String × Dimension)
    → Option (List Ulimit)
    → List (String × Dimension)
    → List Ulimit
    → Result Bool
unfolding entries_differ compare_ulimits
compare_dimensions asked asked_ulimits current current_ulimits =
    let unsupported = select (λ entry. not (is_supported dimension_map entry.0)) asked in
    if not (is_empty unsupported)
    then err (module_failed "Unsupported dimensions")
    else or_result (entries_differ dimension_map asked current)
        (ok (ulimits_differ asked_ulimits current_ulimits))
