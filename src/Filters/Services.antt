-- ===== src/Filters/Services.antt =====
-- kolla_ansible/filters.py. Jinja's `bool` filter, which `_call_bool_filter` calls, is a parameter.
pub mod Selected
use irnmn.Prelude.{
  String, Bool, true, false, not, ◌&&◌, ◌||◌, ◌==◌, List, [], ◌∷◌, ◌++◌, any, ◌&◌, if◌then◌else◌,
}
use irnmn.Values.{Value, null, text, boolean, value_eq}
use irnmn.Effect.{Result, ok, err, filter_error}

-- A service definition; `label` is its container name, or `<unknown>`, and `haproxy` is empty where
-- the definition has none.
pub record Service (H : Type 0) : Type 0 where
  pub label : String
  pub enabled : Value
  pub haproxy : List (String × H)
  pub host_in_groups : Value
  pub group : Value

-- `not set(haproxy).isdisjoint(set(service_haproxy))`
unfoldable pub share_name : {H : Type 0} → List (String × H) → List (String × H) → Bool
share_name found [] = false
share_name found (entry ∷ rest) = any (λ f. f.0 == entry.0) found || share_name found rest

abbrev pub mapped_by_group : List String → String → Value → Result Bool
mapped_by_group group_names label null = err (
    filter_error (
      "Service definition for '" & label
      & "' does not have a 'group' or 'host_in_groups' attribute"))
mapped_by_group group_names label group =
    ok (any (λ g. value_eq group (text g)) group_names || value_eq group (text "all"))

-- `a and b`
abbrev pub and_then : Result Bool → Result Bool → Result Bool
and_then (err e) b = err e
and_then (ok false) b = ok false
and_then (ok true) b = b

module _ {H : Type 0} where
  -- One service of the loop, by whether it is enabled, and the services after it.
  abbrev pub add_haproxy :
      Result Bool
      → List (String × H)
      → List (String × H)
      → (List (String × H) → Result (List (String × H)))
      → Result (List (String × H))
  add_haproxy (err e) found entries later = err e
  add_haproxy (ok false) found entries later = later found
  add_haproxy (ok true) found entries later =
      if share_name found entries
      then err (filter_error "haproxy service names should be unique")
      else later (found ++ entries)

  abbrev pub keep_if :
      Result Bool → Service H → Result (List (Service H)) → Result (List (Service H))
  keep_if (err e) service later = err e
  keep_if (ok kept) service (err e) = err e
  keep_if (ok kept) service (ok services) = ok (if kept then service ∷ services else services)

module _ (call_bool_filter : Value → Result Bool) where
  abbrev pub bool_or : Value → String → Result Bool
  bool_or null message = err (filter_error message)
  bool_or (text s) message = call_bool_filter (text s)
  bool_or (boolean b) message = call_bool_filter (boolean b)

module _ {H : Type 0} (call_bool_filter : Value → Result Bool) where
  unfoldable pub service_enabled : Service H → Result Bool
  service_enabled service =
      bool_or call_bool_filter service.enabled
        ("Service definition for '" & service.label & "' does not have an 'enabled' attribute")

  -- The loop, with the entries found so far; entries with new names are added at the end.
  unfoldable pub haproxy_from : List (String × H) → List (Service H) → Result (List (String × H))
  unfolding service_enabled share_name
  haproxy_from found [] = ok found
  haproxy_from found (service ∷ rest) =
      add_haproxy (service_enabled service) found service.haproxy (λ found. haproxy_from found rest)

  unfoldable pub extract_haproxy_services : List (Service H) → Result (List (String × H))
  unfolding haproxy_from
  extract_haproxy_services services = haproxy_from [] services

  abbrev pub mapped_by : List String → Service H → Value → Result Bool
  mapped_by group_names service null = mapped_by_group group_names service.label service.group
  mapped_by group_names service (text s) = call_bool_filter (text s)
  mapped_by group_names service (boolean b) = call_bool_filter (boolean b)

  unfoldable pub service_mapped_to_host : List String → Service H → Result Bool
  service_mapped_to_host group_names service = mapped_by group_names service service.host_in_groups

  unfoldable pub service_enabled_and_mapped_to_host : List String → Service H → Result Bool
  unfolding service_enabled service_mapped_to_host
  service_enabled_and_mapped_to_host group_names service =
      and_then (service_enabled service) (service_mapped_to_host group_names service)

  -- The services in their order; the caller keeps their names.
  unfoldable pub select_services : List String → List (Service H) → Result (List (Service H))
  unfolding service_enabled_and_mapped_to_host
  select_services group_names [] = ok []
  select_services group_names (service ∷ rest) =
      keep_if (service_enabled_and_mapped_to_host group_names service) service
        (select_services group_names rest)
