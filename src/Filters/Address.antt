-- ===== src/Filters/Address.antt =====
-- kolla_ansible/kolla_address.py, put_address_in_context.py and kolla_url.py. The module ipaddress
-- and Jinja's `bool` filter are parameters.
pub mod Usable
use irnmn.Prelude.{
  ℕ, ◌/◌, ◌%◌, String, Bool, true, false, not, ◌&&◌, ◌||◌, ◌==◌, nat_eq, any, select, List, [], ◌∷◌,
  ◌&◌, Option, none, some, if◌then◌else◌,
}
use irnmn.Text.{lower, replace}
use irnmn.Text.Numbers.{show}
use irnmn.Text.Split.{has_char}
use irnmn.Values.{Value, null, text, value_eq, Dict, get}
use irnmn.Effect.{Result, ok, err, filter_error, value_error}

-- An address of an interface's list `ipv6`.
pub record Ipv6 : Type 0 where
  pub address : String
  pub scope : String

-- The facts of an interface: of `ipv4` the address, both levels where they are there.
pub record Interface : Type 0 where
  pub ipv4 : Option (Option String)
  pub ipv6 : Option (List Ipv6)

-- The variables of a host, and its facts on interfaces.
pub record Host : Type 0 where
  pub variables : Dict
  pub interfaces : List (String × Interface)

-- The variables of the Jinja context that are read, `none` where one is undefined.
pub record TemplateContext : Type 0 where
  pub inventory_hostname : Option String
  pub hostvars : Option (List (String × Host))

unfoldable pub lookup : {A : Type 0} → String → List (String × A) → Option A
lookup key [] = none
lookup key ((k, a) ∷ rest) = if k == key then some a else lookup key rest

infixl 5 ◌>>=◌
abbrev pub ◌>>=◌ : {A B : Type 0} → Result A → (A → Result B) → Result B
ok a >>= f = f a
err e >>= f = err e

-- A value that must be there.
abbrev pub need : {A : Type 0} → Option A → String → Result A
need none m = err (filter_error m)
need (some a) m = ok a

-- A variable that must be a text.
abbrev pub need_text : Value → String → Result String
need_text (text s) m = ok s
need_text v m = err (filter_error m)

abbrev pub first_address : List Ipv6 → Option String
first_address [] = none
first_address (found ∷ rest) = some found.address

module _ (format_address : Value → Option String) (call_bool_filter : Value → Result Bool) where
  -- The override of a host, if it is set, must be an address; `none` if there is none.
  abbrev pub override_address : Option String → Host → Result (Option String)
  override_address none host = ok none
  override_address (some name) host = elim (lookup name host.variables) [
    | none ↦ ok none
    | some value ↦ elim (format_address value) [
      | some address ↦ ok (some address)
      | none ↦ err (filter_error ("variable '" & name & "' is not a valid IPv4 or IPv6 address"))
    ]
  ]

  -- The virtual addresses, where HAProxy announces them.
  abbrev pub vip_addresses : Host → Bool → List Value
  vip_addresses host true =
      get "kolla_internal_vip_address" host.variables
      ∷ get "kolla_external_vip_address" host.variables
      ∷ []
  vip_addresses host false = []

  abbrev pub enable_haproxy : Host → Result Bool
  enable_haproxy host = elim (get "enable_haproxy" host.variables) [
    | null ↦ err (filter_error "'enable_haproxy' variable is unavailable")
    | value ↦ call_bool_filter value
  ]

  abbrev pub is_global : List Value → Ipv6 → Bool
  is_global vips found = found.scope == "global" && not (any (value_eq (text found.address)) vips)

  abbrev pub global_address : Host → List Ipv6 → Result (Option String)
  global_address host found = do
    haproxy_enabled ← enable_haproxy host
    ok (first_address (select (is_global (vip_addresses host haproxy_enabled)) found))

  abbrev pub address_of : Host → Interface → String → Result (Option String)
  address_of host interface family =
      if family == "ipv4"
      then need interface.ipv4 "Address family undefined on interface"
      else if family == "ipv6"
      then need interface.ipv6 "Address family undefined on interface" >>= global_address host
      else err (filter_error ("Unknown address family '" & family & "'"))

  -- The address of the network's interface.
  unfoldable pub interface_address : String → Host → Result String
  unfolding lookup lower replace get
  interface_address network_name host = do
    interface_name ←
        need_text (get (network_name & "_interface") host.variables)
          ("Interface name undefined for network '" & network_name & "'")
    family ←
        need_text (get (network_name & "_address_family") host.variables)
          ("Address family undefined for network '" & network_name & "'")
    if not (lower family == "ipv4" || lower family == "ipv6")
        then err (filter_error ("Unknown address family '" & lower family & "'"))
        else (do
          interface ←
              need (lookup (replace "-" "_" interface_name) host.interfaces)
                ("Interface '" & interface_name & "' not present")
          address ← address_of host interface (lower family)
          need address (lower family & " address missing on interface '" & interface_name & "'"))

  abbrev pub or_interface : String → Host → Option String → Result String
  or_interface network_name host none = interface_address network_name host
  or_interface network_name host (some address) = ok address

  abbrev pub host_named : TemplateContext → Option String → Result Host
  host_named context hostname = do
    name ← elim hostname [
      | some given ↦ ok given
      | none ↦ need context.inventory_hostname "'inventory_hostname' variable is unavailable"
    ]
    hosts ← need context.hostvars "'hostvars' variable is unavailable"
    need (lookup name hosts) ("'" & name & "' not in 'hostvars'")

  unfoldable pub kolla_address :
      TemplateContext → String → Option String → Option String → Result String
  unfolding interface_address lookup get
  kolla_address context network_name hostname override_var = do
    host ← host_named context hostname
    override ← override_address override_var host
    or_interface network_name host override

-- `ip_address`: a version 4 address, or the groups of a version 6 one.
pub data Ip : Type 0 where
  version4 : Ip
  version6 : List ℕ → Ip

abbrev pub hex_digit : ℕ → String
hex_digit d =
    if nat_eq d 10
    then "a"
    else if nat_eq d 11
    then "b"
    else if nat_eq d 12
    then "c"
    else if nat_eq d 13
    then "d"
    else if nat_eq d 14
    then "e"
    else if nat_eq d 15
    then "f"
    else show d

-- A digit, which is left out in front of the number.
abbrev pub add_digit : String → ℕ → String
add_digit front d = if front == "" && nat_eq d 0 then "" else front & hex_digit d

-- `"%x"` of a group, which has 16 bits
unfoldable pub hex : ℕ → String
unfolding show
hex n =
    add_digit (add_digit (add_digit "" (n / 4096)) (n / 256 % 16)) (n / 16 % 16)
    & hex_digit (n % 16)

abbrev pub erlang_groups : List ℕ → String
erlang_groups [] = ""
erlang_groups (n ∷ []) = "16#" & hex n
erlang_groups (n ∷ m ∷ rest) = "16#" & hex n & "," & erlang_groups (m ∷ rest)

abbrev pub erlang_address : String → Option Ip → Result String
erlang_address address none = err (value_error "not an IPv4 or IPv6 address")
erlang_address address (some version4) = ok (replace "." "," address)
erlang_address address (some (version6 groups)) = ok (erlang_groups groups)

module _ (ip_address : String → Option Ip) where
  unfoldable pub put_address_in_context : String → String → Result String
  unfolding hex replace has_char
  put_address_in_context address context =
      if not (context == "url" || context == "memcache" || context == "rabbitmq")
      then err (filter_error ("Unknown context '" & context & "'"))
      else if not (has_char 58 address) && not (context == "rabbitmq")
      then ok address
      else if context == "url"
      then ok ("[" & address & "]")
      else if context == "memcache"
      then ok ("inet6:[" & address & "]")
      else erlang_address address (ip_address address)

  -- The port is left out where it is the protocol's own.
  unfoldable pub kolla_url : String → String → ℕ → String → String → Result String
  unfolding put_address_in_context show
  kolla_url fqdn protocol port path context = do
    address ← put_address_in_context fqdn context
    if ((protocol == "http" || protocol == "ws") && nat_eq port 80)
          || ((protocol == "https" || protocol == "wss") && nat_eq port 443)
        then ok (protocol & "://" & address & path)
        else ok (protocol & "://" & address & ":" & show port & path)
