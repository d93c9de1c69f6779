-- ===== src/Filters/Tests.antt =====
-- Runs of the filters; the `bool` filter reads the texts that Ansible counts as true.
use irnmn.Prelude.{
  String, Bool, true, false, not, ◌||◌, ◌&&◌, List, ◌==◌, ◌≡◌, ◌⊎◌, refl, [], ◌∷◌, select, Option,
  some, none, if◌then◌else◌,
}
use irnmn.Values.{Value, null, text, boolean}
use irnmn.Effect.{Result, ok, err, filter_error}
use irnmn.Effect.Post.{Gives}
use irnmn.Filters.Services.{Service, select_services, extract_haproxy_services}
use irnmn.Filters.Services.Selected.{is_wanted, select_services-Gives}
use irnmn.Filters.Shards.{HostVars, database_shards_info}
use irnmn.Filters.Shards.Hosts.{count_hosts, hosts_of, is_in_shard}
use irnmn.Filters.Shards.Placed.{database_shards_info-Gives}
use irnmn.Filters.Address.{
  Host, TemplateContext, Ip, version4, version6, host_named, override_address, kolla_address,
  put_address_in_context, kolla_url,
}
use irnmn.Container.Compare.{member}
use irnmn.Filters.Fluentd.{customise_fluentd}
use irnmn.Filters.Fluentd.Named.{is_overridden}
use irnmn.Filters.Fluentd.Chosen.{AreOrdered, customise_fluentd-chosen}
use irnmn.Filters.Cells.{CellMatch, extract_cell, CellService, namespace_haproxy_for_cell}
use irnmn.Filters.Address.Usable.{IsUsable, kolla_address-Gives}

abbrev to_bool : Value → Result Bool
to_bool null = ok false
to_bool (text s) = ok (s == "yes" || s == "true")
to_bool (boolean b) = ok b

abbrev api : Service String
api = record {
  label = "nova_api";
  enabled = text "yes";
  haproxy = ("nova_api", "8774") ∷ [];
  host_in_groups = null;
  group = text "nova-api";
}

abbrev compute : Service String
compute = record {
  label = "nova_compute";
  enabled = text "no";
  haproxy = ("nova_api", "1") ∷ [];
  host_in_groups = boolean true;
  group = null;
}

enabled_entries :
    extract_haproxy_services to_bool (api ∷ compute ∷ []) ≡ ok (("nova_api", "8774") ∷ [])
unfolding extract_haproxy_services
enabled_entries = refl

same_name_twice :
    extract_haproxy_services to_bool (api ∷ api ∷ [])
    ≡ err (filter_error "haproxy service names should be unique")
unfolding extract_haproxy_services
same_name_twice = refl

abbrev variables : String → Option HostVars
variables hostname =
    if hostname == "lost"
    then none
    else some (record {
      mariadb_shard_id = text (if hostname == "c3" then "1" else "0");
      enable_mariabackup = text "no";
      database_password = text "pw";
      mariadb_shard_root_user_prefix = text "root_shard_";
      mariadb_shard_backup_user_prefix = null;
      mariadb_backup_database_password = null;
    })

two_shards :
    database_shards_info to_bool variables ("c1" ∷ "c2" ∷ "c3" ∷ [])
    ≡ ok (record {
      shards = ("0", "c1" ∷ "c2" ∷ []) ∷ ("1", "c3" ∷ []) ∷ [];
      users =
          record { password = text "pw"; user = "root_shard_0"; shard_id = "0" }
          ∷ record { password = text "pw"; user = "root_shard_1"; shard_id = "1" }
          ∷ [];
    })
unfolding database_shards_info
two_shards = refl

select_services-Gives_example :
    Gives
      (λ out. out ≡ select (λ s. is_wanted to_bool ("nova-api" ∷ []) s) (api ∷ compute ∷ []))
      (select_services to_bool ("nova-api" ∷ []) (api ∷ compute ∷ []))
select_services-Gives_example = select_services-Gives to_bool ("nova-api" ∷ []) (api ∷ compute ∷ [])

database_shards_info-Gives_example :
    Gives
      (λ out.
        (count_hosts out.shards ≡ 3)
        × ((q : String)
            → hosts_of q out.shards
              ≡ select (λ h. is_in_shard q (variables h)) ("c1" ∷ "c2" ∷ "c3" ∷ [])))
      (database_shards_info to_bool variables ("c1" ∷ "c2" ∷ "c3" ∷ []))
database_shards_info-Gives_example =
    database_shards_info-Gives to_bool variables ("c1" ∷ "c2" ∷ "c3" ∷ [])

abbrev vip_host : Host
vip_host = record {
  variables =
      ("api_interface", text "eth-0")
      ∷ ("api_address_family", text "IPv6")
      ∷ ("enable_haproxy", boolean true)
      ∷ ("kolla_internal_vip_address", text "fd::1")
      ∷ [];
  interfaces =
      (
        "eth_0",
        record {
          ipv4 = none;
          ipv6 = some (
              record { address = "fe80::1"; scope = "link" }
              ∷ record { address = "fd::1"; scope = "global" }
              ∷ record { address = "fd::7"; scope = "global" }
              ∷ []);
        },
      )
      ∷ [];
}

abbrev two_hosts : TemplateContext
two_hosts = record {
  inventory_hostname = some "control01";
  hostvars = some (("control01", vip_host) ∷ []);
}

abbrev no_override : Value → Option String
no_override value = none

-- The virtual address is passed over.
vip_passed_over : kolla_address no_override to_bool two_hosts "api" none none ≡ ok "fd::7"
unfolding kolla_address
vip_passed_over = refl

kolla_address-Gives_example :
    Gives
      (λ address.
        (host : Host) × (host_named no_override to_bool two_hosts none ≡ ok host)
        × ((override_address no_override to_bool none host ≡ ok (some address))
            ⊎ IsUsable no_override to_bool host address))
      (kolla_address no_override to_bool two_hosts "api" none none)
kolla_address-Gives_example = kolla_address-Gives no_override to_bool two_hosts "api" none none

abbrev ip : String → Option Ip
ip address =
    if address == "fd::a0"
    then some (version6 (253 ∷ 0 ∷ 0 ∷ 0 ∷ 0 ∷ 0 ∷ 0 ∷ 160 ∷ []))
    else some version4

rabbit_address :
    put_address_in_context ip "fd::a0" "rabbitmq" ≡ ok "16#fd,16#0,16#0,16#0,16#0,16#0,16#0,16#a0"
unfolding put_address_in_context
rabbit_address = refl

url_of_address : kolla_url ip "fd::a0" "https" 8443 "/v3" "url" ≡ ok "https://[fd::a0]:8443/v3"
unfolding kolla_url
url_of_address = refl

abbrev nova_service : CellService String Bool
nova_service = record { haproxy = ("nova_api", "1") ∷ []; other_entries = true }

abbrev nova_of_cell : CellService String Bool
nova_of_cell = record { haproxy = ("nova_api_cell1", "1") ∷ []; other_entries = true }

-- The name of the cell is added to the names of the services and of their HAProxy entries.
cell_added :
    namespace_haproxy_for_cell (("nova", nova_service) ∷ []) "cell1"
    ≡ (("nova_cell1", nova_of_cell) ∷ [])
unfolding namespace_haproxy_for_cell
cell_added = refl

abbrev unnamed_cell : String
unnamed_cell =
    "|  | 68a3f49e-27ec | rabbit://openstack@1.2.3.4 | mysql://nova@1.2.3.4/nova |  False   |"

abbrev named_cell : String
named_cell =
    "| cell1 | 79b4-11 | rabbit://openstack@1.2.3.5 | mysql://nova@1.2.3.5/nova |  False   |"

abbrev first_cell : CellMatch
first_cell = record {
  cell_name = some "cell1";
  cell_uuid = "79b4-11";
  cell_message_queue = "rabbit://openstack@1.2.3.5";
  cell_database = "mysql://nova@1.2.3.5/nova";
  cell_disabled = "False";
}

cell_found : extract_cell ("+---+" ∷ unnamed_cell ∷ named_cell ∷ []) "cell1" ≡ ok (some first_cell)
unfolding extract_cell
cell_found = refl

cell_missing : extract_cell (unnamed_cell ∷ []) "cell1" ≡ ok none
unfolding extract_cell
cell_missing = refl

abbrev defaults : List String
defaults = "conf/input/01-syslog.conf.j2" ∷ "conf/filter/00-record.conf.j2" ∷ []

abbrev customised : List String
customised = "custom/02-app.conf" ∷ "custom/01-syslog.conf" ∷ []

customise_fluentd-chosen_example :
    AreOrdered (customise_fluentd (λ paths. paths) defaults customised)
    × ((s : String)
        → member s (customise_fluentd (λ paths. paths) defaults customised)
          ≡ (member s defaults && not (is_overridden customised s) || member s customised))
customise_fluentd-chosen_example =
    customise_fluentd-chosen (λ paths. paths) defaults customised (λ paths s. refl)

overridden_left_out :
    customise_fluentd (λ paths. paths) defaults customised
    ≡ "conf/filter/00-record.conf.j2" ∷ "custom/01-syslog.conf" ∷ "custom/02-app.conf" ∷ []
unfolding customise_fluentd
overridden_left_out = refl
