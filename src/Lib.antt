-- ===== src/Lib.antt =====
-- A verification of the power operations of this repository and of some of its Kolla Ansible code.
--
-- PowerOps moves compute hosts in and out of service. Mistral workflows call actions
-- (plugins/mistral_power_actions/src/openstack_power_actions/actions.py), each of which takes or
-- keeps a lock on the host in Redis (locks.py) or calls one of the power operations
-- (operations.py) on the OpenStack services: Nova, Ironic, Masakari and Neutron. Masakari's
-- recovery flow calls a fencing task
-- (plugins/masakari_ironic_fence/src/masakari_ironic_fence/task.py) that powers a failed host off
-- through Ironic before its servers are evacuated. The Ansible modules of
-- ansible/roles/powerops/library bring the declared nodes, ports, segments and workbooks into these
-- services, and tools/powerops_cli.py checks the configuration before. The services themselves run
-- in containers, which the Ansible module kolla_container (ansible/library/kolla_container.py)
-- compares with their declaration, creates, restarts and removes through Docker or Podman, and
-- systemd; commands of kolla_ansible generate and merge the passwords that their configuration uses.
--
-- The files:
--
-- - Prelude, Attr, Effect: shared names; attributes of SDK resources as getattr reads them; code
--   that calls services as functions of the state of the world that return a result or an
--   exception with the state reached. Effect.Polling is the polling loop, with one rule for its
--   postconditions and one for its success; Effect.Post has the rules for a block of calls.
-- - PowerOps: operations.py. Cloud is the OpenStack SDK and time.sleep, a record of calls that may
--   answer anything, raise, and change the world; Duration is _attempts; Lookup the lookups of a
--   host's resources; Services, Servers, Power and HostReturn the methods; Observe the repeated
--   reads of a node. Fake is a cloud for the tests.
-- - Fence: task.py, with the options of config.py.
-- - Lock: locks.py. RedisServer is what the locks use of Redis, with the laws that its
--   documentation states; keys expire between the commands.
-- - Actions: actions.py, one constructor for each action class.
-- - Fernet: ansible/roles/keystone/files/fernet_rotate_cron_generator.py.
-- - Text, Values: Python's text methods, and the values and mappings of a configuration.
-- - Ironic: ansible/roles/powerops/library/powerops_ironic_node.py. Baremetal is what the module
--   uses of the SDK; Spec is normalize_spec, Ports reconcile_ports and its preflight, Node
--   reconcile_node with the redaction of the BMC's secrets.
-- - Segment: ansible/roles/powerops/library/powerops_masakari_segment.py. InstanceHa is what the
--   module uses of the SDK; Spec is normalize_segment_spec, Hosts the loop over the hosts, Reconcile
--   reconcile_segment.
-- - Workbook: ansible/roles/powerops/library/powerops_mistral_workbook.py. Document is
--   normalize_workbook_yaml over a parameter for PyYAML and hashlib; Client is MistralRestClient
--   over a parameter for the HTTP session; Reconcile is reconcile_workbook.
-- - Cli: tools/powerops_cli.py. Inventory is _compute_hosts, Validate validate_config, Publish
--   publish_images over a runner of commands.
-- - Filters, of kolla_ansible: filters.py (Services), database_shards.py (Shards), nova_filters.py
--   (Cells), fluentd_filters.py (Fluentd), and kolla_address.py, put_address_in_context.py and
--   kolla_url.py (Address).
-- - Container: ansible/library/kolla_container.py (Module) and the workers in
--   ansible/module_utils. Systemd is kolla_systemd_worker.py, over a record of the host's files
--   and systemd's manager; Params, Image, Volumes, Healthcheck, Dimensions, Compare and Differs
--   (over the methods that a worker implements) are kolla_container_worker.py; Engine is what
--   kolla_docker_worker.py uses of the Docker SDK, and Docker its methods: Images the lookups,
--   images and volumes, Create the options of a container, Differs its comparisons of a container
--   with the declaration. Podman is kolla_podman_worker.py in the same parts over what it uses of
--   podman-py (Podman.Engine), with Args for the arguments and Compare for its own comparisons.
--   Differs.Agrees, Docker.Differs.Matches and Podman.Matches state what a comparison without a
--   difference has found. Worker is the interface of both workers and Worker.Contract what the
--   module relies on, which both fulfil; Module.Outcome uses it. Tests has a host with either
--   engine.
-- - Config: ansible/action_plugins. Ini is OverrideConfigParser of merge_configs.py, on the calls
--   that oslo.config's parser makes for the lines of a source; Nested is update_nested_conf of
--   merge_yaml.py on nested mappings without aliases: that a list or mapping which stands under two
--   keys changes under both is not modelled.
-- - Passwords: kolla_ansible/cmd/mergepwd.py (Merge, with Merged and Written on its result) and
--   genpwd.py (Generate, with Kept on its result), over parameters for the files and the random
--   sources.
--
-- Conventions. A Python int is a natural number where the code rejects or never meets a negative
-- one, and an integer where the code tests the sign. math.ceil(float(timeout) / interval) is the
-- exact quotient, which floats give for timeouts below 2 ** 53 seconds. An SDK listing is read
-- whole before it is used. Text methods are those of Python on ASCII texts, and the values of a
-- configuration are nulls, texts and flags. The polling loops recur on the rounds that are left, so
-- they need no fuel; the loops of the cron generator take fuel, a span and two rounds, which is
-- enough for every rotation of a minute or more; that of wait_for_unit takes a fifth of the timeout
-- and two rounds, and a round adds 5 to what is compared with the timeout. int() is read on unsigned
-- ASCII digits. The values of an environment are texts, flags and nulls. A
-- set is a list, in any order where the code iterates it. Not modelled: logging,
-- argument parsing, the construction of clients from configuration files, reading and templating
-- sources, and the parts that PROJECT.json lists as such.
pub mod Prelude
pub mod Attr
pub mod Effect
pub mod Actions
pub mod Cli
pub mod Config
pub mod Container
pub mod Fence
pub mod Fernet
pub mod Filters
pub mod Ironic
pub mod Lock
pub mod Passwords
pub mod PowerOps
pub mod Segment
pub mod Text
pub mod Values
pub mod Workbook
