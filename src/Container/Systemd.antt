-- ===== src/Container/Systemd.antt =====
-- `SystemdWorker` of ansible/module_utils/kolla_systemd_worker.py, for a container with a name.
pub mod UnitFile
pub mod Waits
use irnmn.Prelude.{
  ℕ, zero, suc, ◌+◌, ◌-◌, ◌/◌, String, Bool, true, false, not, ◌==◌, is_blank, ltb, List, [], ◌∷◌,
  ◌&◌, Option, none, some, if◌then◌else◌,
}
use irnmn.Text.Numbers.{show}
use irnmn.Effect.{Result, ok, err, Exec, pure, lift, external, ◌>>=◌, ◌>>◌}

-- An entry of `ListUnits`: the unit's name and its sub state.
pub record UnitEntry : Type 0 where
  pub name : String
  pub sub_state : String

-- The methods of systemd's manager that the worker calls, with the arguments it gives.
pub data Method : Type 0 where
  start_unit restart_unit stop_unit reload_unit : String → String → Method
  enable_unit_files : List String → Bool → Bool → Method

-- What the worker uses of the host: files by their path, the manager on the system bus, and
-- `time.sleep`. Each call may raise and change the world.
pub record SystemdHost (W : Type 0) : Type 0 where
  pub is_file : String → Exec W Bool
  pub read_file : String → Exec W String
  -- path and content
  pub write_file : String → String → Exec W (Unit {0})
  pub remove_file : String → Exec W (Unit {0})
  pub call_manager : Method → Exec W (Unit {0})
  pub list_units : Exec W (List UnitEntry)
  pub sleep : ℕ → W → W

-- The parameters that the constructor reads; those that are left out have a default.
pub record UnitParams : Type 0 where
  pub name : String
  pub container_engine : String
  pub restart_policy : Option String
  pub client_timeout : Option ℕ
  pub restart_retries : Option ℕ
  pub graceful_timeout : ℕ

pub record ContainerUnit : Type 0 where
  pub name : String
  pub service_name : String
  pub engine : String
  pub deps : String
  pub graceful_timeout : ℕ
  pub restart_policy : String
  pub restart_timeout : ℕ
  pub restart_retries : ℕ
  -- The text of the duration, which may be -1.
  pub restart_duration : String

abbrev or_number : Option ℕ → ℕ → ℕ
or_number none default = default
or_number (some n) default = n

abbrev or_policy : Option String → String
or_policy none = "no"
or_policy (some policy) = if policy == "unless-stopped" then "always" else policy

-- `str(n - 1)`
abbrev pub less_one : ℕ → String
less_one zero = "-1"
less_one (suc n) = show n

-- The constructor's `container_dict`; without retries the division fails.
unfoldable pub container_unit : UnitParams → Result ContainerUnit
unfolding show
container_unit params =
    let restart_timeout = or_number params.client_timeout 120 in
    let restart_retries = or_number params.restart_retries 10 in
    elim restart_retries [
      | zero ↦ err (external "integer division or modulo by zero")
      | suc less ↦ ok (record {
        name = params.name;
        service_name = "kolla-" & params.name & "-container.service";
        engine = params.container_engine;
        deps =
            if params.container_engine == "docker"
            then "docker.service"
            else "network-online.target";
        graceful_timeout = params.graceful_timeout;
        restart_policy = or_policy params.restart_policy;
        restart_timeout = restart_timeout;
        restart_retries = suc less;
        restart_duration = less_one (restart_timeout / suc less);
      })
    ]

-- `TEMPLATE`, filled in
unfoldable pub generate_unit_file : ContainerUnit → String
unfolding show
generate_unit_file u =
    "# "
    & u.service_name
    & "\n# autogenerated by Kolla-Ansible\n\n[Unit]\nDescription="
    & u.engine
    & " "
    & u.service_name
    & "\nAfter="
    & u.deps
    & "\nWants="
    & u.deps
    & "\nPartOf=kolla.target\nStartLimitInterval="
    & show u.restart_timeout
    & "\nStartLimitBurst="
    & show u.restart_retries
    & "\n\n[Service]\nExecStart=/usr/bin/"
    & u.engine
    & " start -a "
    & u.name
    & "\nExecStop=/usr/bin/"
    & u.engine
    & " stop "
    & u.name
    & " -t "
    & show u.graceful_timeout
    & "\nRestart="
    & u.restart_policy
    & "\nRestartSec="
    & u.restart_duration
    & "\nSuccessExitStatus=143\n\n[Install]\nWantedBy=multi-user.target\n"

-- `sysdir + service_name`
abbrev pub unit_path : ContainerUnit → String
unit_path u = "/etc/systemd/system/" & u.service_name

-- `True`, or `False` where the call raised.
abbrev pub no_exception : {W : Type 0} → Result (Unit {0}) × W → Result Bool × W
no_exception (ok _, w) = (ok true, w)
no_exception (err e, w) = (ok false, w)

-- The sub state of the first unit of the name.
unfoldable pub state_of : String → List UnitEntry → Option String
state_of service [] = none
state_of service (unit ∷ rest) =
    if unit.name == service then some unit.sub_state else state_of service rest

abbrev pub is_state : String → Option String → Bool
is_state state none = false
is_state state (some found) = found == state

module _ {W : Type 0} (host : SystemdHost W) (u : ContainerUnit) where
  unfoldable pub perform_action : Method → Exec W Bool
  perform_action method w = no_exception (host.call_manager method w)

  unfoldable pub get_unit_state : Exec W (Option String)
  unfolding state_of
  get_unit_state = do units ← host.list_units; pure (state_of u.service_name units)

  -- The loop of `wait_for_unit`: `none` where the fuel has run out.
  unfoldable pub wait_loop : ℕ → ℕ → String → ℕ → Exec W (Option Bool)
  unfolding get_unit_state
  wait_loop zero timeout state elapsed = pure none
  wait_loop (suc fuel) timeout state elapsed = do
    found ← get_unit_state
    if is_state state found
        then pure (some true)
        else if ltb timeout elapsed
        then pure (some false)
        else λ w. wait_loop fuel timeout state (elapsed + 5) (host.sleep 5 w)

  abbrev pub loop_answer : Option Bool → Bool
  loop_answer none = false
  loop_answer (some answer) = answer

  -- The fuel is enough: a round adds 5 to what is compared with the timeout.
  unfoldable pub wait_for_unit : ℕ → String → Exec W Bool
  unfolding wait_loop
  wait_for_unit timeout state = do
    answer ← wait_loop (timeout / 5 + 2) timeout state 0
    pure (loop_answer answer)

  abbrev pub then_wait : String → Bool → Exec W Bool
  then_wait state true = wait_for_unit u.restart_timeout state
  then_wait state false = pure false

  unfoldable pub start : Exec W Bool
  unfolding perform_action wait_for_unit
  start = perform_action (start_unit u.service_name "replace") >>= then_wait "running"

  unfoldable pub restart : Exec W Bool
  unfolding perform_action wait_for_unit
  restart = perform_action (restart_unit u.service_name "replace") >>= then_wait "running"

  unfoldable pub stop : Exec W Bool
  unfolding perform_action wait_for_unit
  stop = perform_action (stop_unit u.service_name "replace") >>= then_wait "dead"

  unfoldable pub reload : Exec W Bool
  unfolding perform_action
  reload = perform_action (reload_unit u.service_name "replace")

  unfoldable pub enable : Exec W Bool
  unfolding perform_action
  enable = perform_action (enable_unit_files (u.service_name ∷ []) false true)

  unfoldable pub check_unit_file : Exec W Bool
  check_unit_file = host.is_file (unit_path u)

  abbrev pub compare_file : String → Bool → Exec W Bool
  compare_file content true = do
    current ← host.read_file (unit_path u)
    pure (not (current == content))
  compare_file content false = pure true

  -- The new content is generated if it is the empty text.
  unfoldable pub check_unit_change : String → Exec W Bool
  unfolding check_unit_file generate_unit_file
  check_unit_change new_content =
      check_unit_file
      >>= compare_file (if is_blank new_content then generate_unit_file u else new_content)

  abbrev pub write_unit : String → Bool → Exec W Bool
  write_unit content true = do host.write_file (unit_path u) content; reload; enable; pure true
  write_unit content false = pure false

  -- `create_unit_file` with its content.
  unfoldable pub create_unit : String → Exec W Bool
  unfolding check_unit_change reload enable
  create_unit content = check_unit_change content >>= write_unit content

  unfoldable pub create_unit_file : Exec W Bool
  unfolding create_unit generate_unit_file
  create_unit_file = create_unit (generate_unit_file u)

  abbrev pub remove_unit : Bool → Exec W Bool
  remove_unit true = do host.remove_file (unit_path u); reload; pure true
  remove_unit false = pure false

  unfoldable pub remove_unit_file : Exec W Bool
  unfolding check_unit_file reload
  remove_unit_file = check_unit_file >>= remove_unit
