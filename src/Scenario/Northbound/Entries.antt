-- ===== src/Scenario/Northbound/Entries.antt =====
-- scenarios/ovn_nb.py: the entry points on routed networks, and the commands they run.
use ovn_scale_test.Prelude.{
  ℕ, ◌+◌, ◌*◌, ◌/◌, ◌%◌, Bool, false, List, [], ◌∷◌, map, Option, none, some, String, ◌==◌, length,
  range, get_elem?, if◌then◌else◌,
}
use ovn_scale_test.Python.Dict.{default}
use ovn_scale_test.Python.Exec.{
  Exec, zero_division, index_error, require, raise, pure, for_each, ◌>>=◌, ◌>>◌,
}
use ovn_scale_test.Topology.{Lport, Lswitch, Sandbox}
use ovn_scale_test.Client.{Session}
use ovn_scale_test.Ovnclients.{Mixin}
use ovn_scale_test.World.{World, controller, at}
use ovn_scale_test.Scenario.Lports.{LportArgs, delete_lswitch, delete_routers}
use ovn_scale_test.Scenario.Acls.{list_address_set, remove_address_set}
use ovn_scale_test.Scenario.Bind.{BindArgs}
use ovn_scale_test.Scenario.Wait.{bind_ports_and_wait}
use ovn_scale_test.Scenario.Conns.{run_farm_cmd, run_controller_cmd}
use ovn_scale_test.Scenario.Unbind.{flush_ovs_internal_ports}
use ovn_scale_test.Scenario.Northbound.{policed_lports}

-- A method on the northbound database.
abbrev pub nb : {A : Type 0} → Exec Session A → Exec World A
nb method = at controller "ovn-nbctl" method

-- `sandboxes[iteration % len(sandboxes)]`, and the same of switches.
unfoldable pub in_turn : {A : Type 0} → List A → ℕ → Exec World A
in_turn xs iteration =
    if length xs == 0
    then raise zero_division
    else require index_error (get_elem? xs (iteration % length xs))

-- `configure_routed_lport`
unfoldable pub configure_routed_lport :
    Mixin
    → (String → String)
    → (List Lport → ℕ → Exec World (Unit {0}))
    → List Sandbox
    → ℕ
    → Lswitch
    → LportArgs
    → BindArgs
    → ℕ
    → ℕ
    → ℕ
    → Bool
    → Exec World (Unit {0})
unfolding policed_lports in_turn bind_ports_and_wait at
configure_routed_lport m lower ping sandboxes iteration lswitch args bind_args ip_start_index
      name_space_size network_policy_size create_acls =
    do
      lports ← nb (
          policed_lports m lswitch args ip_start_index name_space_size network_policy_size
            create_acls iteration)
      sandbox ← in_turn sandboxes iteration
      bind_ports_and_wait m lower ping lports (sandbox ∷ []) bind_args

-- `start_cmd` and `stop_cmd`; no `iter` is an iteration that there is not.
pub record CmdArgs : Type 0 where
  pub iter : Option ℕ
  pub controller_pid_name : String
  pub farm_pid_name : String
  pub num_sandboxes : ℕ
  pub background_opt : Bool
  pub pid_opt : String
  pub cmd : String

-- `handle_cmd`
unfoldable pub handle_cmd : Mixin → List Sandbox → CmdArgs → Exec World (Unit {0})
unfolding run_controller_cmd for_each run_farm_cmd
handle_cmd m sandboxes args = do
  run_controller_cmd m args.cmd args.pid_opt args.controller_pid_name args.background_opt
  for_each (range args.num_sandboxes) λ i. do
    sandbox ← require index_error (get_elem? sandboxes i)
    run_farm_cmd m sandbox args.cmd args.pid_opt args.farm_pid_name args.background_opt

-- Whether a command is for this iteration.
unfoldable pub is_due : ℕ → Option ℕ → Bool
is_due iteration none = false
is_due iteration (some iter) = iteration == iter

unfoldable pub handle_due : Mixin → List Sandbox → ℕ → Option CmdArgs → Exec World (Unit {0})
unfolding is_due handle_cmd
handle_due m sandboxes iteration none = pure tt
handle_due m sandboxes iteration (some cmd) =
    if is_due iteration cmd.iter then handle_cmd m sandboxes cmd else pure tt

-- `ovn_run_command`
unfoldable pub ovn_run_command :
    Mixin → List Sandbox → ℕ → Option CmdArgs → Option CmdArgs → Exec World (Unit {0})
unfolding handle_due
ovn_run_command m sandboxes iteration start_cmd stop_cmd =
    handle_due m sandboxes iteration start_cmd >> handle_due m sandboxes iteration stop_cmd

-- `create_routed_lport`
unfoldable pub create_routed_lport :
    Mixin
    → (String → String)
    → (List Lport → ℕ → Exec World (Unit {0}))
    → List Sandbox
    → List Lswitch
    → ℕ
    → LportArgs
    → Option ℕ
    → BindArgs
    → Bool
    → ℕ
    → ℕ
    → Option CmdArgs
    → Option CmdArgs
    → Exec World (Unit {0})
unfolding in_turn ovn_run_command configure_routed_lport
create_routed_lport m lower ping sandboxes lswitches iteration args ip_offset bind_args create_acls
      name_space_size network_policy_size start_cmd stop_cmd =
    do
      lswitch ← in_turn lswitches iteration
      let ip_start_index =
          (iteration * default 1 args.batch) / length lswitches + default 1 ip_offset
      ovn_run_command m sandboxes iteration start_cmd stop_cmd
      configure_routed_lport m lower ping sandboxes iteration lswitch args bind_args ip_start_index
          name_space_size network_policy_size create_acls

-- `cleanup_routed_lswitches`
unfoldable pub cleanup_routed_lswitches :
    Mixin → (Sandbox → String) → List Sandbox → List Lswitch → Exec World (Unit {0})
unfolding for_each flush_ovs_internal_ports delete_lswitch delete_routers at
cleanup_routed_lswitches m show sandboxes lswitches = do
  for_each sandboxes (flush_ovs_internal_ports m show)
  nb (delete_lswitch m (map (λ (w : Lswitch). w.name) lswitches) >> delete_routers m)
  address_sets ← nb (list_address_set m)
  for_each address_sets (λ address_set. nb (remove_address_set m address_set))
