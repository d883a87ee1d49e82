-- ===== src/Scenario/Network.antt =====
-- scenarios/ovn_network.py: networks, routers and ports together.
use ovn_scale_test.Prelude.{
  ℕ, ◌+◌, ◌*◌, Bool, List, [], ◌∷◌, Option, none, some, String, if◌then◌else◌,
}
use ovn_scale_test.Python.Dict.{default}
use ovn_scale_test.Python.Exec.{Exec, index_error, require, get_state, pure, ◌>>=◌, ◌>>◌}
use ovn_scale_test.Env.{IpNetwork}
use ovn_scale_test.Topology.{Lport, Lswitch, Sandbox}
use ovn_scale_test.Client.{Session}
use ovn_scale_test.Client.Nbctl.Queries.{lswitch_list}
use ovn_scale_test.Ovnclients.{Mixin, get_ovn_controller}
use ovn_scale_test.Ovnclients.Switches.{LswitchArgs, parse_start_cidr}
use ovn_scale_test.Ovnclients.Routers.{RouterArgs, create_routers, connect_networks_to_routers}
use ovn_scale_test.World.{World, controller, at}
use ovn_scale_test.Deploy.Lookup.{Deployment, get_sandboxes}
use ovn_scale_test.Scenario.Lports.{LportArgs, create_lports, create_networks}
use ovn_scale_test.Scenario.Bind.{BindArgs}
use ovn_scale_test.Scenario.Wait.{bind_ports_and_wait}
use ovn_scale_test.Scenario.Unbind.{cleanup_ovs_internal_ports, list_oflow_count_for_sandboxes}

-- The sandboxes of the context, or all of them.
unfoldable pub chosen_sandboxes : List Deployment → List Sandbox → List Sandbox
unfolding get_sandboxes
chosen_sandboxes deployments [] = get_sandboxes deployments "" ""
chosen_sandboxes deployments (sb ∷ sbs) = sb ∷ sbs

-- `create_routers`, with the networks that it makes; no `amount` makes one router and no network.
unfoldable pub create_routed : Mixin → RouterArgs → ℕ → LswitchArgs → Exec Session (List Lswitch)
unfolding create_routers create_networks connect_networks_to_routers
create_routed m router_args networks_per_router network_args = do
  lrouters ← create_routers m router_args
  let num_networks = networks_per_router * default 0 router_args.amount
  lnetworks ← create_networks m network_args (some num_networks)
  connect_networks_to_routers m lnetworks lrouters networks_per_router
  pure lnetworks

-- `create_routers_bind_ports`
unfoldable pub create_routers_bind_ports :
    Mixin
    → (String → String)
    → (List Lport → ℕ → Exec World (Unit {0}))
    → List Deployment
    → List Sandbox
    → RouterArgs
    → ℕ
    → LswitchArgs
    → LportArgs
    → ℕ
    → BindArgs
    → Exec World (Unit {0})
unfolding create_routed create_lports chosen_sandboxes bind_ports_and_wait at
create_routers_bind_ports m lower ping deployments sandboxes router_args networks_per_router
      network_args port_args ports_per_network bind_args =
    do
      lports ← at controller "ovn-nbctl" (do
        lnetworks ← create_routed m router_args networks_per_router network_args
        create_lports m port_args ports_per_network 1 none 0 lnetworks)
      bind_ports_and_wait m lower ping lports (chosen_sandboxes deployments sandboxes) bind_args

-- `lswitches[i]["cidr"] = start_cidr.next(i)`, from `i` on.
unfoldable pub number_lswitches : Option IpNetwork → ℕ → List String → Exec Session (List Lswitch)
number_lswitches start_cidr i [] = pure []
number_lswitches none i (name ∷ rest) = do
  others ← number_lswitches none i rest
  pure (record { name = name; cidr = none } ∷ others)
number_lswitches (some start_cidr) i (name ∷ rest) = do
  s ← get_state
  cidr ← require index_error (s.net.env.next_network start_cidr i)
  others ← number_lswitches (some start_cidr) (i + 1) rest
  pure (record { name = name; cidr = some cidr } ∷ others)

-- The switches that are there, or new ones.
unfoldable pub networks_for_ports : Mixin → LswitchArgs → Bool → Exec Session (List Lswitch)
unfolding get_ovn_controller parse_start_cidr number_lswitches create_networks
networks_for_ports m network_args use_existing_networks =
    if use_existing_networks
    then (do
      get_ovn_controller m
      names ← lswitch_list
      start_cidr ← parse_start_cidr network_args.start_cidr
      number_lswitches start_cidr 0 names)
    else create_networks m network_args none

-- `create_and_bind_ports`
unfoldable pub create_and_bind_ports :
    Mixin
    → (String → String)
    → (List Lport → ℕ → Exec World (Unit {0}))
    → (Sandbox → String)
    → List Deployment
    → List Sandbox
    → LswitchArgs
    → LportArgs
    → Bool
    → ℕ
    → BindArgs
    → Bool
    → Exec World (Unit {0})
unfolding networks_for_ports create_lports chosen_sandboxes bind_ports_and_wait
    cleanup_ovs_internal_ports at
create_and_bind_ports m lower ping show deployments context_sandboxes network_args port_args
      use_existing_networks ports_per_network bind_args internal_ports_cleanup =
    do
      let sandboxes = chosen_sandboxes deployments context_sandboxes
      lports ← at controller "ovn-nbctl" (do
        lswitches ← networks_for_ports m network_args use_existing_networks
        create_lports m port_args ports_per_network 1 none 0 lswitches)
      bind_ports_and_wait m lower ping lports sandboxes bind_args
      if internal_ports_cleanup then cleanup_ovs_internal_ports m show sandboxes else pure tt

-- `list_oflow_count_for_sandboxes`
unfoldable pub list_oflow_count :
    Mixin → List Deployment → List Sandbox → Option String → Exec World (List (String × ℕ))
unfolding chosen_sandboxes list_oflow_count_for_sandboxes
list_oflow_count m deployments sandboxes bridge =
    list_oflow_count_for_sandboxes m bridge (chosen_sandboxes deployments sandboxes)
