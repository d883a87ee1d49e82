-- ===== src/Scenario/Routed.antt =====
-- scenarios/ovn.py `_create_routed_network`: switches, routers, ports and sandboxes of one iteration.
pub mod Turns
use ovn_scale_test.Prelude.{
  ℕ, suc, ◌+◌, ◌-◌, ◌*◌, ◌%◌, Bool, true, false, List, [], ◌∷◌, map, Option, none, some, String,
  str_eq, ◌==◌, if◌then◌else◌, length, get_elem?, range_from,
}
use ovn_scale_test.Python.Dict.{default}
use ovn_scale_test.Python.Exec.{
  Exec, Result, ok, err, zero_division, index_error, address_error, require, get_state, pure, lift,
  ◌>>=◌, ◌>>◌,
}
use ovn_scale_test.Env.{IpNetwork}
use ovn_scale_test.Topology.{Lport, Lswitch, Lrouter, Sandbox}
use ovn_scale_test.Client.{Session}
use ovn_scale_test.Ovnclients.{Mixin}
use ovn_scale_test.Ovnclients.Switches.{LswitchArgs, create_lswitches}
use ovn_scale_test.Ovnclients.Routers.{connect_networks_to_routers}
use ovn_scale_test.Ovnclients.Gateways.{
  Datapath, LnetworkArgs, connect_networks_to_gw_routers, connect_gw_routers_routes,
}
use ovn_scale_test.World.{World, controller, at}
use ovn_scale_test.Scenario.Lports.{LportArgs, create_lports, create_phynet}
use ovn_scale_test.Scenario.Bind.{BindArgs}
use ovn_scale_test.Scenario.Wait.{bind_ports_and_wait}

-- `lnetwork_create_args`; a text that is `""` is a key that the dict lacks.
pub record RoutedArgs : Type 0 where
  pub networks_per_router : ℕ
  pub gw_router_per_network : Bool
  pub start_gw_cidr : String
  pub start_ext_cidr : String
  pub cluster_cidr : Option String
  pub batch : Bool
  pub physnet : Option String

-- `[sandboxes[i % len(sandboxes)] for i in ...]`
unfoldable pub sandboxes_at : List Sandbox → List ℕ → Result (List Sandbox)
sandboxes_at sandboxes [] = ok []
sandboxes_at sandboxes (i ∷ is) =
    let rest = sandboxes_at sandboxes is in
    if length sandboxes == 0
    then err zero_division
    else elim (get_elem? sandboxes (i % length sandboxes)) [
      | none ↦ err index_error
      | some sandbox ↦ elim rest [ err e ↦ err e | ok others ↦ ok (sandbox ∷ others) ]
    ]

-- `range(iteration * amount, (iteration + 1) * amount)`
unfoldable pub turns : ℕ → ℕ → List ℕ
turns iteration amount =
    range_from (iteration * amount) ((iteration + 1) * amount - iteration * amount)

-- `netaddr.IPNetwork(start).next(n)`, for a start that is given.
unfoldable pub cidr_after : String → ℕ → Exec Session (Option IpNetwork)
cidr_after start n = if str_eq start "" then pure none else (do
  s ← get_state
  first ← require address_error (s.net.env.parse_network start)
  cidr ← require index_error (s.net.env.next_network first n)
  pure (some cidr))

-- `lswitch_args`, with the start of this iteration.
unfoldable pub switches_of : Mixin → LswitchArgs → ℕ → Exec Session (List Lswitch)
unfolding cidr_after
switches_of m args skipped = do
  cidr ← cidr_after args.start_cidr skipped
  s ← get_state
  create_lswitches m
      (record args {
        start_cidr = elim cidr [ none ↦ args.start_cidr | some c ↦ s.net.env.show_network c ];
      })
      none

-- The gateway routers; the external CIDR is that of the ports.
unfoldable pub gateways :
    Mixin
    → RoutedArgs
    → List Lswitch
    → List Lrouter
    → List Sandbox
    → ℕ
    → Exec Session (Option IpNetwork)
unfolding cidr_after
gateways m args lswitches lrouters sandboxes skipped =
    if args.gw_router_per_network
    then (do
      gw_cidr ← cidr_after args.start_gw_cidr skipped
      ext_cidr ← cidr_after args.start_ext_cidr skipped
      let lnetwork_args : LnetworkArgs = record {
        start_gw_cidr = gw_cidr;
        start_ext_cidr = ext_cidr;
        cluster_cidr = args.cluster_cidr;
        batch = args.batch;
      }
      dps ←
          connect_networks_to_gw_routers m lswitches lrouters sandboxes lnetwork_args
            args.networks_per_router
      create_phynet m (map (λ (d : Datapath). d.ext_switch) dps)
          (default "providernet" args.physnet) 1
      connect_gw_routers_routes m dps lnetwork_args
      pure ext_cidr)
    else pure none

-- What is done on the northbound database, with the ports at the end.
unfoldable pub routed_ports :
    Mixin
    → LswitchArgs
    → RoutedArgs
    → LportArgs
    → Bool
    → List Lrouter
    → List Sandbox
    → ℕ
    → Exec Session (List Lport)
unfolding switches_of gateways
routed_ports m lswitch_args args lport_args create_mgmt_port lrouters sandboxes skipped = do
  lswitches ← switches_of m lswitch_args skipped
  (if args.networks_per_router == 0
      then pure tt
      else connect_networks_to_routers m lswitches lrouters args.networks_per_router)
  ext_cidr ← gateways m args lswitches lrouters sandboxes skipped
  if create_mgmt_port then create_lports m lport_args 1 1 ext_cidr 0 lswitches else pure []

-- `_create_routed_network`
unfoldable pub create_routed_network :
    Mixin
    → (String → String)
    → (List Lport → ℕ → Exec World (Unit {0}))
    → List Lrouter
    → List Sandbox
    → ℕ
    → LswitchArgs
    → RoutedArgs
    → LportArgs
    → BindArgs
    → Bool
    → Exec World (Unit {0})
unfolding sandboxes_at turns routed_ports
create_routed_network m lower ping lrouters all iteration lswitch_args args lport_args bind_args
      create_mgmt_port =
    do
      let amount = default 1 lswitch_args.amount
      sandboxes ← lift (sandboxes_at all (turns iteration amount))
      lports ← at controller "ovn-nbctl" (
          routed_ports m lswitch_args args lport_args create_mgmt_port lrouters sandboxes
            (iteration * amount))
      if create_mgmt_port
          then bind_ports_and_wait m lower ping lports sandboxes bind_args
          else pure tt
