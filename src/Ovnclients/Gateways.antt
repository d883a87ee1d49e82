-- ===== src/Ovnclients/Gateways.antt =====
-- ovnclients.py: gateway routers, their switches, ports and routes.
use Prim.Native.String.{◌++◌ as ◌append◌}
use ovn_scale_test.Prelude.{
  ℕ, false, Bool, List, [], ◌∷◌, ◌++◌, Option, none, some, String, take, drop, get_elem?,
}
use ovn_scale_test.Python.Text.{text_of}
use ovn_scale_test.Python.Exec.{
  Exec, key_error, index_error, require, get_state, pure, lift, for_each, ◌>>=◌, ◌>>◌,
}
use ovn_scale_test.Env.{IpNetwork}
use ovn_scale_test.Values.{column, mapping, text}
use ovn_scale_test.Topology.{Lswitch, Lrouter, Sandbox}
use ovn_scale_test.Mac.{base_mac, get_random_mac}
use ovn_scale_test.Client.{Session, enable_batch_mode}
use ovn_scale_test.Client.Nbctl.{flush}
use ovn_scale_test.Client.Nbctl.Commands.{
  lswitch_add, lrouter_add, lrouter_port_add, lrouter_route_add, lrouter_nat_add, lswitch_port_add,
  db_set,
}
use ovn_scale_test.Ovnclients.{Mixin, get_ovn_controller, get_gw_ip}
use ovn_scale_test.Ovnclients.Routers.{port_ip, router_columns}

-- A gateway router, with the addresses that the code adds to its dict.
pub record GwRouter : Type 0 where
  pub name : String
  pub def_gw : ℕ
  pub gw : ℕ
  pub rp_gw : ℕ

-- The tuple `(network, router, join_switch, gw_router, ext_switch)`.
pub record Datapath : Type 0 where
  pub network : Lswitch
  pub router : Lrouter
  pub join_switch : Lswitch
  pub gw_router : GwRouter
  pub ext_switch : Lswitch

-- `lnetwork_args`; `none` is a key that the dict lacks, or a falsy value.
pub record LnetworkArgs : Type 0 where
  pub start_gw_cidr : Option IpNetwork
  pub start_ext_cidr : Option IpNetwork
  pub cluster_cidr : Option String
  pub batch : Bool

-- A router port on a switch: the router's end with a random MAC, and the switch's end as its peer.
unfoldable pub connect_switch :
    List String → String → String → String → String → IpNetwork → ℕ → Exec Session (Unit {0})
connect_switch base router router_port switch switch_port cidr ip = do
  mac ← get_random_mac base
  address ← port_ip cidr ip
  end ← lrouter_port_add router router_port mac address
  peer ← lswitch_port_add switch switch_port "" "" "" none
  db_set "Logical_Switch_Port" switch_port (router_columns router_port)

-- `_connect_gateway_router`
unfoldable pub connect_gateway_router :
    Mixin → Lrouter → Lswitch → IpNetwork → IpNetwork → Sandbox → Bool → Exec Session Datapath
unfolding get_ovn_controller enable_batch_mode connect_switch
connect_gateway_router m router network gw_cidr ext_cidr sandbox batch = do
  get_ovn_controller m
  enable_batch_mode batch
  base ← lift (base_mac m.task_uuid)
  s ← get_state
  let gw_text = s.net.env.show_network gw_cidr
  let ext_text = s.net.env.show_network ext_cidr
  let join_switch_name = ◌append◌ "join_" gw_text
  join_switch ← lswitch_add join_switch_name []
  rp_gw ← lift (get_gw_ip gw_cidr 1)
  connect_switch base router.name (◌append◌ "rpj-" gw_text) join_switch_name
      (◌append◌ "jrp-" gw_text) gw_cidr rp_gw
  let gw_router_name = ◌append◌ "grouter_" gw_text
  gw_router ← lrouter_add gw_router_name
  db_set "Logical_Router" gw_router_name
      (column "options" (mapping (("chassis", text (text_of sandbox.host_container)) ∷ [])) ∷ [])
  gr_gw ← lift (get_gw_ip gw_cidr 2)
  connect_switch base gw_router_name (◌append◌ "grpj-" gw_text) join_switch_name
      (◌append◌ "jrpg-" gw_text) gw_cidr gr_gw
  let ext_switch_name = ◌append◌ "ext_" ext_text
  ext_switch ← lswitch_add ext_switch_name []
  gw ← lift (get_gw_ip ext_cidr 1)
  gr_def_gw ← lift (get_gw_ip ext_cidr 2)
  connect_switch base gw_router_name (◌append◌ "grpe-" ext_text) ext_switch_name
      (◌append◌ "erpg-" ext_text) ext_cidr gw
  flush
  enable_batch_mode false
  pure (record {
    network = network;
    router = router;
    join_switch = join_switch;
    gw_router = record { name = gw_router.name; def_gw = gr_def_gw; gw = gr_gw; rp_gw = rp_gw };
    ext_switch = ext_switch;
  })

-- The inner loop: the i-th network goes with the i-th sandbox, and both CIDRs move on by one.
unfoldable pub connect_to_gw :
    Mixin
    → Bool
    → Lrouter
    → List Lswitch
    → List Sandbox
    → IpNetwork
    → IpNetwork
    → Exec Session (List Datapath × IpNetwork × IpNetwork)
connect_to_gw m batch lrouter [] sandboxes gw_cidr ext_cidr = pure ([], gw_cidr, ext_cidr)
connect_to_gw m batch lrouter (lnetwork ∷ rest) sandboxes gw_cidr ext_cidr = do
  logged_cidr ← require key_error lnetwork.cidr
  sandbox ← require index_error (get_elem? sandboxes 0)
  dp ← connect_gateway_router m lrouter lnetwork gw_cidr ext_cidr sandbox batch
  s ← get_state
  gw_next ← require index_error (s.net.env.next_network gw_cidr 1)
  ext_next ← require index_error (s.net.env.next_network ext_cidr 1)
  done ← connect_to_gw m batch lrouter rest (drop 1 sandboxes) gw_next ext_next
  pure (dp ∷ done.0, done.1, done.2)

-- The outer loop, over the routers.
unfoldable pub connect_routers :
    Mixin
    → Bool
    → ℕ
    → List Lrouter
    → List Lswitch
    → List Sandbox
    → IpNetwork
    → IpNetwork
    → Exec Session (List Datapath)
connect_routers m batch per_router [] lnetworks sandboxes gw_cidr ext_cidr = pure []
connect_routers m batch per_router (r ∷ rs) lnetworks sandboxes gw_cidr ext_cidr = do
  done ← connect_to_gw m batch r (take per_router lnetworks) sandboxes gw_cidr ext_cidr
  dps ←
      connect_routers m batch per_router rs (drop per_router lnetworks) (drop per_router sandboxes)
        done.1 done.2
  pure (done.0 ++ dps)

-- `_connect_networks_to_gw_routers`
unfoldable pub connect_networks_to_gw_routers :
    Mixin
    → List Lswitch
    → List Lrouter
    → List Sandbox
    → LnetworkArgs
    → ℕ
    → Exec Session (List Datapath)
unfolding connect_routers
connect_networks_to_gw_routers m lnetworks lrouters sandboxes args per_router =
    elim args.start_gw_cidr [
      | none ↦ pure []
      | some gw_cidr ↦ elim args.start_ext_cidr [
        | none ↦ pure []
        | some ext_cidr ↦
            connect_routers m args.batch per_router lrouters lnetworks sandboxes gw_cidr ext_cidr
      ]
    ]

-- The routes and the NAT rule of one gateway router.
unfoldable pub add_routes : String → Datapath → Exec Session (Unit {0})
add_routes cluster_cidr dp = do
  s ← get_state
  let show_ip = s.net.env.show_ip
  let g = dp.gw_router
  db_set "Logical_Router" g.name
      (column "options" (mapping (("lb_force_snat_ip", text (show_ip g.gw)) ∷ [])) ∷ [])
  lrouter_route_add g.name "0.0.0.0/0" (show_ip g.def_gw) none
  lrouter_route_add g.name cluster_cidr (show_ip g.rp_gw) none
  cidr ← require key_error dp.network.cidr
  lrouter_route_add dp.router.name (s.net.env.show_network cidr) (show_ip g.gw) (some "src-ip")
  lrouter_nat_add g.name "snat" (show_ip g.gw) cluster_cidr
  flush

-- `_connect_gw_routers_routes`
unfoldable pub connect_gw_routers_routes :
    Mixin → List Datapath → LnetworkArgs → Exec Session (Unit {0})
unfolding get_ovn_controller enable_batch_mode for_each add_routes
connect_gw_routers_routes m dps args = elim args.cluster_cidr [
  | none ↦ pure tt
  | some cluster_cidr ↦ (do
    get_ovn_controller m
    enable_batch_mode args.batch
    for_each dps (add_routes cluster_cidr)
    enable_batch_mode false)
]
