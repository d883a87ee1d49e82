-- ===== src/Ovnclients/Routers.antt =====
-- ovnclients.py: routers, and the ports that connect networks to them.
pub mod Laws
use Prim.Native.String.{◌++◌ as ◌append◌}
use ovn_scale_test.Prelude.{ℕ, true, false, List, [], ◌∷◌, Option, none, String, range, take, drop}
use ovn_scale_test.Python.Text.{concat, str}
use ovn_scale_test.Python.Dict.{default}
use ovn_scale_test.Python.Exec.{
  Exec, key_error, require, get_state, pure, lift, for_each, ◌>>=◌, ◌>>◌,
}
use ovn_scale_test.Env.{IpNetwork}
use ovn_scale_test.Values.{Column, column, scalar, mapping, text}
use ovn_scale_test.Topology.{Lswitch, Lrouter}
use ovn_scale_test.Mac.{base_mac, get_random_mac}
use ovn_scale_test.Client.{Session, enable_batch_mode}
use ovn_scale_test.Client.Nbctl.{flush}
use ovn_scale_test.Client.Nbctl.Commands.{lrouter_add, lrouter_port_add, lswitch_port_add, db_set}
use ovn_scale_test.Ovnclients.{Mixin, get_ovn_controller, get_gw_ip, generate_random_name}
use ovn_scale_test.Ovnclients.Batches.{in_batches}

-- `router_create_args`
pub record RouterArgs : Type 0 where
  pub amount : Option ℕ
  pub batch : Option ℕ

unfoldable pub create_router : ℕ → Exec Session Lrouter
unfolding generate_random_name
create_router i = do name ← generate_random_name "lrouter_XXXXXX_XXXXXX"; lrouter_add name

unfoldable pub create_routers : Mixin → RouterArgs → Exec Session (List Lrouter)
unfolding get_ovn_controller enable_batch_mode
create_routers m args = do
  let batch = default 1 args.batch
  get_ovn_controller m
  enable_batch_mode true
  in_batches batch (range (default 1 args.amount)) create_router

-- The address of a port, `'{}/{}'.format(gw, network.prefixlen)`.
unfoldable pub port_ip : IpNetwork → ℕ → Exec Session String
port_ip network gw = do
  s ← get_state
  pure (concat (s.net.env.show_ip gw ∷ "/" ∷ str network.prefixlen ∷ []))

-- The columns that make a switch port the peer of a router port.
unfoldable pub router_columns : String → List Column
router_columns port =
    column "options" (mapping (("router-port", text port) ∷ []))
    ∷ column "type" (scalar (text "router"))
    ∷ column "address" (scalar (text "router"))
    ∷ []

unfoldable pub connect_network_to_router : Mixin → Lrouter → Lswitch → Exec Session (Unit {0})
unfolding get_ovn_controller enable_batch_mode
connect_network_to_router m router network = do
  get_ovn_controller m
  enable_batch_mode false
  base ← lift (base_mac m.task_uuid)
  mac ← get_random_mac base
  cidr ← require key_error network.cidr
  gw ← lift (get_gw_ip cidr 1)
  lrouter_port_ip ← port_ip cidr gw
  lrouter_port ← lrouter_port_add router.name network.name mac lrouter_port_ip
  flush
  let switch_router_port = ◌append◌ "rp-" network.name
  lport ← lswitch_port_add network.name switch_router_port "" "" "" none
  db_set "Logical_Switch_Port" switch_router_port (router_columns network.name)
  flush

-- The pairs that the two loops of `_connect_networks_to_routers` visit: each router takes the next
-- `networks_per_router` networks.
unfoldable pub router_networks {ℓ κ} :
    {R : Type ℓ} {N : Type κ} → ℕ → List R → List N → List (R × List N)
router_networks per_router [] lnetworks = []
router_networks per_router (r ∷ rs) lnetworks =
    (r, take per_router lnetworks) ∷ router_networks per_router rs (drop per_router lnetworks)

unfoldable pub connect_networks_to_routers :
    Mixin → List Lswitch → List Lrouter → ℕ → Exec Session (Unit {0})
unfolding for_each router_networks
connect_networks_to_routers m lnetworks lrouters networks_per_router =
    for_each (router_networks networks_per_router lrouters lnetworks) λ p. for_each p.1 λ lnetwork.
      do logged_cidr ← require key_error lnetwork.cidr; connect_network_to_router m p.0 lnetwork
