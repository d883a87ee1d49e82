-- ===== src/Scenario/Multinode/Nodes.antt =====
-- scenarios/ovn_fake_multinode.py: the entry points that work on a batch of nodes in each iteration.
use ovn_scale_test.Prelude.{
  ℕ, ◌+◌, ◌*◌, ◌%◌, Bool, List, [], ◌∷◌, Option, none, some, String, ◌==◌, length, range,
  if◌then◌else◌,
}
use ovn_scale_test.Python.Text.{concat, str, text_of}
use ovn_scale_test.Python.Dict.{Dict, default}
use ovn_scale_test.Python.Exec.{
  Exec, type_error, zero_division, address_error, index_error, require, raise, get_state, pure,
  for_each, ◌>>=◌, ◌>>◌,
}
use ovn_scale_test.Env.{Env, IpNetwork}
use ovn_scale_test.Topology.{Lport, Lrouter, Sandbox}
use ovn_scale_test.Ovnclients.{Mixin}
use ovn_scale_test.Ovnclients.Switches.{LswitchArgs}
use ovn_scale_test.World.{World, controller, farm, at}
use ovn_scale_test.Scenario.Lports.{LportArgs}
use ovn_scale_test.Scenario.Bind.{BindArgs}
use ovn_scale_test.Scenario.Routed.{RoutedArgs, create_routed_network}
use ovn_scale_test.Scenario.Multinode.{
  FakeArgs, get_sandbox, on_node, node_name, number_of, sbctl_conn, add_chassis, connect_chassis,
  wait_chassis, del_chassis, add_chassis_localnet, add_chassis_external_host,
}

-- `iteration * batch_size + i`
unfoldable pub node_index : ℕ → ℕ → ℕ → ℕ
node_index iteration batch_size i = iteration * batch_size + i

-- `"{}{}".format(node_prefix, index % len(self._sandboxes))`
unfoldable pub farm_name : FakeArgs → ℕ → ℕ → String
unfolding concat
farm_name args sandbox_count index =
    concat (default "" args.node_prefix ∷ str (index % sandbox_count) ∷ [])

-- The sandbox of the node with this number.
unfoldable pub node_at : Dict Sandbox → FakeArgs → ℕ → Exec World Sandbox
unfolding farm_name get_sandbox
node_at sandboxes args index =
    if length sandboxes == 0
    then raise zero_division
    else get_sandbox sandboxes (some (farm_name args (length sandboxes) index))

-- `for i in range(batch_size)`, with the number of each node.
unfoldable pub each_node : ℕ → FakeArgs → (ℕ → Exec World (Unit {0})) → Exec World (Unit {0})
unfolding for_each node_index
each_node iteration args body =
    let batch_size = default 1 args.batch_size in
    for_each (range batch_size) (λ i. body (node_index iteration batch_size i))

-- `str(node_cidr.ip + index + 1)`
unfoldable pub address_of : Env → IpNetwork → ℕ → Option String
address_of env node_cidr index = elim (env.add_ip node_cidr.ip index) [
  | none ↦ none
  | some ip ↦ elim (env.add_ip ip 1) [ none ↦ none | some node_ip ↦ some (env.show_ip node_ip) ]
]

unfoldable pub add_node : Mixin → Dict Sandbox → FakeArgs → IpNetwork → ℕ → Exec World (Unit {0})
unfolding address_of node_at on_node add_chassis
add_node m sandboxes args node_cidr index = do
  w ← get_state
  node_ip ← require index_error (address_of w.net.env node_cidr index)
  sb ← node_at sandboxes args index
  on_node m sb none (add_chassis args node_ip (node_name sb))

-- `add_chassis_nodes`
unfoldable pub add_chassis_nodes : Mixin → Dict Sandbox → ℕ → FakeArgs → Exec World (Unit {0})
unfolding each_node add_node concat
add_chassis_nodes m sandboxes iteration args = do
  w ← get_state
  node_cidr ← require address_error (
      w.net.env.parse_network
        (concat (text_of args.node_net ∷ "/" ∷ number_of args.node_net_len ∷ [])))
  each_node iteration args (add_node m sandboxes args node_cidr)

-- `connect_chassis_nodes`
unfoldable pub connect_chassis_nodes : Mixin → Dict Sandbox → ℕ → FakeArgs → Exec World (Unit {0})
unfolding each_node node_at on_node connect_chassis
connect_chassis_nodes m sandboxes iteration args = each_node iteration args λ index. do
  sb ← node_at sandboxes args index
  on_node m sb none (connect_chassis args (node_name sb))

-- `wait_chassis_nodes`; `max_timeout_s` has no default here, and `None * 10` raises.
unfoldable pub wait_chassis_nodes : Mixin → Dict Sandbox → ℕ → FakeArgs → Exec World (Unit {0})
unfolding each_node node_at on_node sbctl_conn wait_chassis at
wait_chassis_nodes m sandboxes iteration args = do
  at controller "ovn-sbctl" (sbctl_conn m)
  each_node iteration args λ index. do
    sb ← node_at sandboxes args index
    on_node m sb none (pure tt)
    max_timeout_s ← require type_error args.max_timeout_s
    at controller "ovn-sbctl" (wait_chassis (node_name sb) (max_timeout_s * 10))

-- `del_chassis_nodes`
unfoldable pub del_chassis_nodes : Mixin → Dict Sandbox → ℕ → FakeArgs → Exec World (Unit {0})
unfolding each_node node_at on_node del_chassis
del_chassis_nodes m sandboxes iteration args = each_node iteration args λ index. do
  sb ← node_at sandboxes args index
  on_node m sb none (del_chassis args (node_name sb))

-- `add_chassis_nodes_localnet`
unfoldable pub add_chassis_nodes_localnet :
    Mixin → Dict Sandbox → ℕ → FakeArgs → Exec World (Unit {0})
unfolding each_node node_at on_node add_chassis_localnet
add_chassis_nodes_localnet m sandboxes iteration args = each_node iteration args λ index. do
  sb ← node_at sandboxes args index
  on_node m sb sb.host_container (add_chassis_localnet args)

-- `add_chassis_external_hosts`
unfoldable pub add_chassis_external_hosts :
    Mixin → Dict Sandbox → ℕ → FakeArgs → String → Exec World (Unit {0})
unfolding each_node node_at on_node add_chassis_external_host at
add_chassis_external_hosts m sandboxes iteration args start_ext_cidr =
    each_node iteration args λ index. do
      sb ← node_at sandboxes args index
      on_node m sb sb.host_container (pure tt)
      w ← get_state
      first ← require address_error (w.net.env.parse_network start_ext_cidr)
      ext_host_cidr ← require index_error (w.net.env.next_network first index)
      at (farm sb.farm) "ovs-ssh" (add_chassis_external_host ext_host_cidr)

-- `setup_switch_per_node_init`
unfoldable pub setup_switch_per_node_init :
    Mixin → Dict Sandbox → ℕ → FakeArgs → RoutedArgs → Exec World (Unit {0})
unfolding add_chassis_nodes add_chassis_nodes_localnet add_chassis_external_hosts
setup_switch_per_node_init m sandboxes iteration args lnetwork_args = do
  add_chassis_nodes m sandboxes iteration args
  if lnetwork_args.gw_router_per_network
      then (add_chassis_nodes_localnet m sandboxes iteration args
          >> add_chassis_external_hosts m sandboxes iteration args lnetwork_args.start_ext_cidr)
      else pure tt

-- `setup_switch_per_node`
unfoldable pub setup_switch_per_node :
    Mixin
    → (String → String)
    → (List Lport → ℕ → Exec World (Unit {0}))
    → List Lrouter
    → List Sandbox
    → Dict Sandbox
    → ℕ
    → FakeArgs
    → LswitchArgs
    → RoutedArgs
    → LportArgs
    → BindArgs
    → Bool
    → Exec World (Unit {0})
unfolding connect_chassis_nodes wait_chassis_nodes create_routed_network
setup_switch_per_node m lower ping lrouters all sandboxes iteration args lswitch_args lnetwork_args
      lport_args bind_args create_mgmt_port =
    do
      connect_chassis_nodes m sandboxes iteration args
      wait_chassis_nodes m sandboxes iteration args
      create_routed_network m lower ping lrouters all iteration
          (record lswitch_args { amount = some (default 1 args.batch_size); batch = some 1 })
          lnetwork_args lport_args bind_args create_mgmt_port
