-- ===== src/Scenario/Multinode.antt =====
-- scenarios/ovn_fake_multinode.py: nodes that run in containers are added, connected and removed by
-- the scripts of ovn-fake-multinode on the hosts.
pub mod Nodes
pub mod Waiting
pub mod External
pub mod Addresses
pub mod Hosts
pub mod Scripts
use Prim.Native.String.{◌++◌ as ◌append◌}
use ovn_scale_test.Prelude.{
  ℕ, zero, suc, ◌*◌, Bool, true, false, List, [], ◌∷◌, map, Option, none, some, String,
  if◌then◌else◌,
}
use ovn_scale_test.Python.Text.{concat, join, str, text_of}
use ovn_scale_test.Python.Split.{chars, string, split, strip}
use ovn_scale_test.Python.Dict.{Dict, default, lookup, insert}
use ovn_scale_test.Python.Exec.{
  Exec, attribute_error, key_error, require, get_state, pure, lift, ◌>>=◌, ◌>>◌,
}
use ovn_scale_test.Env.{IpNetwork}
use ovn_scale_test.Topology.{Sandbox}
use ovn_scale_test.Client.{Session, set_sandbox, set_log_cmd, enable_batch_mode, sleep}
use ovn_scale_test.Client.OvsSsh
use ovn_scale_test.Client.Sbctl.{chassis_bound}
use ovn_scale_test.Ovnclients.{Mixin, get_gw_ip}
use ovn_scale_test.World.{World, controller, farm, at}
use ovn_scale_test.Scenario.Bind.{ssh}

-- `fake_multinode_args`, and the entry `farm` that names one node.
pub record FakeArgs : Type 0 where
  pub node_net : Option String
  pub node_net_len : Option ℕ
  pub node_ip : Option String
  pub node_prefix : Option String
  pub farm : Option String
  pub batch_size : Option ℕ
  pub central_ip : Option String
  pub sb_proto : Option String
  pub cluster_cmd_path : Option String
  pub ovn_monitor_all : Option Bool
  pub ovn_cluster_db : Option Bool
  pub ovn_dp_type : Option String
  pub max_timeout_s : Option ℕ
  pub physnet : Option String

-- `_init_sandboxes`: of two sandboxes on a farm the last one is kept.
unfoldable pub init_sandboxes : Dict Sandbox → List Sandbox → Dict Sandbox
unfolding insert
init_sandboxes d [] = d
init_sandboxes d (sb ∷ sbs) = init_sandboxes (insert sb.farm sb d) sbs

-- `_get_sandbox`; no name is no key.
unfoldable pub get_sandbox : Dict Sandbox → Option String → Exec World Sandbox
unfolding lookup
get_sandbox sandboxes none = require key_error none
get_sandbox sandboxes (some name) = require key_error (lookup name sandboxes)

-- `_get_sandbox_conn`
unfoldable pub get_sandbox_conn : Mixin → String → Option String → Exec Session (Unit {0})
unfolding set_sandbox set_log_cmd enable_batch_mode
get_sandbox_conn m sb_name host_container = do
  set_sandbox (some sb_name) m.install_method host_container
  set_log_cmd m.log_cmd
  enable_batch_mode false

abbrev pub number_of : Option ℕ → String
number_of none = "None"
number_of (some n) = str n

-- `monitor_cmd`, `cluster_db_cmd` and `dp_type_cmd`; an absent switch is falsy.
unfoldable pub cluster_settings : FakeArgs → String
unfolding concat
cluster_settings args = concat (
    (if default false args.ovn_monitor_all then "OVN_MONITOR_ALL=yes" else "OVN_MONITOR_ALL=no")
    ∷ " "
    ∷ (if default false args.ovn_cluster_db then "OVN_DB_CLUSTER=yes" else "OVN_DB_CLUSTER=no")
    ∷ " OVN_DP_TYPE="
    ∷ text_of args.ovn_dp_type
    ∷ [])

-- `_add_central`
unfoldable pub add_central : FakeArgs → Exec Session (Unit {0})
unfolding cluster_settings ssh sleep
add_central args = do
  ssh (
      "cd "
      ∷ text_of args.cluster_cmd_path
      ∷ " && CHASSIS_COUNT=0 GW_COUNT=0 IP_HOST="
      ∷ text_of args.node_net
      ∷ " IP_CIDR="
      ∷ number_of args.node_net_len
      ∷ " IP_START="
      ∷ text_of args.node_ip
      ∷ " "
      ∷ cluster_settings args
      ∷ " CREATE_FAKE_VMS=no ./ovn_cluster.sh start"
      ∷ [])
  sleep 5000

-- `_add_chassis`
unfoldable pub add_chassis_pieces : FakeArgs → String → String → List String
unfolding cluster_settings
add_chassis_pieces args node_ip node_name =
    "cd "
    ∷ text_of args.cluster_cmd_path
    ∷ " && IP_HOST="
    ∷ text_of args.node_net
    ∷ " IP_CIDR="
    ∷ number_of args.node_net_len
    ∷ " IP_START="
    ∷ node_ip
    ∷ " "
    ∷ cluster_settings args
    ∷ " ./ovn_cluster.sh add-chassis "
    ∷ node_name
    ∷ " tcp:0.0.0.1:6642"
    ∷ []

unfoldable pub add_chassis : FakeArgs → String → String → Exec Session (Unit {0})
unfolding add_chassis_pieces ssh
add_chassis args node_ip node_name = ssh (add_chassis_pieces args node_ip node_name)

-- `",".join("{}:{}:6642" ...)` over `central_ip.split('-')`
unfoldable pub remotes : String → String → String
unfolding split chars string strip concat join
remotes sb_proto central_ip = join "," (
    map (λ r. concat (sb_proto ∷ ":" ∷ string (strip r) ∷ ":6642" ∷ []))
      (split 45 (chars central_ip)))

-- `_connect_chassis`; `None` has no `split`.
unfoldable pub connect_chassis : FakeArgs → String → Exec Session (Unit {0})
unfolding remotes ssh
connect_chassis args node_name = do
  central_ip ← require attribute_error args.central_ip
  ssh (
      "cd "
      ∷ text_of args.cluster_cmd_path
      ∷ " && ./ovn_cluster.sh set-chassis-ovn-remote "
      ∷ node_name
      ∷ " "
      ∷ remotes (default "ssl" args.sb_proto) central_ip
      ∷ [])

-- `_wait_chassis`, with so many rounds left.
unfoldable pub wait_chassis : String → ℕ → Exec Session (Unit {0})
unfolding chassis_bound sleep
wait_chassis chassis_name zero = pure tt
wait_chassis chassis_name (suc n) =
    let rest = wait_chassis chassis_name n in
    do bound ← chassis_bound chassis_name; if bound then pure tt else (sleep 100 >> rest)

-- `_del_chassis`
unfoldable pub del_chassis : FakeArgs → String → Exec Session (Unit {0})
unfolding ssh
del_chassis args node_name = ssh (
    "cd "
    ∷ text_of args.cluster_cmd_path
    ∷ " && OVN_BR_CLEANUP=no ./ovn_cluster.sh stop-chassis "
    ∷ node_name
    ∷ [])

-- `_del_central`
unfoldable pub del_central : FakeArgs → Exec Session (Unit {0})
unfolding ssh
del_central args = ssh (
    "cd "
    ∷ text_of args.cluster_cmd_path
    ∷ " && CHASSIS_COUNT=0 GW_COUNT=0 OVN_BR_CLEANUP=no "
    ∷ (if default false args.ovn_cluster_db then "OVN_DB_CLUSTER=yes" else "OVN_DB_CLUSTER=no")
    ∷ " ./ovn_cluster.sh stop"
    ∷ [])

-- `_add_chassis_localnet`
unfoldable pub add_chassis_localnet : FakeArgs → Exec Session (Unit {0})
unfolding ssh
add_chassis_localnet args = ssh (
    "ovs-vsctl -- set open_vswitch . external-ids:ovn-bridge-mappings="
    ∷ default "providernet" args.physnet
    ∷ ":br-ex"
    ∷ [])

-- `_add_chassis_external_host`
unfoldable pub add_chassis_external_host : IpNetwork → Exec Session (Unit {0})
unfolding ssh enable_batch_mode
add_chassis_external_host ext_host_cidr = do
  gw_ip ← lift (get_gw_ip ext_host_cidr 1)
  host_ip ← lift (get_gw_ip ext_host_cidr 2)
  enable_batch_mode true
  ssh ("ip link add veth0 type veth peer name veth1" ∷ [])
  ssh ("ip netns add ext-ns" ∷ [])
  ssh ("ip link set netns ext-ns dev veth0" ∷ [])
  ssh ("ip netns exec ext-ns ip link set dev veth0 up" ∷ [])
  s ← get_state
  ssh (
      "ip netns exec ext-ns ip addr add "
      ∷ s.net.env.show_ip host_ip
      ∷ "/"
      ∷ str ext_host_cidr.prefixlen
      ∷ " dev veth0"
      ∷ [])
  ssh ("ip netns exec ext-ns ip route add default via " ∷ s.net.env.show_ip gw_ip ∷ [])
  ssh ("ip link set dev veth1 up" ∷ [])
  ssh ("ovs-vsctl add-port br-ex veth1" ∷ [])
  out ← OvsSsh.flush
  enable_batch_mode false

-- The connection to the controller's host.
unfoldable pub on_controller : Mixin → Exec Session (Unit {0}) → Exec World (Unit {0})
unfolding get_sandbox_conn at
on_controller m body =
    at controller "ovs-ssh" (get_sandbox_conn m "controller-sandbox" none >> body)

-- `add_central_node`
unfoldable pub add_central_node : Mixin → FakeArgs → Exec World (Unit {0})
unfolding on_controller
add_central_node m args = on_controller m (add_central args)

-- `del_central_node`
unfoldable pub del_central_node : Mixin → FakeArgs → Exec World (Unit {0})
unfolding on_controller
del_central_node m args = on_controller m (del_central args)

-- The connection to a sandbox's host, and the command that is run on it.
unfoldable pub on_node :
    Mixin → Sandbox → Option String → Exec Session (Unit {0}) → Exec World (Unit {0})
unfolding get_sandbox_conn at
on_node m sb host_container body =
    at (farm sb.farm) "ovs-ssh" (get_sandbox_conn m sb.name host_container >> body)

abbrev pub node_name : Sandbox → String
node_name sb = text_of sb.host_container

-- The setup of the southbound client.
unfoldable pub sbctl_conn : Mixin → Exec Session (Unit {0})
unfolding set_sandbox set_log_cmd enable_batch_mode
sbctl_conn m = do
  set_sandbox (some "controller-sandbox") m.install_method m.host_container
  enable_batch_mode false
  set_log_cmd m.log_cmd

-- `add_chassis_node`
unfoldable pub add_chassis_node : Mixin → Dict Sandbox → FakeArgs → Exec World (Unit {0})
unfolding get_sandbox on_node add_chassis
add_chassis_node m sandboxes args = do
  sb ← get_sandbox sandboxes args.farm
  on_node m sb none (add_chassis args (text_of args.node_ip) (node_name sb))

-- `connect_chassis_node`
unfoldable pub connect_chassis_node : Mixin → Dict Sandbox → FakeArgs → Exec World (Unit {0})
unfolding get_sandbox on_node connect_chassis
connect_chassis_node m sandboxes args = do
  sb ← get_sandbox sandboxes args.farm
  on_node m sb none (connect_chassis args (node_name sb))

-- `wait_chassis_node`
unfoldable pub wait_chassis_node : Mixin → Dict Sandbox → FakeArgs → Exec World (Unit {0})
unfolding get_sandbox sbctl_conn wait_chassis at
wait_chassis_node m sandboxes args = do
  sb ← get_sandbox sandboxes args.farm
  at controller "ovn-sbctl"
      (sbctl_conn m >> wait_chassis (node_name sb) (default 60 args.max_timeout_s * 10))

-- `del_chassis_node`
unfoldable pub del_chassis_node : Mixin → Dict Sandbox → FakeArgs → Exec World (Unit {0})
unfolding get_sandbox on_node del_chassis
del_chassis_node m sandboxes args = do
  sb ← get_sandbox sandboxes args.farm
  on_node m sb none (del_chassis args (node_name sb))

-- `add_chassis_node_localnet`
unfoldable pub add_chassis_node_localnet : Mixin → Dict Sandbox → FakeArgs → Exec World (Unit {0})
unfolding get_sandbox on_node add_chassis_localnet
add_chassis_node_localnet m sandboxes args = do
  sb ← get_sandbox sandboxes args.farm
  on_node m sb sb.host_container (add_chassis_localnet args)
