-- ===== src/Tests.antt =====
-- Concrete inputs: a reliable host, three networks, sandboxes, ports and their arguments.
mod Commands
mod Scenarios
mod Nodes
mod Deployments
use mathlib.Core.List.{reverse}
use ovn_scale_test.Prelude.{
  if◌then◌else◌, zero, suc, str_eq, sym, ap, ◌∙◌, ◌≢◌, ℕ, ◌+◌, ◌*◌, ◌/◌, ◌≤◌, ◌≡◌, refl, arith,
  true, false, List, [], ◌∷◌, none, some, String,
}
use ovn_scale_test.Env.{Env, Net, IpNetwork, Reliable}
use ovn_scale_test.Topology.{Lport, Lswitch, Sandbox}
use ovn_scale_test.Client.{Client, Session, physical, sandbox_method, unset}
use ovn_scale_test.World.{World, Clients}
use ovn_scale_test.Ovnclients.{Mixin}
use ovn_scale_test.Ovnclients.Switches.{LswitchArgs}
use ovn_scale_test.Ovnclients.Routers.{RouterArgs}
use ovn_scale_test.Scenario.Sandboxes.{Depot}
use ovn_scale_test.Deploy.Lookup.{SandboxesInfo}
use ovn_scale_test.Scenario.Acls.{AclArgs}
use ovn_scale_test.Scenario.Multinode.{FakeArgs}
use ovn_scale_test.Scenario.Multinode.Scripts.{Node}

abbrev pub net24 : ℕ → IpNetwork
net24 a = record { ip = a * 256; prefixlen = 24; last = a * 256 + 255 }

abbrev pub env : Env
env = record {
  answer = λ t host script. record { failed = false; out = "" };
  parse_network = λ text. some (net24 1);
  next_network = λ n i. some (net24 (1 + i));
  show_network = λ n. "10.0.1.0/24";
  has_ip = λ n a. true;
  add_ip = λ a n. some (a + n);
  show_ip = λ a. "10.0.1.1";
  iprange = λ a b i. some (a + i);
  first_host = λ a. some a;
  random_name = λ n format. "name";
  random_byte = λ n. 7;
  random_index = λ n k. 0;
  dict_items = reverse;
  dict_keys = λ ks. ks;
}

-- A host that refuses its first script.
abbrev pub refusing : Env
refusing = record env {
  answer = λ t host script. record { failed = elim t [ [] ↦ true | _ ∷ _ ↦ false ]; out = "" };
}

abbrev pub net : Net
net = record { env = env; trace = []; draws = 0 }

abbrev pub fresh_client : Client
fresh_client = record {
  ssh = "10.0.0.1";
  is_root = true;
  sandbox = some "controller-sandbox";
  install_method = physical;
  host_container = none;
  batch_mode = false;
  cmds = none;
  socket = none;
  log_cmd = false;
}

abbrev pub session : Session
session = record { client = fresh_client; net = net }

-- Two commands are queued.
abbrev pub waiting : Session
waiting = record session {
  client = record fresh_client {
    cmds = some (" -- ls-add a" ∷ " -- ls-add b" ∷ []);
    batch_mode = true;
  };
}

abbrev pub refused : Session
refused = record waiting { net = record net { env = refusing } }

abbrev pub mixin : Mixin
mixin = record {
  install_method = physical;
  host_container = none;
  daemon_socket = none;
  log_cmd = false;
  task_uuid = "c52f4c01-9fea-4bad-a1b6-8dbc762f4126";
}

abbrev pub world : World
world = record {
  controller_clients =
      some (record { credential = record { user = "root"; host = "10.0.0.1" }; cache = [] });
  farm_clients = [];
  net = net;
  internal_ports = [];
}

abbrev pub reliable : Reliable env
reliable t host script = refl

abbrev pub lswitch_args : LswitchArgs
lswitch_args = record {
  amount = some 3;
  batch = some 2;
  start_cidr = "10.0.1.0/24";
  mcast_snoop = none;
  mcast_idle_timeout = none;
  mcast_table_size = none;
  physical_network = none;
}

abbrev pub router_args : RouterArgs
router_args = record { amount = some 5; batch = some 2 }

abbrev pub switch : String → Lswitch
switch name = record { name = name; cidr = none }

abbrev pub two_routers : List String
two_routers = "r" ∷ "s" ∷ []

abbrev pub five_networks : List ℕ
five_networks = 1 ∷ 2 ∷ 3 ∷ 4 ∷ 5 ∷ []

abbrev pub controller_node : Clients
controller_node = record { credential = record { user = "root"; host = "10.0.0.1" }; cache = [] }

abbrev pub port : String → Lport
port name = record {
  name = name;
  mac = "c4:9f:4b:01:02:03";
  ip = "10.0.1.2/24";
  gw = "10.0.1.254";
  ext_gw = none;
}

abbrev pub sandbox : String → Sandbox
sandbox name = record { name = name; tag = ""; farm = "farm-0"; host_container = none }

abbrev pub ports : List Lport
ports = port "a" ∷ port "b" ∷ port "c" ∷ []

abbrev pub farm_info : SandboxesInfo
farm_info = record {
  farm = "farm-0";
  host_container = none;
  sandboxes = ("sandbox-a", "ToR1") ∷ ("sandbox-b", "ToR2") ∷ [];
}

abbrev pub acl_args : AclArgs
acl_args = record {
  direction = none;
  priority = none;
  action = none;
  address_set = none;
  type = none;
  match = none;
}

abbrev pub sandbox_mixin : Mixin
sandbox_mixin = record mixin { install_method = sandbox_method }

abbrev pub farm_world : World
farm_world = record world { farm_clients = ("farm-0", controller_node) ∷ [] }

abbrev pub depot : Depot
depot = record { world = farm_world; records = ("farm-0", farm_info) ∷ [] }

abbrev pub fake_args : FakeArgs
fake_args = record {
  node_net = some "10.0.1.0";
  node_net_len = some 24;
  node_ip = none;
  node_prefix = some "farm-";
  farm = none;
  batch_size = some 2;
  central_ip = some "10.0.0.1";
  sb_proto = none;
  cluster_cmd_path = some "/root";
  ovn_monitor_all = none;
  ovn_cluster_db = none;
  ovn_dp_type = some "system";
  max_timeout_s = none;
  physnet = none;
}

-- One sandbox on one farm has all nodes.
abbrev pub nodes : ℕ → Node
nodes index = record { sandbox = sandbox "s"; address = "10.0.1.1"; clients = controller_node }

-- The network 0.0.0.0/30, whose addresses are printed apart.
abbrev pub show_small : ℕ → String
show_small zero = "0.0.0.0"
show_small (suc zero) = "0.0.0.1"
show_small (suc (suc zero)) = "0.0.0.2"
show_small (suc (suc (suc a))) = "0.0.0.3"

abbrev pub small_env : Env
small_env = record env { show_ip = show_small }

abbrev pub net30 : IpNetwork
net30 = record { ip = 0; prefixlen = 30; last = 3 }

abbrev read_small : String → ℕ
read_small t =
    if str_eq t "0.0.0.0"
    then 0
    else if str_eq t "0.0.0.1"
    then 1
    else if str_eq t "0.0.0.2"
    then 2
    else 3

read-show_small : (a : ℕ) → a ≤ 3 → read_small (show_small a) ≡ a
read-show_small zero h = refl
read-show_small (suc zero) h = omega arith
read-show_small (suc (suc zero)) h = omega arith
read-show_small (suc (suc (suc a))) h = omega arith

pub small_env-apart : (a b : ℕ) → a ≤ 3 → b ≤ 3 → small_env.show_ip a ≡ small_env.show_ip b → a ≡ b
small_env-apart a b ha hb e = sym (read-show_small a ha) ∙ ap read_small e ∙ read-show_small b hb

pub physical_known : physical ≢ unset
physical_known e = cc
