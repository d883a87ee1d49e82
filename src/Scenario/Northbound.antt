-- ===== src/Scenario/Northbound.antt =====
-- scenarios/ovn_nb.py: network policies and name spaces, made of port groups, address sets and ACLs.
pub mod Entries
pub mod Groups
pub mod Switches
use Prim.Native.String.{◌++◌ as ◌append◌}
use ovn_scale_test.Prelude.{
  ℕ, ◌+◌, ◌*◌, ◌/◌, ◌%◌, Bool, List, [], ◌∷◌, Option, none, some, String, ◌==◌, range, get_elem?,
  if◌then◌else◌,
}
use ovn_scale_test.Python.Text.{concat, str}
use ovn_scale_test.Python.Dict.{default}
use ovn_scale_test.Python.Exec.{
  Exec, zero_division, index_error, stop_iteration, require, raise, get_state, pure, for_each,
  ◌>>=◌, ◌>>◌,
}
use ovn_scale_test.Topology.{Lport, Lswitch}
use ovn_scale_test.Client.{Session}
use ovn_scale_test.Ovnclients.{Mixin}
use ovn_scale_test.Scenario.Lports.{LportArgs, create_switch_lports}
use ovn_scale_test.Scenario.Acls.{
  AclArgs, create_acl, add_port_group, port_group_add_port, create_address_set,
  address_set_add_addrs,
}

-- The templates `"%(direction)s == %(lport)s"`, with more after them.
abbrev pub match_port : String → String → String → String → ℕ → String
match_port more direction lport address_set l4_port =
    concat (direction ∷ " == " ∷ lport ∷ more ∷ [])

abbrev pub match_set : String → String → String → String → ℕ → String
match_set side direction lport address_set l4_port =
    concat (direction ∷ " == " ∷ lport ∷ " && ip4." ∷ side ∷ " == $" ∷ address_set ∷ [])

-- `acl_create_args` of a port group.
abbrev pub group_acl :
    Option String
    → Option ℕ
    → Option String
    → Option String
    → (String → String → String → ℕ → String)
    → AclArgs
group_acl direction priority action address_set match = record {
  direction = direction;
  priority = priority;
  action = action;
  address_set = address_set;
  type = some "port-group";
  match = some match;
}

-- One ACL on a port group, for the port `@name`.
unfoldable pub acl_on_group : Mixin → String → AclArgs → Exec Session (Unit {0})
unfolding create_acl
acl_on_group m name args = create_acl m name (◌append◌ "@" name ∷ []) args 1

-- `create_or_update_network_policy_address_sets`
unfoldable pub network_policy_address_sets :
    Mixin → String → String → Bool → Exec Session (Unit {0})
unfolding create_address_set address_set_add_addrs
network_policy_address_sets m name ipaddr create =
    if create
    then (create_address_set m (◌append◌ name "_ingress_as") ipaddr
        >> create_address_set m (◌append◌ name "_egress_as") ipaddr)
    else (address_set_add_addrs m (◌append◌ name "_ingress_as") ipaddr
        >> address_set_add_addrs m (◌append◌ name "_egress_as") ipaddr)

-- `create_port_group_acls`; the key of the last action has a blank before it, so that the ACL is made
-- with the default action.
unfoldable pub create_port_group_acls : Mixin → String → Exec Session (Unit {0})
unfolding acl_on_group
create_port_group_acls m name = do
  acl_on_group m name (
      group_acl (some "from-lport") (some 1010) none (some (◌append◌ name "_ingress_as"))
        (match_set "src"))
  acl_on_group m name
      (group_acl (some "from-lport") (some 1009) (some "allow-related") none (match_port " && ip4"))
  acl_on_group m name
      (group_acl none (some 1010) none (some (◌append◌ name "_egress_as")) (match_set "dst"))
  acl_on_group m name (group_acl none (some 1009) none none (match_port " && ip4"))

-- `create_or_update_default_deny_port_group`
unfoldable pub default_deny_port_group : Mixin → ℕ → String → Exec Session (Unit {0})
unfolding add_port_group acl_on_group port_group_add_port
default_deny_port_group m index port_list =
    if index == 0
    then (do
      add_port_group m "portGroupDefDeny" port_list
      acl_on_group m "portGroupDefDeny"
          (group_acl (some "from-lport") (some 1001) none none (match_port " && arp"))
      acl_on_group m "portGroupDefDeny"
          (group_acl (some "from-lport") none (some "drop") none (match_port ""))
      acl_on_group m "portGroupDefDeny"
          (group_acl none (some 1001) none none (match_port " && arp"))
      acl_on_group m "portGroupDefDeny" (group_acl none none (some "drop") none (match_port "")))
    else port_group_add_port m "portGroupDefDeny" port_list

-- `create_or_update_default_deny_multicast_port_group`
unfoldable pub default_deny_multicast_port_group : Mixin → ℕ → String → Exec Session (Unit {0})
unfolding add_port_group acl_on_group port_group_add_port
default_deny_multicast_port_group m index port_list =
    if index == 0
    then (do
      add_port_group m "portGroupMultiDefDeny" port_list
      acl_on_group m "portGroupMultiDefDeny" (
          group_acl (some "from-lport") (some 1011) (some "drop") none (match_port " && ip4.mcast"))
      acl_on_group m "portGroupMultiDefDeny"
          (group_acl none (some 1011) (some "drop") none (match_port " && ip4.mcast")))
    else port_group_add_port m "portGroupMultiDefDeny" port_list

-- `create_or_update_name_space`
unfoldable pub name_space : Mixin → String → String → String → Bool → Exec Session (Unit {0})
unfolding create_address_set add_port_group acl_on_group address_set_add_addrs port_group_add_port
name_space m name port_list ipaddr create =
    let port_group_name = ◌append◌ "mcastPortGroup_" name in
    if create
    then (do
      create_address_set m name ipaddr
      add_port_group m port_group_name port_list
      acl_on_group m port_group_name
          (group_acl (some "from-lport") (some 1012) none none (match_port " && ip4.mcast"))
      acl_on_group m port_group_name
          (group_acl none (some 1012) none none (match_port " && ip4.mcast")))
    else (do address_set_add_addrs m name ipaddr; port_group_add_port m port_group_name port_list)

-- `create_or_update_network_policy`
unfoldable pub network_policy :
    Mixin → String → String → ℕ → String → Bool → Exec Session (Unit {0})
unfolding default_deny_port_group default_deny_multicast_port_group add_port_group
    port_group_add_port network_policy_address_sets create_port_group_acls
network_policy m name port_list index ipaddr create = do
  default_deny_port_group m index port_list
  default_deny_multicast_port_group m index port_list
  (if create then add_port_group m name port_list else port_group_add_port m name port_list)
  network_policy_address_sets m name ipaddr create
  if create then create_port_group_acls m name else pure tt

-- The group that an index is in, and whether it is the one that creates the group.
unfoldable pub group_of : ℕ → ℕ → ℕ
group_of size index = index / size

unfoldable pub creates_group : ℕ → ℕ → Bool
creates_group size index = index % size == 0

-- The number of the i-th port of an iteration among those of all iterations.
unfoldable pub policy_index : ℕ → ℕ → ℕ → ℕ
policy_index batch iteration i = batch * iteration + i

-- One port: its network policy, and its name space.
unfoldable pub port_policies : Mixin → ℕ → ℕ → String → ℕ → Lport → Exec Session (Unit {0})
unfolding group_of creates_group network_policy name_space
port_policies m name_space_size network_policy_size ipaddr index lport = do
  (if network_policy_size == 0 then raise zero_division else pure tt)
  network_policy m (◌append◌ "networkPolicy" (str (group_of network_policy_size index))) lport.name
      index ipaddr (creates_group network_policy_size index)
  (if name_space_size == 0 then raise zero_division else pure tt)
  name_space m (◌append◌ "nameSpace" (str (group_of name_space_size index))) lport.name ipaddr
      (creates_group name_space_size index)

-- `ipaddr`
unfoldable pub policy_ip : Lswitch → ℕ → Exec Session String
policy_ip lswitch ip_start_index = elim lswitch.cidr [
  | none ↦ pure ""
  | some network ↦ (do
    s ← get_state
    start ← require index_error (s.net.env.add_ip network.ip ip_start_index)
    host ← require stop_iteration (s.net.env.first_host start)
    pure (s.net.env.show_ip host))
]

-- The ports of `configure_routed_lport`, with their policies.
unfoldable pub policed_lports :
    Mixin → Lswitch → LportArgs → ℕ → ℕ → ℕ → Bool → ℕ → Exec Session (List Lport)
unfolding create_switch_lports policy_ip for_each port_policies policy_index
policed_lports m lswitch args ip_start_index name_space_size network_policy_size create_acls
      iteration =
    do
      let batch = default 1 args.batch
      lports ← create_switch_lports m args lswitch batch ip_start_index none
      (if create_acls
          then (do
            ipaddr ← policy_ip lswitch ip_start_index
            for_each (range batch) (λ i. do
              lport ← require index_error (get_elem? lports i)
              port_policies m name_space_size network_policy_size ipaddr
                  (policy_index batch iteration i) lport))
          else pure tt)
      pure lports
