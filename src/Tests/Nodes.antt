-- ===== src/Tests/Nodes.antt =====
-- The theorems on nodes, connections, waiting, parsing and the queue, at the concrete inputs.
use ovn_scale_test.Tests.{
  session, waiting, mixin, farm_world, fake_args, nodes, sandbox, port, reliable, net24, env,
  farm_info, controller_node, fresh_client, net, small_env, net30, small_env-apart, physical_known,
}
use ovn_scale_test.Prelude.{
  ℕ, zero, ◌≡◌, ◌≢◌, refl, arith, true, false, String, [], ◌∷◌, ◌++◌, map, none, some, inr,
  flat_map, ◌↔◌, ◌<◌, range,
}
use ovn_scale_test.Python.Exec.{ok}
use ovn_scale_test.Python.Split.{chars, string, is_break}
use ovn_scale_test.Client.{Session, queue}
use ovn_scale_test.Client.Sbctl.{chassis_bound}
use ovn_scale_test.Env.{Env}
use ovn_scale_test.Client.Nbctl.Log.{issue, deliver, Implements, client_log}
use ovn_scale_test.Client.Nbctl.Log.Delivered.{AllOut, all_delivered}
use ovn_scale_test.Client.Parse.{parse_lswitch_list}
use ovn_scale_test.Client.Parse.Listing.{parse_lswitch_list-listing}
use ovn_scale_test.Python.Dict.{lookup}
use ovn_scale_test.Python.Text.{str}
use ovn_scale_test.World.{World, MultihostInfo, farm, setup, clients_at, call_client}
use ovn_scale_test.Scenario.Conns.Sharing.{Builds, build_conns-last}
use ovn_scale_test.Scenario.Multinode.Nodes.{node_index, add_chassis_nodes, address_of, farm_name}
use ovn_scale_test.Scenario.Multinode.Scripts.{added, add_chassis_nodes-sends}
use ovn_scale_test.Scenario.Multinode.{wait_chassis, add_chassis_external_host}
use ovn_scale_test.Scenario.Multinode.External.{
  external_commands, host_lines, script_sent, external_host-sends,
}
use ovn_scale_test.Scenario.Multinode.Waiting.{Ends, wait_chassis-Ends, first, wait_chassis_finds}
use ovn_scale_test.Scenario.Multinode.Addresses.{address_of_injective}
use ovn_scale_test.Scenario.Northbound.{creates_group, group_of, policy_index}
use ovn_scale_test.Scenario.Northbound.Groups.{Earlier, creates_group_first}
use ovn_scale_test.Scenario.Ping.{ping_loop}
use ovn_scale_test.Scenario.Ping.Ends.{Ended, ping_loop_ends}
use ovn_scale_test.Contexts.{HostDeployment, setup_sandboxes, get_ovn_multihost_info}
use ovn_scale_test.Contexts.Hosts.{last_host, farm_clients_of, setup-farms}
use ovn_scale_test.Contexts.Laws.{tag_wanted, setup_sandboxes-get_sandboxes}
use ovn_scale_test.Deploy.Lookup.{get_sandboxes}

abbrev one : ℕ
one = 1

abbrev farm_deployment : HostDeployment
farm_deployment = record {
  name = "farm-0";
  credentials = record { user = "root"; host = "10.0.0.2" } ∷ [];
  install_method = none;
}

-- A host that answers each command with one line.
abbrev one_line : Env
one_line = record env { answer = λ t host script. record { failed = false; out = "x\n" } }

abbrev answered : Session
answered = record session { net = record net { env = one_line } }

abbrev seen : Session
unfolding chassis_bound
seen = (chassis_bound "node" answered).1

client_log_example :
    Implements waiting reliable
      (refl, tt)
      refl
      (issue "ls-add" [] ("c" ∷ []) ∷ deliver ∷ [])
      (record { sent = []; pending = queue waiting.client })
      waiting
client_log_example =
    client_log waiting reliable (refl, tt) refl (issue "ls-add" [] ("c" ∷ []) ∷ deliver ∷ [])

all_delivered_example : AllOut waiting (issue "ls-add" [] ("c" ∷ []) ∷ [])
all_delivered_example =
    all_delivered waiting reliable (refl, tt) refl (issue "ls-add" [] ("c" ∷ []) ∷ [])

add_chassis_nodes-sends_example :
    (final : World) × (add_chassis_nodes mixin (("farm-0", sandbox "s") ∷ []) 1 fake_args farm_world
      ≡ (ok tt, final))
    × (final.net.trace
        ≡ farm_world.net.trace
          ++ flat_map
              (added mixin
                (("farm-0", sandbox "s") ∷ [])
                fake_args
                farm_world
                (net24 1)
                nodes
                reliable
                physical_known)
              (map (node_index 1 2) (range 2)))
unfolding farm_name address_of node_index lookup str clients_at call_client
add_chassis_nodes-sends_example =
    add_chassis_nodes-sends mixin (("farm-0", sandbox "s") ∷ []) fake_args farm_world (net24 1)
      nodes reliable physical_known 1 refl
      ((refl, refl, refl, refl), ((refl, refl, refl, refl), tt))

build_conns-last_example :
    Builds mixin []
      (sandbox "s" ∷ sandbox "t" ∷ [])
      farm_world
      "farm-0"
      none
      (call_client "ovs-ssh" controller_node)
unfolding lookup clients_at call_client
build_conns-last_example =
    build_conns-last mixin (sandbox "s" ∷ sandbox "t" ∷ []) farm_world "farm-0" controller_node
      ((controller_node, refl), ((controller_node, refl), tt)) refl

wait_chassis-Ends_example : Ends "node" 600 session
wait_chassis-Ends_example = wait_chassis-Ends env reliable "node" 600 session (refl, refl)

ping_loop_ends_example : Ended (port "a") (ping_loop (λ n. n) 20 (port "a") 0 30 session)
ping_loop_ends_example =
    ping_loop_ends (λ n. n) 20 (port "a") 21 0 30 session refl (omega arith) (omega arith)

parse_lswitch_list-listing_example :
    parse_lswitch_list "1-2 (sw0)\n3-4 (sw1)\n" ≡ ok ("sw0" ∷ "sw1" ∷ [])
unfolding chars string is_break
parse_lswitch_list-listing_example =
    parse_lswitch_list-listing
      (record { uuid = chars "1-2"; name = chars "sw0" }
        ∷ record { uuid = chars "3-4"; name = chars "sw1" }
        ∷ [])
      "1-2 (sw0)\n3-4 (sw1)\n" (ground arith) refl

address_of_injective_example : (one ≡ one) × (zero ≡ zero)
unfolding address_of node_index
address_of_injective_example =
    address_of_injective small_env net30 1 one one zero zero "0.0.0.2" (λ a n. inr refl)
      small_env-apart (omega arith) (omega arith) (omega arith) (omega arith) refl refl

creates_group_first_example : (creates_group 3 (policy_index 2 3 0) ≡ true) ↔ (
    (iteration' i' : ℕ)
    → i' < 2
    → Earlier iteration' i' 3 0
    → group_of 3 (policy_index 2 iteration' i') ≢ group_of 3 (policy_index 2 3 0))
creates_group_first_example = creates_group_first 3 2 3 0 (omega arith) (omega arith)

setup_sandboxes-get_sandboxes_example :
    setup_sandboxes (some farm_info ∷ none ∷ []) "farm-0" "all"
    ≡ get_sandboxes (some farm_info ∷ none ∷ []) "farm-0" (tag_wanted "all")
setup_sandboxes-get_sandboxes_example =
    setup_sandboxes-get_sandboxes (some farm_info ∷ none ∷ []) "farm-0" "all" (λ e. cc)

wait_chassis_finds_example : wait_chassis "node" 600 answered ≡ (ok tt, seen)
unfolding chassis_bound ovn_scale_test.Client.Sbctl.run ovn_scale_test.Client.set_cmds
    ovn_scale_test.Client.Nbctl.enter_sandbox ovn_scale_test.Client.append_cmd
    ovn_scale_test.Client.log_cmds ovn_scale_test.Client.ssh_run ovn_scale_test.Python.Exec.for_each
wait_chassis_finds_example =
    wait_chassis_finds "node" 600 0 answered answered seen (omega arith) first refl

external_host-sends_example :
    add_chassis_external_host (net24 1) (record { client = fresh_client; net = net }) ≡ (
      ok tt,
      script_sent fresh_client net physical_known
          (host_lines fresh_client (external_commands env (net24 1))),
    )
external_host-sends_example =
    external_host-sends fresh_client net (net24 1) physical_known reliable refl (omega arith)

setup-farms_example :
    (info : MultihostInfo) × (get_ovn_multihost_info (farm_deployment ∷ []) "controller" ≡ ok info)
    × ((name : String)
        → clients_at (farm name) (setup info farm_world)
          ≡ farm_clients_of (last_host "controller" name none (farm_deployment ∷ [])))
setup-farms_example = setup-farms (farm_deployment ∷ []) "controller" farm_world ((λ e. cc), tt)
