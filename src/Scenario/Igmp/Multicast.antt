-- ===== src/Scenario/Igmp/Multicast.antt =====
-- scenarios/ovn_igmp.py: the receivers of the multicast test are installed, configured and triggered
-- over the connections of the scenario.
use ovn_scale_test.Prelude.{
  ℕ, zero, suc, ◌+◌, Bool, List, [], ◌∷◌, ◌++◌, map, Option, none, String, leb, length,
  if◌then◌else◌,
}
use ovn_scale_test.Python.Text.{str}
use ovn_scale_test.Python.Dict.{Dict, default, lookup, insert}
use ovn_scale_test.Python.Exec.{
  Exec, key_error, index_error, name_error, require, raise, get_state, modify, pure, lift, for_each,
  ◌>>=◌, ◌>>◌,
}
use ovn_scale_test.Env.{copied, happen}
use ovn_scale_test.Topology.{Lport, Lswitch, Sandbox}
use ovn_scale_test.Client.{Session, set_log_cmd, sleep}
use ovn_scale_test.Client.Sbctl.{count_igmp_flows}
use ovn_scale_test.Ovnclients.{Mixin}
use ovn_scale_test.Ovnclients.Switches.{LswitchArgs}
use ovn_scale_test.World.{World, controller, at}
use ovn_scale_test.Scenario.Lports.{
  LportArgs, create_networks, create_switch_lports, delete_lswitch,
}
use ovn_scale_test.Scenario.Bind.{BindArgs, ssh}
use ovn_scale_test.Scenario.Wait.{bind_ports_and_wait}
use ovn_scale_test.Scenario.Conns.{Scene, in_world, on_conn, flush_conns, pause}
use ovn_scale_test.Scenario.Unbind.{cleanup_ovs_internal_ports}
use ovn_scale_test.Scenario.Igmp.{Iteration, build_config_testers}

-- The sum over the switches in `_run_mcast`.
unfoldable pub total_flows : List Lswitch → Exec Session ℕ
total_flows [] = pure 0
total_flows (w ∷ ws) = do
  count ← count_igmp_flows w.name "239"
  rest ← total_flows ws
  pure (count + rest)

-- `_run_mcast`, with so many rounds left and the `error` of its default.
unfoldable pub run_rounds : Mixin → ℕ → List Lswitch → ℕ → Exec Session (Unit {0})
unfolding set_log_cmd total_flows sleep
run_rounds m expected_count lswitches zero = pure tt
run_rounds m expected_count lswitches (suc n) =
    let rest = run_rounds m expected_count lswitches n in
    do
      set_log_cmd m.log_cmd
      igmp_flow_count ← total_flows lswitches
      if leb expected_count (igmp_flow_count + 10) then pure tt else (sleep 500 >> rest)

unfoldable pub run_mcast : Mixin → ℕ → List Lswitch → Exec World (Unit {0})
unfolding run_rounds at
run_mcast m expected_count lswitches =
    at controller "ovn-sbctl" (run_rounds m expected_count lswitches 60)

-- `ssh.put_file`
unfoldable pub put_file : String → String → Exec Session (Unit {0})
unfolding happen
put_file local remote =
    modify (λ s. record s { net = happen (copied s.client.ssh local remote) s.net })

-- `_install_mcast_tester`; `all` are the sandboxes of the context, which have the connections.
unfoldable pub install_mcast_tester :
    Mixin → List Sandbox → List Sandbox → String → Exec Scene (Unit {0})
unfolding for_each on_conn put_file flush_conns
install_mcast_tester m all sandboxes path = do
  for_each sandboxes (λ sb. on_conn m all sb.name (put_file path "/tmp/test.c"))
  flush_conns ("gcc -lpthread -o /tmp/test /tmp/test.c" ∷ [])

-- A command for the connection of the sandbox that a port is bound to.
unfoldable pub on_port : Mixin → List Sandbox → String → List String → Exec Scene (Unit {0})
unfolding lookup on_conn ssh
on_port m all port_name pieces = do
  s ← get_state
  bound ← require key_error (lookup port_name s.world.internal_ports)
  on_conn m all bound.1.name (ssh pieces)

-- `netaddr.IPAddress('239.0.0.1') + gid`
unfoldable pub group_text : ℕ → Exec Scene String
group_text gid = do
  s ← get_state
  address ← require index_error (s.world.net.env.add_ip 4009754625 gid)
  pure (s.world.net.env.show_ip address)

-- The ports of a round, in the order that the dict has.
unfoldable pub round_ports : Iteration → Exec Scene (List String)
round_ports port_map = do s ← get_state; pure (s.world.net.env.dict_keys (map (λ e. e.0) port_map))

-- The lines for one port of a round.
unfoldable pub config_port : Mixin → List Sandbox → Iteration → String → Exec Scene (Unit {0})
unfolding on_port for_each group_text lookup
config_port m all port_map port_name = do
  groups ← require key_error (lookup port_name port_map)
  on_port m all port_name
      ("echo " ∷ str (length groups) ∷ " >> /tmp/test-" ∷ port_name ∷ "-input" ∷ [])
  for_each groups λ gid. do
    group ← group_text gid
    on_port m all port_name ("echo " ∷ group ∷ " >> /tmp/test-" ∷ port_name ∷ "-input" ∷ [])

-- `_config_mcast_testers`
unfoldable pub config_mcast_testers :
    Mixin → List Sandbox → List Lport → List (ℕ × Iteration) → Exec Scene (Unit {0})
unfolding for_each on_port round_ports config_port flush_conns
config_mcast_testers m all ports iterations = do
  for_each ports (λ p.
      on_port m all p.name
        ("echo " ∷ str (length iterations) ∷ " > /tmp/test-" ∷ p.name ∷ "-input" ∷ []))
  for_each iterations λ round. do
    names ← round_ports round.1
    for_each names (config_port m all round.1)
    flush_conns []

-- `_start_mcast_tester`
unfoldable pub start_mcast_tester : Mixin → List Sandbox → String → Exec Scene (Unit {0})
unfolding on_port
start_mcast_tester m all port_name =
    on_port m all port_name
      ("ip netns exec " ∷ port_name ∷ " /tmp/test " ∷ "/tmp/test-" ∷ port_name ∷ "-input" ∷ [])

-- `_trigger_mcast_tester`
unfoldable pub trigger_mcast_tester : Mixin → List Sandbox → String → Exec Scene (Unit {0})
unfolding on_port
trigger_mcast_tester m all port_name = on_port m all port_name (
    "kill -s SIGUSR1 `ps aux | grep " ∷ port_name
    ∷ " | grep -v grep | awk '{print $2}'` &> /dev/null || /bin/true" ∷ [])

-- The rounds of the test, after so many receivers.
unfoldable pub test_rounds :
    Mixin → List Sandbox → List Lswitch → ℕ → List (ℕ × Iteration) → Exec Scene (Unit {0})
unfolding for_each round_ports trigger_mcast_tester flush_conns run_mcast
test_rounds m all lswitches total_expected [] = pure tt
test_rounds m all lswitches total_expected ((expected_count, port_map) ∷ rest) = do
  names ← round_ports port_map
  for_each names (trigger_mcast_tester m all)
  flush_conns []
  in_world (run_mcast m (total_expected + expected_count) lswitches)
  test_rounds m all lswitches (total_expected + expected_count) rest

-- `igmp_args`
pub record IgmpArgs : Type 0 where
  pub group_count : Option ℕ
  pub receivers : Option ℕ
  pub mcast_batch : Option ℕ
  pub mcast_recv_path : String

-- `_start_mcast`
unfoldable pub start_mcast :
    Mixin
    → List Sandbox
    → List Lswitch
    → List Lport
    → Dict (List Lport)
    → IgmpArgs
    → Exec Scene (Unit {0})
unfolding set_log_cmd build_config_testers config_mcast_testers for_each start_mcast_tester
    flush_conns pause test_rounds at
start_mcast m all lswitches all_lports lports_per_lswitch args = do
  in_world (at controller "ovn-sbctl" (set_log_cmd m.log_cmd))
  iterations ← lift (
      build_config_testers lswitches all_lports lports_per_lswitch (default 1 args.group_count)
        (default 2 args.receivers) (default 200 args.mcast_batch))
  config_mcast_testers m all all_lports iterations
  for_each all_lports (λ p. start_mcast_tester m all p.name)
  flush_conns []
  in_world (pause 10000)
  test_rounds m all lswitches 0 iterations

-- `_cleanup_mcast_tests`
unfoldable pub cleanup_mcast_tests : Exec Scene (Unit {0})
unfolding flush_conns
cleanup_mcast_tests =
    flush_conns ("killall -s KILL test &> /dev/null || /bin/true" ∷ "rm -rf /tmp/test*input" ∷ [])

-- `_cleanup_mcast`
unfoldable pub cleanup_mcast :
    Mixin → (Sandbox → String) → List Lswitch → List Sandbox → Exec World (Unit {0})
unfolding delete_lswitch cleanup_ovs_internal_ports at
cleanup_mcast m show lswitches sandboxes = do
  at controller "ovn-nbctl" (delete_lswitch m (names lswitches))
  cleanup_ovs_internal_ports m show sandboxes
  where
    names : List Lswitch → List String
    names [] = []
    names (w ∷ ws) = w.name ∷ names ws

-- The ports of each switch, and all of them.
unfoldable pub ports_per_lswitch :
    Mixin
    → LportArgs
    → ℕ
    → Dict (List Lport)
    → List Lport
    → List Lswitch
    → Exec Session (Dict (List Lport) × List Lport)
unfolding create_switch_lports insert
ports_per_lswitch m args amount per lports [] = pure (per, lports)
ports_per_lswitch m args amount per lports (w ∷ ws) = do
  switch_lports ← create_switch_lports m args w amount 1 none
  ports_per_lswitch m args amount (insert w.name switch_lports per) (lports ++ switch_lports) ws

-- `igmp_scale`; with no sandbox in the context it looks for them in `utils`, which is not imported.
unfoldable pub igmp_scale :
    Mixin
    → (String → String)
    → (List Lport → ℕ → Exec World (Unit {0}))
    → (Sandbox → String)
    → List Sandbox
    → LswitchArgs
    → LportArgs
    → ℕ
    → BindArgs
    → Bool
    → IgmpArgs
    → Exec Scene (Unit {0})
unfolding create_networks cleanup_mcast_tests ports_per_lswitch bind_ports_and_wait pause
    install_mcast_tester start_mcast cleanup_mcast at
igmp_scale m lower ping show sandboxes network_args port_args ports_per_network bind_args cleanup
      args =
    do
      elim sandboxes [ [] ↦ raise name_error | _ ∷ _ ↦ pure tt ]
      lswitches ← in_world (at controller "ovn-nbctl" (create_networks m network_args none))
      (if cleanup then cleanup_mcast_tests else pure tt)
      made ← in_world (
          at controller "ovn-nbctl"
            (ports_per_lswitch m port_args ports_per_network [] [] lswitches))
      in_world (bind_ports_and_wait m lower ping made.1 sandboxes bind_args)
      in_world (pause 10000)
      install_mcast_tester m sandboxes sandboxes args.mcast_recv_path
      start_mcast m sandboxes lswitches made.1 made.0 args
      if cleanup
          then in_world (pause 20000 >> cleanup_mcast m show lswitches sandboxes)
          else pure tt
