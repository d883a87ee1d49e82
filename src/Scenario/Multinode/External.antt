-- ===== src/Scenario/Multinode/External.antt =====
-- `_add_chassis_external_host` of scenarios/ovn_fake_multinode.py: one script for a host.
use ovn_scale_test.Prelude.{
  ℕ, ◌-◌, ◌≤◌, true, false, List, [], ◌∷◌, ◌++◌, map, none, some, String, take, ◌≡◌, ◌≢◌, refl,
  arith, append_assoc,
}
use ovn_scale_test.Python.Text.{concat, join, str}
use ovn_scale_test.Python.Exec.{ok, ◌>>=◌}
use ovn_scale_test.Env.{Env, Net, IpNetwork, ran, logged, Reliable, happen}
use ovn_scale_test.Client.{
  Client, Session, unset, queue, enable_batch_mode, set_cmds, append_cmd, log_cmds, ssh_run,
}
use ovn_scale_test.Client.OvsSsh
use ovn_scale_test.Ovnclients.{get_gw_ip}
use ovn_scale_test.Scenario.Bind.{ssh}
use ovn_scale_test.Scenario.Multinode.{add_chassis_external_host}
use ovn_scale_test.Scenario.Multinode.Hosts.{host_line, line_events, run-known}

-- The commands that make an external host behind the bridge of a node.
abbrev pub external_commands : Env → IpNetwork → List (List String)
external_commands env cidr =
    ("ip link add veth0 type veth peer name veth1" ∷ [])
    ∷ ("ip netns add ext-ns" ∷ [])
    ∷ ("ip link set netns ext-ns dev veth0" ∷ [])
    ∷ ("ip netns exec ext-ns ip link set dev veth0 up" ∷ [])
    ∷ ("ip netns exec ext-ns ip addr add "
        ∷ env.show_ip (cidr.last - 2)
        ∷ "/"
        ∷ str cidr.prefixlen
        ∷ " dev veth0"
        ∷ [])
    ∷ ("ip netns exec ext-ns ip route add default via " ∷ env.show_ip (cidr.last - 1) ∷ [])
    ∷ ("ip link set dev veth1 up" ∷ [])
    ∷ ("ovs-vsctl add-port br-ex veth1" ∷ [])
    ∷ []

-- The lines for a client's host.
abbrev pub host_lines : Client → List (List String) → List String
host_lines c = map (host_line c.is_root c.host_container)

module _ (c : Client) (net : Net) (known : c.install_method ≢ unset) where
  abbrev waiting : List String → Session
  waiting q = record { client = record c { cmds = some q; batch_mode = true }; net = net }

  ssh-queued :
      (pieces : List String) (q : List String)
      → ssh pieces (waiting q)
        ≡ (ok tt, waiting (q ++ host_line c.is_root c.host_container pieces ∷ []))
  unfolding ssh OvsSsh.run_line OvsSsh.ssh_line append_cmd set_cmds
  ssh-queued pieces q = rw (run-known (concat pieces) (waiting q) known) refl

  -- The first command, on a client that has no queue yet or an empty one.
  ssh-first :
      (pieces : List String)
      → ssh pieces (record { client = record c { batch_mode = true }; net = net })
        ≡ ssh pieces (waiting (queue c))
  unfolding ssh set_cmds
  ssh-first pieces =
      rw
        (
          run-known (concat pieces) (record { client = record c { batch_mode = true }; net = net })
              known,
          run-known (concat pieces) (waiting (queue c)) known,
        )
        refl

  -- The session after the script has gone out.
  abbrev pub script_sent : List String → Session
  script_sent lines = record {
    client = record c { cmds = none; batch_mode = false };
    net = record net { trace = net.trace ++ line_events c (join "\n" lines) };
  }

  flush-off :
      (q : List String)
      → Reliable net.env
      → (OvsSsh.flush >>= λ out. enable_batch_mode false) (waiting q) ≡ (ok tt, script_sent q)
  unfolding OvsSsh.flush set_cmds log_cmds ssh_run happen enable_batch_mode
  flush-off q r =
      let script = join "\n" q in
      ground (
        arith,
        r net.trace c.ssh script,
        r (net.trace ++ logged script ∷ []) c.ssh script,
        append_assoc net.trace (logged script ∷ []) (ran c.ssh script ∷ []),
      )

  gw_ip-found :
      (cidr : IpNetwork) (offset : ℕ)
      → offset ≤ cidr.last
      → get_gw_ip cidr offset ≡ ok (cidr.last - offset)
  unfolding get_gw_ip
  gw_ip-found cidr offset h = ground arith

-- Where no command fails, an install method is set, nothing is queued, and the network has room for the
-- two addresses, `_add_chassis_external_host` sends one script, with the eight commands that make the
-- external host in their order; it leaves no queue and batch mode off.
pub external_host-sends :
    (c : Client) (net : Net) (cidr : IpNetwork) (known : c.install_method ≢ unset)
    → Reliable net.env
    → queue c ≡ []
    → 2 ≤ cidr.last
    → add_chassis_external_host cidr (record { client = c; net = net })
      ≡ (ok tt, script_sent c net known (host_lines c (external_commands net.env cidr)))
unfolding add_chassis_external_host enable_batch_mode
external_host-sends c net cidr known r q h =
    let p = external_commands net.env cidr in
    let l = host_lines c p in
    rw
      (
        gw_ip-found c net known cidr 1 (omega arith),
        gw_ip-found c net known cidr 2 h,
        ssh-first c net known ("ip link add veth0 type veth peer name veth1" ∷ []),
        q,
        ssh-queued c net known ("ip link add veth0 type veth peer name veth1" ∷ []) [],
        ssh-queued c net known ("ip netns add ext-ns" ∷ []) (take 1 l),
        ssh-queued c net known ("ip link set netns ext-ns dev veth0" ∷ []) (take 2 l),
        ssh-queued c net known ("ip netns exec ext-ns ip link set dev veth0 up" ∷ []) (take 3 l),
        ssh-queued c net known
            ("ip netns exec ext-ns ip addr add "
              ∷ net.env.show_ip (cidr.last - 2)
              ∷ "/"
              ∷ str cidr.prefixlen
              ∷ " dev veth0"
              ∷ [])
            (take 4 l),
        ssh-queued c net known
            ("ip netns exec ext-ns ip route add default via "
              ∷ net.env.show_ip (cidr.last - 1)
              ∷ [])
            (take 5 l),
        ssh-queued c net known ("ip link set dev veth1 up" ∷ []) (take 6 l),
        ssh-queued c net known ("ovs-vsctl add-port br-ex veth1" ∷ []) (take 7 l),
      )
      (flush-off c net known l r)
