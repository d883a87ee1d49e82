-- ===== src/Scenario/Unbind.antt =====
-- scenarios/ovn.py: internal ports are removed again, and flows are counted. Where the source hands a
-- sandbox's dict to `set_sandbox` in place of its name, `show` is the text of that dict.
use ovn_scale_test.Prelude.{ℕ, Bool, true, ◌||◌, List, [], ◌∷◌, Option, some, String, if◌then◌else◌}
use ovn_scale_test.Python.Split
use ovn_scale_test.Python.Split.{chars, string, splitlines, starts_with}
use ovn_scale_test.Python.Dict.{Dict, default, lookup, insert}
use ovn_scale_test.Python.Exec.{
  Exec, key_error, type_error, require, raise, get_state, pure, for_each, ◌>>=◌, ◌>>◌,
}
use ovn_scale_test.Topology.{Sandbox}
use ovn_scale_test.Client.{Session, set_sandbox, set_log_cmd, enable_batch_mode}
use ovn_scale_test.Client.OvsSsh
use ovn_scale_test.Client.Vsctl
use ovn_scale_test.Client.Ofctl.{dump_flows}
use ovn_scale_test.Ovnclients.{Mixin}
use ovn_scale_test.World.{World, farm, at}
use ovn_scale_test.Scenario.Bind.{delete_ovs_internal_vm}

-- `pattern in text`
unfoldable pub contains : Split.Text → Split.Text → Bool
unfolding starts_with
contains pattern [] = starts_with [] pattern
contains pattern (c ∷ s) = starts_with (c ∷ s) pattern || contains pattern s

-- `filter(None, output.splitlines())`, of which those with `lp` in them are kept.
unfoldable pub port_names : List Split.Text → List String
unfolding contains chars string
port_names [] = []
port_names (l ∷ ls) =
    let rest = port_names ls in if contains (chars "lp") l then string l ∷ rest else rest

unfoldable pub setup_client : Mixin → Option String → Option String → Exec Session (Unit {0})
unfolding set_sandbox set_log_cmd
setup_client m name host_container =
    set_sandbox name m.install_method host_container >> set_log_cmd m.log_cmd

-- `_flush_ovs_internal_ports`
unfoldable pub flush_ovs_internal_ports :
    Mixin → (Sandbox → String) → Sandbox → Exec World (Unit {0})
unfolding setup_client port_names splitlines chars for_each delete_ovs_internal_vm at
flush_ovs_internal_ports m show sandbox = do
  output ← at (farm sandbox.farm) "ovs-vsctl" (
      setup_client m (some (show sandbox)) sandbox.host_container
      >> Vsctl.run "find interface type=internal" ("--bare" ∷ "--columns" ∷ "name" ∷ []) [] [])
  at (farm sandbox.farm) "ovs-ssh" (setup_client m (some sandbox.name) sandbox.host_container)
  for_each (port_names (splitlines (chars output))) (delete_ovs_internal_vm sandbox.farm)

-- The connections of `_cleanup_ovs_internal_ports`: the farm of each sandbox.
unfoldable pub cleanup_conns :
    Mixin → (Sandbox → String) → Dict String → List Sandbox → Exec World (Dict String)
unfolding setup_client enable_batch_mode insert at
cleanup_conns m show conns [] = pure conns
cleanup_conns m show conns (sb ∷ sbs) = do
  at (farm sb.farm) "ovs-ssh"
      (setup_client m (some sb.name) sb.host_container >> enable_batch_mode true)
  at (farm sb.farm) "ovs-vsctl"
      (setup_client m (some (show sb)) sb.host_container >> enable_batch_mode true)
  cleanup_conns m show (insert sb.name sb.farm conns) sbs

-- `_cleanup_ovs_internal_ports`
unfoldable pub cleanup_ovs_internal_ports :
    Mixin → (Sandbox → String) → List Sandbox → Exec World (Unit {0})
unfolding cleanup_conns for_each lookup delete_ovs_internal_vm at
cleanup_ovs_internal_ports m show sandboxes = do
  conns ← cleanup_conns m show [] sandboxes
  w ← get_state
  for_each w.internal_ports λ entry.
      let (port_name, bound) = entry in
      let (lport, sandbox) = bound in
      do
        farm_name ← require key_error (lookup sandbox.name conns)
        delete_ovs_internal_vm farm_name lport.name
  for_each conns λ entry. do
    at (farm entry.1) "ovs-vsctl" Vsctl.flush
    out ← at (farm entry.1) "ovs-ssh" OvsSsh.flush
    pure tt

-- `_list_oflow_count_for_sandboxes`, without the report: the name of a sandbox, a text, is indexed by
-- "host_container" and raises.
unfoldable pub list_oflow_count_for_sandboxes :
    Mixin → Option String → List Sandbox → Exec World (List (String × ℕ))
unfolding setup_client at
list_oflow_count_for_sandboxes m bridge [] = pure []
list_oflow_count_for_sandboxes m bridge (sb ∷ sbs) = do
  host_container ← raise type_error
  count ←
      at (farm sb.farm) "ovs-ofctl"
        (setup_client m (some sb.name) host_container >> dump_flows (default "br-int" bridge))
  rest ← list_oflow_count_for_sandboxes m bridge sbs
  pure ((sb.name, count) ∷ rest)
