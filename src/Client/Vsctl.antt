-- ===== src/Client/Vsctl.antt =====
-- ovsclients_impl.py, class OvsVsctl: ports and interfaces of a sandbox's switch.
use ovn_scale_test.Prelude.{
  Bool, true, false, ◌||◌, List, [], ◌∷◌, ◌++◌, none, some, String, if◌then◌else◌,
}
use ovn_scale_test.Python.Text.{concat, join, given, text_of}
use ovn_scale_test.Python.Exec.{
  Exec, attribute_error, raise, get_state, pure, lift, for_each, ◌>>=◌, ◌>>◌,
}
use ovn_scale_test.Values.{Column, set_colval_args}
use ovn_scale_test.Client.{
  Client, Session, InstallMethod, sandbox_method, docker, unset, log_cmds, queue, set_cmds,
  append_cmd, sudo, ssh_run, enable_batch_mode,
}

abbrev pub is_docker : InstallMethod → Bool
is_docker docker = true
is_docker _ = false

-- The lines for the sandbox itself: its settings, or the whole command in its container.
unfoldable pub sandbox_lines :
    Client → InstallMethod → String → List String → List String → List String
sandbox_lines c sandbox_method cmd args extras =
    concat (". " ∷ text_of c.sandbox ∷ "/sandbox.rc" ∷ []) ∷ []
sandbox_lines c docker cmd args extras =
    concat (
      sudo c
      ∷ "docker exec "
      ∷ text_of c.sandbox
      ∷ " ovs-vsctl "
      ∷ cmd
      ∷ " "
      ∷ join " " args
      ∷ " "
      ∷ join " " extras
      ∷ [])
    ∷ []
sandbox_lines c _ cmd args extras = []

abbrev pub program : Client → String
program c =
    if given c.host_container
    then concat (sudo c ∷ "docker exec " ∷ text_of c.host_container ∷ " ovs-vsctl" ∷ [])
    else "ovs-vsctl"

-- What `run` does outside batch mode.
unfoldable pub run_now : String → List String → List String → List String → Exec Session String
unfolding sandbox_lines
run_now cmd opts args extras = do
  s ← get_state
  let c = s.client
  for_each (if given c.sandbox then sandbox_lines c c.install_method cmd args extras else [])
      append_cmd
  (if is_docker c.install_method
      then pure tt
      else append_cmd (join " " (program c ∷ opts ++ cmd ∷ args ++ extras)))
  t ← get_state
  log_cmds (join " " (queue t.client))
  out ← ssh_run true (join "\n" (queue t.client))
  set_cmds none
  pure out

-- `run`, once `set_sandbox` has been called: in a container batch mode is switched off.
unfoldable pub run_set : String → List String → List String → List String → Exec Session String
unfolding enable_batch_mode
run_set cmd opts args extras = do
  s ← get_state
  (if is_docker s.client.install_method || given s.client.host_container
      then enable_batch_mode false
      else pure tt)
  t ← get_state
  if t.client.batch_mode
      then (append_cmd (join " " (" -- " ∷ opts ++ cmd ∷ args ++ extras)) >> pure "")
      else run_now cmd opts args extras

unfoldable pub run : String → List String → List String → List String → Exec Session String
run cmd opts args extras = do
  s ← get_state
  set_cmds (some (queue s.client))
  elim s.client.install_method [ unset ↦ raise attribute_error | _ ↦ run_set cmd opts args extras ]

-- Only the method "sandbox" has lines here; for any other an empty script is sent.
unfoldable pub flush_lines : Client → InstallMethod → List String → List String
flush_lines c sandbox_method cmds =
    if given c.sandbox
    then concat (". " ∷ text_of c.sandbox ∷ "/sandbox.rc" ∷ [])
      ∷ concat ("ovs-vsctl" ∷ join " " cmds ∷ [])
      ∷ []
    else []
flush_lines c _ cmds = []

unfoldable pub flush : Exec Session (Unit {0})
unfolding flush_lines
flush = do
  s ← get_state
  elim s.client.cmds [
    | none ↦ pure tt
    | some cmds ↦ (do
      log_cmds (join " " (flush_lines s.client s.client.install_method cmds))
      out ← ssh_run true (join "\n" (flush_lines s.client s.client.install_method cmds))
      set_cmds none)
  ]

unfoldable pub add_port : String → String → Bool → Bool → Exec Session (Unit {0})
add_port bridge port may_exist internal = do
  out ← run "add-port" (if may_exist then "--may-exist" ∷ [] else []) (bridge ∷ port ∷ []) (
      if internal then "--" ∷ concat ("set interface " ∷ port ∷ " type=internal" ∷ []) ∷ [] else [])
  pure tt

unfoldable pub del_port : String → Exec Session (Unit {0})
del_port port = do out ← run "del-port" [] (port ∷ []) []; pure tt

unfoldable pub db_set : String → String → List Column → Exec Session (Unit {0})
db_set table row cols = do
  args ← lift (set_colval_args cols)
  out ← run "set" [] (table ∷ row ∷ args) []
  pure tt
