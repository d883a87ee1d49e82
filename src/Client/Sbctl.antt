-- ===== src/Client/Sbctl.antt =====
-- ovsclients_impl.py, class OvnSbctl: the client of the southbound database.
pub mod Calm
use Prim.Native.String.{◌++◌ as ◌append◌}
use ovn_scale_test.Prelude.{
  ℕ, Bool, true, false, List, [], ◌∷◌, ◌++◌, none, some, String, ◌==◌, length, if◌then◌else◌,
}
use ovn_scale_test.Python.Text.{concat, join, given, text_of}
use ovn_scale_test.Python.Split.{chars, string, splitlines, rstrip, int10}
use ovn_scale_test.Python.Exec.{
  Exec, value_error, require, get_state, pure, lift, for_each, ◌>>=◌, ◌>>◌,
}
use ovn_scale_test.Values.{Column, set_colval_args}
use ovn_scale_test.Client.{
  Client, Session, InstallMethod, sandbox_method, docker, physical, log_cmds, queue, set_cmds,
  append_cmd, sudo, ssh_run, enable_batch_mode,
}
use ovn_scale_test.Client.Nbctl.{cmd_prefix, enter_sandbox}

-- `self.sbctl_cmd`
abbrev pub sbctl_cmd : String
sbctl_cmd = "ovn-sbctl --no-leader-only"

unfoldable pub add_lines : String → List String → List String → Exec Session (Unit {0})
add_lines cmd opts args = do
  s ← get_state
  let c = s.client
  for_each (enter_sandbox c c.install_method) append_cmd
  append_cmd (join " " (cmd_prefix c c.install_method ++ sbctl_cmd ∷ opts ++ cmd ∷ args))

unfoldable pub send_lines : Exec Session String
send_lines = do
  s ← get_state
  log_cmds (join " " (queue s.client))
  out ← ssh_run true (join "\n" (queue s.client))
  set_cmds none
  pure out

unfoldable pub run : String → List String → List String → Exec Session String
unfolding add_lines send_lines
run cmd opts args = do
  s ← get_state
  set_cmds (some (queue s.client))
  if s.client.batch_mode
      then (append_cmd (join " " (" -- " ∷ opts ++ cmd ∷ args)) >> pure "")
      else (do (if given s.client.sandbox then add_lines cmd opts args else pure tt); send_lines)

unfoldable pub batch_lines : Client → InstallMethod → List String → List String
batch_lines c sandbox_method cmds =
    concat (". " ∷ text_of c.sandbox ∷ "/sandbox.rc" ∷ [])
    ∷ concat (sbctl_cmd ∷ join " " cmds ∷ [])
    ∷ []
batch_lines c docker cmds =
    concat (sudo c ∷ "docker exec ovn-north-database " ∷ sbctl_cmd ∷ join " " cmds ∷ []) ∷ []
batch_lines c physical cmds =
    (if given c.host_container
      then concat (
          sudo c ∷ "docker exec " ∷ text_of c.host_container ∷ " " ∷ sbctl_cmd ∷ join " " cmds ∷ [])
      else concat (sudo c ∷ sbctl_cmd ∷ join " " cmds ∷ []))
    ∷ []
batch_lines c _ cmds = []

unfoldable pub flush_lines : Client → List String
unfolding batch_lines
flush_lines c = if given c.sandbox then batch_lines c c.install_method (queue c) else []

unfoldable pub flush : Exec Session (Unit {0})
unfolding flush_lines
flush = do
  s ← get_state
  elim (queue s.client) [
    | [] ↦ pure tt
    | _ ∷ _ ↦ (do
      log_cmds (join " " (flush_lines s.client))
      out ← ssh_run true (join "\n" (flush_lines s.client))
      set_cmds none)
  ]

unfoldable pub db_set : String → String → List Column → Exec Session (Unit {0})
db_set table row cols = do
  args ← lift (set_colval_args cols)
  out ← run "set" [] (table ∷ row ∷ args)
  pure tt

-- The two queries go straight to the connection, past the queue.
unfoldable pub count_igmp_flows : String → String → Exec Session ℕ
count_igmp_flows lswitch network_prefix = do
  out ← ssh_run true (
      concat (
        sbctl_cmd ∷ " list datapath_binding | grep " ∷ lswitch
        ∷ " -B 1 | grep uuid | cut -f 2 -d ':'" ∷ []))
  count ← ssh_run true (
      concat (
        sbctl_cmd
        ∷ " list logical_flow | grep 'dst == "
        ∷ network_prefix
        ∷ "' -B 1 | grep "
        ∷ string (rstrip (chars out))
        ∷ " -B 1 | wc -l"
        ∷ []))
  require value_error (int10 (chars count))

-- Flush and leave batch mode, if it is on.
unfoldable pub leave_batch : Exec Session (Unit {0})
unfolding enable_batch_mode
leave_batch = do
  s ← get_state
  if s.client.batch_mode then (flush >> enable_batch_mode false) else pure tt

unfoldable pub sync : String → Exec Session (Unit {0})
unfolding leave_batch enable_batch_mode
sync wait = do
  s ← get_state
  leave_batch
  out ← run "sync" (◌append◌ "--wait=" wait ∷ []) []
  enable_batch_mode s.client.batch_mode

-- Whether exactly one chassis has the name.
unfoldable pub chassis_bound : String → Exec Session Bool
unfolding leave_batch enable_batch_mode splitlines chars
chassis_bound chassis_name = do
  s ← get_state
  leave_batch
  out ← run "find chassis" ("--bare" ∷ "--columns _uuid" ∷ []) (◌append◌ "name=" chassis_name ∷ [])
  enable_batch_mode s.client.batch_mode
  pure (length (splitlines (chars out)) == 1)
