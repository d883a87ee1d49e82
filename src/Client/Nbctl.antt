-- ===== src/Client/Nbctl.antt =====
-- ovsclients_impl.py, class OvnNbctl: the client of the northbound database.
pub mod Log
pub mod Commands
pub mod Queries
pub mod Script
pub mod Queue
pub mod Sync
use ovn_scale_test.Prelude.{
  Bool, true, false, List, [], ◌∷◌, ◌++◌, Option, none, some, String, str_eq, if◌then◌else◌,
}
use ovn_scale_test.Python.Text.{concat, join, given, text_of}
use ovn_scale_test.Python.Exec.{Exec, get_state, pure, for_each, ◌>>=◌, ◌>>◌}
use ovn_scale_test.Client.{
  Client, Session, sandbox_method, docker, physical, InstallMethod, log_cmds, queue, set_cmds,
  append_cmd, sudo, ssh_run,
}

-- What `run` puts before the command, for an install method that needs something there.
unfoldable pub cmd_prefix : Client → InstallMethod → List String
cmd_prefix c docker = concat (sudo c ∷ "docker exec ovn-north-database" ∷ []) ∷ []
cmd_prefix c physical =
    if given c.host_container
    then concat (sudo c ∷ "docker exec " ∷ text_of c.host_container ∷ []) ∷ []
    else sudo c ∷ []
cmd_prefix c _ = []

-- `. sandbox/sandbox.rc`, which the method "sandbox" runs first.
unfoldable pub enter_sandbox : Client → InstallMethod → List String
enter_sandbox c sandbox_method = concat (". " ∷ text_of c.sandbox ∷ "/sandbox.rc" ∷ []) ∷ []
enter_sandbox c _ = []

-- The program to call. `none` is the early return of `exit` without a daemon.
unfoldable pub ovn_cmd : Client → String → Option String
ovn_cmd c cmd =
    if str_eq cmd "exit"
    then (if given c.socket then some (concat ("ovs-appctl -t " ∷ text_of c.socket ∷ [])) else none)
    else if given c.socket
    then some (concat ("ovn-nbctl -u " ∷ text_of c.socket ∷ []))
    else some "ovn-nbctl"

-- The lines that `run` adds outside batch mode when a sandbox is set; `false` is the early return.
unfoldable pub add_lines : String → List String → List String → Exec Session Bool
add_lines cmd opts args = do
  s ← get_state
  let c = s.client
  for_each (enter_sandbox c c.install_method) append_cmd
  elim (ovn_cmd c cmd) [
    | none ↦ pure false
    | some program ↦
        append_cmd (join " " (cmd_prefix c c.install_method ++ program ∷ opts ++ cmd ∷ args))
        >> pure true
  ]

-- The end of `run`: the lines go to the host as one script.
unfoldable pub send_lines : Bool → Exec Session String
send_lines raise_on_error = do
  s ← get_state
  log_cmds (join " " (queue s.client))
  out ← ssh_run raise_on_error (join "\n" (queue s.client))
  set_cmds none
  pure out

-- `run`; what it writes to `stdout` is its result.
unfoldable pub run : String → List String → List String → Bool → Exec Session String
run cmd opts args raise_on_error = do
  s ← get_state
  set_cmds (some (queue s.client))
  if s.client.batch_mode
      then (append_cmd (join " " (" -- " ∷ opts ++ cmd ∷ args)) >> pure "")
      else (do
        going ← (if given s.client.sandbox then add_lines cmd opts args else pure true)
        if going then send_lines raise_on_error else pure "")

-- The program and prefix of a flush: one text, to which the queued commands are joined.
unfoldable pub batch_lines : Client → InstallMethod → List String → List String
batch_lines c sandbox_method cmds =
    concat (". " ∷ text_of c.sandbox ∷ "/sandbox.rc" ∷ [])
    ∷ concat ("ovn-nbctl" ∷ join " " cmds ∷ [])
    ∷ []
batch_lines c docker cmds =
    concat (sudo c ∷ "docker exec ovn-north-database ovn-nbctl " ∷ join " " cmds ∷ []) ∷ []
batch_lines c physical cmds =
    concat (
      (if given c.host_container
        then concat (sudo c ∷ "docker exec " ∷ text_of c.host_container ∷ [])
        else sudo c)
      ∷ " "
      ∷ (if given c.socket then concat ("ovn-nbctl -u " ∷ text_of c.socket ∷ []) else "ovn-nbctl")
      ∷ " "
      ∷ join " " cmds
      ∷ [])
    ∷ []
batch_lines c _ cmds = []

-- The lines of the script that `flush` sends.
unfoldable pub flush_lines : Client → List String
flush_lines c = if given c.sandbox then batch_lines c c.install_method (queue c) else []

unfoldable pub flush : Exec Session (Unit {0})
flush = do
  s ← get_state
  elim (queue s.client) [
    | [] ↦ pure tt
    | _ ∷ _ ↦ (do
      log_cmds (join " " (flush_lines s.client))
      out ← ssh_run true (join "\n" (flush_lines s.client))
      set_cmds none)
  ]
