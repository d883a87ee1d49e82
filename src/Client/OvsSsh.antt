-- ===== src/Client/OvsSsh.antt =====
-- ovsclients_impl.py, class OvsSsh: plain commands on a farm node or the controller.
use ovn_scale_test.Prelude.{true, [], ◌∷◌, none, some, String, if◌then◌else◌}
use ovn_scale_test.Python.Text.{concat, join, given, text_of}
use ovn_scale_test.Python.Exec.{Exec, attribute_error, raise, get_state, pure, ◌>>=◌, ◌>>◌}
use ovn_scale_test.Client.{
  Client, Session, unset, log_cmds, queue, set_cmds, append_cmd, sudo, ssh_run,
}

-- The line for a command: inside the container of the host, if it has one.
unfoldable pub ssh_line : Client → String → String
ssh_line c cmd =
    if given c.host_container
    then concat (sudo c ∷ "docker exec " ∷ text_of c.host_container ∷ " " ∷ cmd ∷ [])
    else cmd

-- `flush`: a queue that is there is sent, be it empty; it is forgotten before it is sent.
unfoldable pub flush : Exec Session String
flush = do
  s ← get_state
  elim s.client.cmds [
    | none ↦ pure ""
    | some cmds ↦ (do set_cmds none; log_cmds (join "\n" cmds); ssh_run true (join "\n" cmds))
  ]

-- The rest of `run`, once the attribute `host_container` is there.
unfoldable pub run_line : String → Exec Session String
unfolding ssh_line
run_line cmd = do
  s ← get_state
  append_cmd (ssh_line s.client cmd)
  if s.client.batch_mode then pure "" else flush

-- Before the first `set_sandbox` there is no attribute `host_container`.
unfoldable pub run : String → Exec Session String
run cmd = do
  s ← get_state
  set_cmds (some (queue s.client))
  elim s.client.install_method [ unset ↦ raise attribute_error | _ ↦ run_line cmd ]

unfoldable pub run_immediate : String → Exec Session (Unit {0})
run_immediate cmd = do log_cmds cmd; out ← ssh_run true cmd; pure tt
