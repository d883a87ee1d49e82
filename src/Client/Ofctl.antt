-- ===== src/Client/Ofctl.antt =====
-- ovsclients_impl.py, class OvsOfctl: it keeps no queue.
use ovn_scale_test.Prelude.{ℕ, true, List, [], ◌∷◌, ◌++◌, String, length, if◌then◌else◌}
use ovn_scale_test.Python.Text.{concat, join, given, text_of}
use ovn_scale_test.Python.Split.{chars, split, strip}
use ovn_scale_test.Python.Exec.{Exec, attribute_error, raise, get_state, pure, ◌>>=◌, ◌>>◌}
use ovn_scale_test.Client.{
  Client, Session, InstallMethod, sandbox_method, physical, unset, log_cmds, sudo, ssh_run,
}

unfoldable pub ofctl_prefix : Client → InstallMethod → String
ofctl_prefix c physical =
    if given c.host_container
    then concat (sudo c ∷ "docker exec " ∷ text_of c.host_container ∷ " ovs-ofctl" ∷ [])
    else "ovs-ofctl"
ofctl_prefix c _ = "ovs-ofctl"

unfoldable pub enter : Client → InstallMethod → List String
enter c sandbox_method =
    if given c.sandbox then concat (". " ∷ text_of c.sandbox ∷ "/sandbox.rc" ∷ []) ∷ [] else []
enter c _ = []

unfoldable pub lines : Client → String → List String → List String → List String
unfolding ofctl_prefix enter
lines c cmd opts args =
    enter c c.install_method ++ join " " (ofctl_prefix c c.install_method ∷ opts ++ cmd ∷ args) ∷ []

unfoldable pub run : String → List String → List String → Exec Session String
unfolding lines
run cmd opts args = do
  s ← get_state
  elim s.client.install_method [
    | unset ↦ raise attribute_error
    | _ ↦ (do
      log_cmds (join " " (lines s.client cmd opts args))
      ssh_run true (join "\n" (lines s.client cmd opts args)))
  ]

-- The number of lines, of which a text with no newline has one.
unfoldable pub dump_flows : String → Exec Session ℕ
dump_flows bridge = do
  out ← run "dump-flows" [] (bridge ∷ [])
  pure (length (split 10 (strip (chars out))))
