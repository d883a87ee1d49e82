-- ===== src/Scenario/Conns.antt =====
-- scenarios/ovn.py: `_ssh_conns`, the connections by the name of a sandbox, and commands that are run
-- on the nodes. A connection is the one client of its farm, which the sandboxes of a farm share.
pub mod Sharing
use Prim.Native.String.{◌++◌ as ◌append◌}
use ovn_scale_test.Prelude.{
  ℕ, Bool, true, false, not, ◌&&◌, List, [], ◌∷◌, Option, none, some, String, str_eq, if◌then◌else◌,
}
use ovn_scale_test.Python.Text.{concat}
use ovn_scale_test.Python.Split.{chars, string, rstrip}
use ovn_scale_test.Python.Dict.{Dict, lookup, insert}
use ovn_scale_test.Python.Exec.{
  Exec, Result, key_error, require, get_state, modify, pure, for_each, ◌>>=◌, ◌>>◌,
}
use ovn_scale_test.Env.{happen, slept}
use ovn_scale_test.Topology.{Sandbox}
use ovn_scale_test.Client.{Session, set_sandbox, set_log_cmd, enable_batch_mode}
use ovn_scale_test.Client.OvsSsh
use ovn_scale_test.Ovnclients.{Mixin}
use ovn_scale_test.World.{World, controller, farm, at}
use ovn_scale_test.Scenario.Bind.{ssh}

-- A scenario with its connections: the farm of each sandbox name, once they are built.
pub record Scene : Type 0 where
  pub world : World
  pub ssh_conns : Option (Dict String)

-- What does not touch the connections.
abbrev pub in_world : {A : Type 0} → Exec World A → Exec Scene A
in_world {A = A} method s = restore (method s.world)
  where
    restore : Result A × World → Result A × Scene
    restore (r, w) = (r, record s { world = w })

-- The client of a farm is set up for a sandbox on it.
unfoldable pub conn_setup : Mixin → Sandbox → Exec Session (Unit {0})
unfolding set_sandbox set_log_cmd enable_batch_mode
conn_setup m sandbox = do
  set_sandbox (some sandbox.name) m.install_method sandbox.host_container
  set_log_cmd m.log_cmd
  enable_batch_mode true

-- The loop of `_build_conn_hash`.
unfoldable pub build_conns : Mixin → Dict String → List Sandbox → Exec World (Dict String)
unfolding insert conn_setup at
build_conns m conns [] = pure conns
build_conns m conns (sb ∷ sbs) = do
  at (farm sb.farm) "ovs-ssh" (conn_setup m sb)
  build_conns m (insert sb.name sb.farm conns) sbs

-- `_build_conn_hash`, where there is a context: once only.
unfoldable pub build_conn_hash : Mixin → List Sandbox → Exec Scene (Dict String)
unfolding build_conns
build_conn_hash m sandboxes = do
  s ← get_state
  elim s.ssh_conns [
    | some conns ↦ pure conns
    | none ↦ (do
      conns ← in_world (build_conns m [] sandboxes)
      modify (λ t. record t { ssh_conns = some conns })
      pure conns)
  ]

-- `_get_conn`, and what is then done with the connection.
unfoldable pub on_conn :
    {A : Type 0} → Mixin → List Sandbox → String → Exec Session A → Exec Scene A
unfolding build_conn_hash lookup at
on_conn m sandboxes sb_name method = do
  conns ← build_conn_hash m sandboxes
  farm_name ← require key_error (lookup sb_name conns)
  in_world (at (farm farm_name) "ovs-ssh" method)

-- One round of `_flush_conns`.
unfoldable pub flush_conn : List String → Exec Session (Unit {0})
unfolding for_each ssh
flush_conn cmds = do for_each cmds (λ cmd. ssh (cmd ∷ [])); out ← OvsSsh.flush; pure tt

-- `_flush_conns`: nothing is sent before the connections are built.
unfoldable pub flush_conns : List String → Exec Scene (Unit {0})
unfolding for_each flush_conn at
flush_conns cmds = do
  s ← get_state
  elim s.ssh_conns [
    | none ↦ pure tt
    | some conns ↦
        in_world (for_each conns (λ entry. at (farm entry.1) "ovs-ssh" (flush_conn cmds)))
  ]

-- `time.sleep`, in milliseconds.
unfoldable pub pause : ℕ → Exec World (Unit {0})
unfolding happen
pause ms = modify (λ w. record w { net = happen (slept ms) w.net })

-- `runCmd`: the output of the command, without the blanks at its end.
unfoldable pub run_cmd : String → String → String → Bool → Exec Session String
unfolding enable_batch_mode concat rstrip chars string
run_cmd cmd pid_opt pid background_opt = do
  enable_batch_mode false
  let with_pid =
      if not (str_eq pid_opt "") && not (str_eq pid "")
      then concat (cmd ∷ " " ∷ pid_opt ∷ " " ∷ pid ∷ [])
      else cmd
  out ← OvsSsh.run (if background_opt then ◌append◌ with_pid " &" else with_pid)
  pure (string (rstrip (chars out)))

-- The command on a client that is set up: with the number of a process, if one is named.
unfoldable pub run_with_pid : String → String → String → Bool → Exec Session (Unit {0})
unfolding run_cmd
run_with_pid cmd pid_opt pid_proc_name background_opt = do
  pid ←
      (if str_eq pid_proc_name ""
        then pure ""
        else run_cmd (◌append◌ "pidof -s " pid_proc_name) "" "" false)
  out ← run_cmd cmd pid_opt pid background_opt
  pure tt

-- `runFarmCmd`
unfoldable pub run_farm_cmd :
    Mixin → Sandbox → String → String → String → Bool → Exec World (Unit {0})
unfolding set_sandbox set_log_cmd run_with_pid at
run_farm_cmd m sandbox cmd pid_opt pid_proc_name background_opt =
    at (farm sandbox.farm) "ovs-ssh" (do
      set_sandbox (some sandbox.name) m.install_method sandbox.host_container
      set_log_cmd m.log_cmd
      run_with_pid cmd pid_opt pid_proc_name background_opt)

-- `runControllerCmd`
unfoldable pub run_controller_cmd : Mixin → String → String → String → Bool → Exec World (Unit {0})
unfolding set_sandbox set_log_cmd run_with_pid at
run_controller_cmd m cmd pid_opt pid_proc_name background_opt = at controller "ovs-ssh" (do
  set_sandbox (some "controller-sandbox") m.install_method m.host_container
  set_log_cmd m.log_cmd
  run_with_pid cmd pid_opt pid_proc_name background_opt)
