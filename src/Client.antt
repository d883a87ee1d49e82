-- ===== src/Client.antt =====
-- ovsclients_impl.py: the state of the client classes, and what their methods share.
pub mod Nbctl
pub mod Parse
pub mod Sbctl
pub mod OvsSsh
pub mod Vsctl
pub mod Ofctl
use ovn_scale_test.Prelude.{
  ℕ, Bool, true, false, List, [], ◌∷◌, ◌++◌, Option, none, some, String, if◌then◌else◌,
}
use ovn_scale_test.Python.Exec.{Exec, Result, ok, get_state, modify, pure, ◌>>=◌, ◌>>◌}
use ovn_scale_test.Env.{Net, Env, Event, ran, logged, slept, happen, outcome}

-- The three texts that the code compares with, any other, and no attribute at all: the state before
-- the first `set_sandbox`.
pub data InstallMethod : Type 0 where
  sandbox_method docker physical unset : InstallMethod
  other : String → InstallMethod

-- One record for the five classes: a class that lacks an attribute leaves it as it was made. `ssh` is
-- the host that the connection goes to.
pub record Client : Type 0 where
  pub ssh : String
  pub is_root : Bool
  pub sandbox : Option String
  pub install_method : InstallMethod
  pub host_container : Option String
  pub batch_mode : Bool
  pub cmds : Option (List String)
  pub socket : Option String
  pub log_cmd : Bool

pub record Credential : Type 0 where
  pub user : String
  pub host : String

pub record Session : Type 0 where
  pub client : Client
  pub net : Net

-- `__init__`
unfoldable pub init_client : Bool → String → Client
init_client is_root ssh = record {
  ssh = ssh;
  is_root = is_root;
  sandbox = none;
  install_method = unset;
  host_container = none;
  batch_mode = false;
  cmds = none;
  socket = none;
  log_cmd = false;
}

unfoldable pub enable_batch_mode : Bool → Exec Session (Unit {0})
enable_batch_mode value =
    modify (λ s. record s { client = record (s.client) { batch_mode = value } })

unfoldable pub set_sandbox : Option String → InstallMethod → Option String → Exec Session (Unit {0})
set_sandbox sandbox install_method host_container = modify λ s. record s {
  client = record (s.client) {
    sandbox = sandbox;
    install_method = install_method;
    host_container = host_container;
  };
}

unfoldable pub set_daemon_socket : Option String → Exec Session (Unit {0})
set_daemon_socket socket = modify (λ s. record s { client = record (s.client) { socket = socket } })

unfoldable pub set_log_cmd : Bool → Exec Session (Unit {0})
set_log_cmd log_cmd = modify (λ s. record s { client = record (s.client) { log_cmd = log_cmd } })

unfoldable pub log_cmds : String → Exec Session (Unit {0})
unfolding happen
log_cmds text s =
    (ok tt, if s.client.log_cmd then record s { net = happen (logged text) s.net } else s)

-- `self.cmds or []`
abbrev pub queue : Client → List String
queue c = elim c.cmds [ none ↦ [] | some l ↦ l ]

unfoldable pub set_cmds : Option (List String) → Exec Session (Unit {0})
set_cmds cmds = modify (λ s. record s { client = record (s.client) { cmds = cmds } })

-- `self.cmds.append(text)`
unfoldable pub append_cmd : String → Exec Session (Unit {0})
append_cmd text =
    modify
      (λ s. record s { client = record (s.client) { cmds = some (queue s.client ++ text ∷ []) } })

abbrev pub sudo : Client → String
sudo c = if c.is_root then "" else "sudo "

unfoldable pub ssh_run : Bool → String → Exec Session String
unfolding happen
ssh_run raise_on_error script s = (
  outcome raise_on_error (s.net.env.answer s.net.trace s.client.ssh script),
  record s { net = happen (ran s.client.ssh script) s.net },
)

-- `time.sleep`, in milliseconds.
unfoldable pub sleep : ℕ → Exec Session (Unit {0})
unfolding happen
sleep ms = modify (λ s. record s { net = happen (slept ms) s.net })
