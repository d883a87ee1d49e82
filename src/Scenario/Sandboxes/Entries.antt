-- ===== src/Scenario/Sandboxes/Entries.antt =====
-- scenarios/ovn_sandbox.py: the entry points on controllers and sandboxes.
use ovn_scale_test.Prelude.{
  ℕ, ◌*◌, Bool, true, false, List, [], ◌∷◌, map, Option, none, some, String, str_eq, if◌then◌else◌,
}
use ovn_scale_test.Python.Text.{concat, str}
use ovn_scale_test.Python.Split.{chars, string, split}
use ovn_scale_test.Python.Dict.{Dict, default, lookup}
use ovn_scale_test.Python.Exec.{
  Exec, no_such_config_field, address_error, index_error, require, get_state, pure, ◌>>=◌, ◌>>◌,
}
use ovn_scale_test.Topology.{Sandbox}
use ovn_scale_test.Client.{InstallMethod, ssh_run}
use ovn_scale_test.World.{World, controller, at}
use ovn_scale_test.Deploy.Lookup.{Deployment, get_sandboxes}
use ovn_scale_test.Scenario.Sandboxes.{
  SandboxArgs, Depot, on_world, create_sandbox, start_sandbox, stop_sandbox,
}
use ovn_scale_test.Scenario.Sandboxes.Delete.{delete_sandbox}

-- The `info` of a controller's resource.
pub record ControllerInfo : Type 0 where
  pub ip : String
  pub deployment_name : String
  pub host_container : Option String

-- `controller_cidr.split('/')[0]`
unfoldable pub cidr_address : String → String
unfolding split chars string
cidr_address cidr = elim (split 47 (chars cidr)) [ [] ↦ "" | s ∷ _ ↦ string s ]

-- `_create_controller` of scenarios/sandbox.py: the command, and the resource that is recorded.
unfoldable pub create_controller_at :
    String → Option String → String → String → Exec World ControllerInfo
unfolding concat cidr_address at
create_controller_at dep_name host_container controller_cidr net_dev = do
  out ← at controller "ssh" (
      ssh_run true (
        concat (
          "./ovs-sandbox.sh --controller --ovn                             --controller-ip "
          ∷ controller_cidr ∷ " --device " ∷ net_dev ∷ ";" ∷ [])))
  pure (record {
    ip = cidr_address controller_cidr;
    deployment_name = dep_name;
    host_container = host_container;
  })

-- The entries of the deployment's `config["controller"]`, and of `controller_create_args`.
pub record ControllerConfig : Type 0 where
  pub controller_cidr : Option String
  pub net_dev : Option String
  pub deployment_name : String
  pub host_container : Option String

-- The argument, or what is configured.
abbrev pub or_configured : Option String → Option String → Option String
or_configured (some a) configured = some a
or_configured none configured = configured

-- `create_controller`
unfoldable pub create_controller :
    ControllerConfig → Option String → Option String → Exec World ControllerInfo
unfolding create_controller_at
create_controller config cidr_arg net_dev_arg = do
  controller_cidr ←
      require (no_such_config_field "controller_cidr")
        (or_configured cidr_arg config.controller_cidr)
  net_dev ← require (no_such_config_field "net_dev") (or_configured net_dev_arg config.net_dev)
  create_controller_at config.deployment_name config.host_container controller_cidr net_dev

-- The start of an iteration's sandboxes: `"{}/{}".format(start_cidr.ip + iteration * amount + 1, ...)`.
unfoldable pub shifted_cidr : String → ℕ → ℕ → Exec World String
unfolding concat
shifted_cidr start amount iteration = do
  w ← get_state
  start_cidr ← require address_error (w.net.env.parse_network start)
  part ← require index_error (w.net.env.add_ip start_cidr.ip (iteration * amount))
  first ← require index_error (w.net.env.add_ip part 1)
  pure (concat (w.net.env.show_ip first ∷ "/" ∷ str start_cidr.prefixlen ∷ []))

-- `create_sandbox`: a farm that is named, or that of the iteration. `start_cidr` that is "" is a key
-- that the dict lacks.
unfoldable pub create_sandbox_in :
    InstallMethod
    → Option String
    → Option String
    → Option String
    → ℕ
    → SandboxArgs
    → Exec Depot (Dict String)
unfolding on_world shifted_cidr create_sandbox concat
create_sandbox_in method controller_ip farm farm_prefix iteration args = do
  let start = if str_eq args.start_cidr "" then "1.0.0.0/8" else args.start_cidr
  d ← get_state
  start_cidr ← require address_error (d.world.net.env.parse_network start)
  if str_eq (default "" farm) ""
      then (do
        shifted ← on_world (shifted_cidr start (default 1 args.amount) iteration)
        create_sandbox method controller_ip (concat (default "" farm_prefix ∷ str iteration ∷ []))
            (record args { start_cidr = shifted }))
      else create_sandbox method controller_ip (default "" farm) args

-- A sandbox to delete, from an entry of the dict.
unfoldable pub to_delete : String → Dict String → String → Sandbox
unfolding lookup
to_delete farm sandboxes name = record {
  name = name;
  tag = default "" (lookup name sandboxes);
  farm = farm;
  host_container = none;
}

-- `create_and_delete_sandbox`, without the pause; the farm is that of the arguments.
unfoldable pub create_and_delete_sandbox :
    InstallMethod → Option String → String → SandboxArgs → Exec Depot (Unit {0})
unfolding create_sandbox to_delete delete_sandbox
create_and_delete_sandbox method controller_ip farm args = do
  sandboxes ← create_sandbox method controller_ip farm args
  d ← get_state
  delete_sandbox method
      (map (to_delete farm sandboxes) (d.world.net.env.dict_keys (map (λ e. e.0) sandboxes))) true

-- `_get_sandbox`: those of the context, if it has the key.
unfoldable pub get_sandbox :
    Option (List Sandbox) → List Deployment → String → String → List Sandbox
unfolding get_sandboxes
get_sandbox (some sandboxes) deployments farm tag = sandboxes
get_sandbox none deployments farm tag = get_sandboxes deployments farm tag

-- The arguments of the entry points below.
pub record SandboxSelection : Type 0 where
  pub farm : Option String
  pub tag : Option String
  pub graceful : Option Bool

unfoldable pub selected : Option (List Sandbox) → List Deployment → SandboxSelection → List Sandbox
unfolding get_sandbox
selected sandboxes deployments args =
    get_sandbox sandboxes deployments (default "" args.farm) (default "" args.tag)

-- `delete_sandbox`
unfoldable pub delete_selected :
    InstallMethod
    → Option (List Sandbox)
    → List Deployment
    → SandboxSelection
    → Exec Depot (Unit {0})
unfolding selected delete_sandbox
delete_selected method sandboxes deployments args =
    delete_sandbox method (selected sandboxes deployments args) (default false args.graceful)

-- `start_sandbox`
unfoldable pub start_selected :
    InstallMethod
    → Option (List Sandbox)
    → List Deployment
    → SandboxSelection
    → Exec World (Unit {0})
unfolding selected start_sandbox
start_selected method sandboxes deployments args =
    start_sandbox method (selected sandboxes deployments args)

-- `stop_sandbox`
unfoldable pub stop_selected :
    InstallMethod
    → Option (List Sandbox)
    → List Deployment
    → SandboxSelection
    → Exec World (Unit {0})
unfolding selected stop_sandbox
stop_selected method sandboxes deployments args =
    stop_sandbox method (selected sandboxes deployments args) (default false args.graceful)

-- `stop_and_start_sandbox`
unfoldable pub stop_and_start_selected :
    InstallMethod
    → Option (List Sandbox)
    → List Deployment
    → SandboxSelection
    → Exec World (Unit {0})
unfolding selected stop_sandbox start_sandbox
stop_and_start_selected method sandboxes deployments args = do
  stop_sandbox method (selected sandboxes deployments args) (default false args.graceful)
  start_sandbox method (selected sandboxes deployments args)
