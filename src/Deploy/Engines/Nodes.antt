-- ===== src/Deploy/Engines/Nodes.antt =====
-- deployment/engines: ovn_sandbox_controller.py, ovn_sandbox_farm.py and ovn_multihost.py.
use ovn_scale_test.Prelude.{
  ℕ, suc, true, false, not, List, [], ◌∷◌, Option, some, String, str_eq, ◌||◌, if◌then◌else◌,
}
use mathlib.Core.List.{reverse}
use ovn_scale_test.Python.Dict.{default}
use ovn_scale_test.Python.Text.{concat, text_of, str}
use ovn_scale_test.Python.Split.{chars, string, split}
use ovn_scale_test.Python.Exec.{
  Exec, Result, ok, err, index_error, attribute_error, system_exit, pure, raise, require, modify,
  for_each, ◌>>=◌, ◌>>◌,
}
use ovn_scale_test.Deploy.Engines.{
  Server, ServerConfig, no_input, Info, credential, controller, sandboxes, Resource, ran, added,
  deleted, Site, EngineConfig, act, attempt, get_updated_server, deploy_sandbox, create_servers,
  ovs_user_default,
}

-- `self.get_provider().create_servers()[0]`
unfoldable pub first_server : List ServerConfig → Exec Site Server
unfolding create_servers
first_server credentials = elim (create_servers credentials) [
  | [] ↦ raise index_error
  | server ∷ _ ↦ pure server
]

-- `self.deployment.add_resource`
unfoldable pub add_resource : String → Info → Exec Site (Unit {0})
unfolding act
add_resource provider_name info = modify (act (added provider_name info))

-- The command that makes the controller, by install method.
unfoldable pub start_controller : EngineConfig → Server → String → Exec Site (Unit {0})
unfolding attempt
start_controller c ovs_server install_method =
    if str_eq install_method "docker" || str_eq install_method "physical"
    then pure tt
    else if str_eq install_method "sandbox"
    then attempt true (
        ran ovs_server
          (concat (
            "./ovs-sandbox.sh --controller --ovn                             --controller-ip "
            ∷ text_of c.controller_cidr
            ∷ " --device "
            ∷ default "eth0" c.net_dev
            ∷ ";"
            ∷ []))
          no_input)
    else raise (system_exit 1)

-- `cidr.split('/')[0]`
unfoldable pub before_slash : String → String
unfolding split chars string
before_slash cidr = elim (split b'/' (chars cidr)) [ [] ↦ "" | piece ∷ _ ↦ string piece ]

-- `OvnSandboxControllerEngine.deploy`, with the name of the deployment.
unfoldable pub deploy_controller : EngineConfig → String → List ServerConfig → Exec Site (Unit {0})
unfolding first_server deploy_sandbox start_controller add_resource before_slash get_updated_server
deploy_controller c name credentials = do
  server ← first_server credentials
  deploy_sandbox c server (default "sandbox" c.install_method)
  let deployment_name = if str_eq name "" then c.deployment_name else some name
  let ovs_server = get_updated_server server (default ovs_user_default c.ovs_user)
  start_controller c ovs_server (default "sandbox" c.install_method)
  add_resource "OvnSandboxControllerEngine" (credential ovs_server)
  cidr ← require attribute_error c.controller_cidr
  add_resource "OvnSandboxControllerEngine"
      (controller (before_slash cidr) deployment_name c.host_container)

-- `OvnSandboxFarmEngine.deploy`
unfoldable pub deploy_farm : EngineConfig → String → List ServerConfig → Exec Site (Unit {0})
unfolding first_server deploy_sandbox add_resource get_updated_server
deploy_farm c name credentials = do
  server ← first_server credentials
  deploy_sandbox c server (default "sandbox" c.install_method)
  add_resource "OvnSandboxFarmEngine"
      (credential (get_updated_server server (default ovs_user_default c.ovs_user)))
  add_resource name (sandboxes name c.host_container)

abbrev pub cleanup_command : String
cleanup_command = "[ -x ovs-sandbox.sh ] && ./ovs-sandbox.sh --cleanup-all"

-- What `OvnSandboxControllerEngine.cleanup` does for a resource before it is deleted.
unfoldable pub clean_controller : String → Info → Exec Site (Unit {0})
unfolding attempt
clean_controller install_method (credential server) =
    if str_eq install_method "sandbox"
    then attempt false (ran server cleanup_command no_input)
    else pure tt
clean_controller install_method (controller _ _ _) = pure tt
clean_controller install_method (sandboxes _ _) = pure tt

-- One round of the loop of `cleanup`.
unfoldable pub clean_resource : (Info → Exec Site (Unit {0})) → Resource → Exec Site (Unit {0})
unfolding act
clean_resource clean resource = clean resource.info >> modify (act (deleted resource.id))

-- `OvnSandboxControllerEngine.cleanup`, with the resources of the deployment.
unfoldable pub cleanup_controller : EngineConfig → List Resource → Exec Site (Unit {0})
unfolding clean_controller clean_resource for_each
cleanup_controller c resources =
    for_each resources (clean_resource (clean_controller (default "sandbox" c.install_method)))

-- `try: body except Exception: log`; a SystemExit is no Exception.
unfoldable pub ignore_errors : Exec Site (Unit {0}) → Exec Site (Unit {0})
ignore_errors body s = caught (body s)
  where
    caught : Result (Unit {0}) × Site → Result (Unit {0}) × Site
    caught (ok u, t) = (ok u, t)
    caught (err (system_exit n), t) = (err (system_exit n), t)
    caught (err e, t) = (ok tt, t)

-- What `OvnSandboxFarmEngine.cleanup` does for a resource before it is deleted.
unfoldable pub clean_farm : String → Info → Exec Site (Unit {0})
unfolding attempt ignore_errors
clean_farm install_method (credential server) =
    if not (str_eq install_method "physical")
    then ignore_errors (attempt false (ran server cleanup_command no_input))
    else pure tt
clean_farm install_method (controller _ _ _) = pure tt
clean_farm install_method (sandboxes _ _) = pure tt

-- `OvnSandboxFarmEngine.cleanup`
unfoldable pub cleanup_farm : EngineConfig → List Resource → Exec Site (Unit {0})
unfolding clean_farm clean_resource for_each
cleanup_farm c resources =
    for_each resources (clean_resource (clean_farm (default "sandbox" c.install_method)))

-- A sub-deployment of `OvnMultihostEngine`: its own configuration, and the name it may have there.
pub record NodeConfig (C : Type 0) : Type 0 where
  pub config : C
  pub deployment_name : Option String

-- The loop of `OvnMultihostEngine.deploy` over the nodes; `deploy_node` makes one through rally.
unfoldable pub deploy_nodes :
    {C N K S : Type 0}
    → (C → String → Exec S (N × K))
    → String
    → ℕ
    → List (NodeConfig C)
    → Exec S (List N)
unfolding str
deploy_nodes deploy_node name i [] = pure []
deploy_nodes deploy_node name i (n ∷ ns) = do
  made ← deploy_node n.config (default (concat (name ∷ "-node-" ∷ str i ∷ [])) n.deployment_name)
  nodes ← deploy_nodes deploy_node name (suc i) ns
  pure (made.0 ∷ nodes)

-- `OvnMultihostEngine.deploy`: the credentials of the controller, and the nodes. `update_status` sets
-- the status of the deployment in rally's database.
unfoldable pub deploy_multihost :
    {C N K S : Type 0}
    → Exec S (Unit {0})
    → (C → String → Exec S (N × K))
    → String
    → NodeConfig C
    → Option (List (NodeConfig C))
    → Exec S (K × List N)
unfolding deploy_nodes
deploy_multihost update_status deploy_node name ctl nodes = do
  update_status
  made ← deploy_node ctl.config (default (concat (name ∷ "-controller" ∷ [])) ctl.deployment_name)
  others ← deploy_nodes deploy_node name 0 (default [] nodes)
  pure (made.1, others)

-- `OvnMultihostEngine.cleanup`, with the sub-deployments of the database.
unfoldable pub cleanup_multihost :
    {D S : Type 0} → (D → Exec S (Unit {0})) → List D → Exec S (Unit {0})
unfolding for_each
cleanup_multihost destroy subdeploys = for_each (reverse subdeploys) destroy
