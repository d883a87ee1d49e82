-- ===== src/Contexts.antt =====
-- context/: what a task sets up before its scenarios run, and what the scenarios find.
pub mod Laws
pub mod Hosts
use ovn_scale_test.Prelude.{
  ℕ, Bool, false, List, [], ◌∷◌, ◌++◌, Option, none, some, String, str_eq, ◌==◌, ◌||◌,
  if◌then◌else◌,
}
use ovn_scale_test.Python.Dict.{Dict, default, insert}
use ovn_scale_test.Python.Exec.{
  Exec, Result, ok, err, key_error, index_error, require, resource_not_found, modify, pure, ◌>>=◌,
  ◌>>◌,
}
use ovn_scale_test.Topology.{Lswitch, Lrouter, Sandbox}
use ovn_scale_test.Client.{Credential, InstallMethod, sandbox_method}
use ovn_scale_test.Client.Nbctl.Queries.{DaemonConfig, show, start_daemon, stop_daemon}
use ovn_scale_test.Client.Parse.{ShownSwitch}
use ovn_scale_test.Ovnclients.{Mixin, get_ovn_controller}
use ovn_scale_test.Ovnclients.Switches.{LswitchArgs, create_lswitches}
use ovn_scale_test.Ovnclients.Routers.{RouterArgs, create_routers, connect_networks_to_routers}
use ovn_scale_test.World.{World, MultihostInfo, controller, at}
use ovn_scale_test.Deploy.Lookup.{SandboxesInfo, Deployment, passes}

-- A deployment of rally's database: its name, the credentials among its resources, and the install
-- method of its configuration, if it has one.
pub record HostDeployment : Type 0 where
  pub name : String
  pub credentials : List Credential
  pub install_method : Option InstallMethod

-- One round of the loop of `get_ovn_multihost_info`.
unfoldable pub add_host : String → HostDeployment → Credential → MultihostInfo → MultihostInfo
unfolding insert
add_host controller_name dep cred info =
    let found =
      if str_eq dep.name controller_name
      then record info { controller = insert dep.name cred info.controller }
      else record info { farms = insert dep.name cred info.farms } in
    record found { install_method = default info.install_method dep.install_method }

-- The loop: a deployment with no credential ends in an IndexError.
unfoldable pub add_hosts : String → List HostDeployment → MultihostInfo → Result MultihostInfo
unfolding add_host
add_hosts controller_name [] info = ok info
add_hosts controller_name (dep ∷ deps) info = elim dep.credentials [
  | [] ↦ err index_error
  | cred ∷ _ ↦ add_hosts controller_name deps (add_host controller_name dep cred info)
]

-- `get_ovn_multihost_info`
unfoldable pub get_ovn_multihost_info : List HostDeployment → String → Result MultihostInfo
unfolding add_hosts
get_ovn_multihost_info deployments controller_name =
    add_hosts controller_name deployments
      (record { controller = []; farms = []; install_method = sandbox_method })

-- What `OvnMultihost.setup` puts in the context.
pub record MultihostContext (I : Type 0) : Type 0 where
  pub multihost : MultihostInfo
  pub controller_info : I
  pub log_cmd : Bool

-- `OvnMultihost.setup`, with the resources of the controller's deployment; no resource is an error.
unfoldable pub setup_multihost :
    {I : Type 0} → List HostDeployment → String → List I → Option Bool → Result (MultihostContext I)
unfolding get_ovn_multihost_info
setup_multihost deployments controller_name resources log_cmd =
    elim (get_ovn_multihost_info deployments controller_name) [
      | err e ↦ err e
      | ok info ↦ elim resources [
        | [] ↦ err (resource_not_found "controller")
        | res ∷ _ ↦
            ok (record { multihost = info; controller_info = res; log_cmd = default false log_cmd })
      ]
    ]

-- `Datapath.setup`: the routers and switches of `context["datapaths"]`.
unfoldable pub setup_datapath :
    Mixin → RouterArgs → LswitchArgs → ℕ → Exec World (List Lrouter × List Lswitch)
unfolding create_routers connect_networks_to_routers at
setup_datapath m router_args lswitch_args networks_per_router = do
  made ← at controller "ovn-nbctl" (do
    router_amount ← require key_error router_args.amount
    routers ← (if router_amount == 0 then pure [] else create_routers m router_args)
    lswitch_amount ← require key_error lswitch_args.amount
    lswitches ← (if lswitch_amount == 0 then pure [] else create_lswitches m lswitch_args none)
    (if networks_per_router == 0
        then pure tt
        else connect_networks_to_routers m lswitches routers networks_per_router)
    pure (routers, lswitches))
  modify (λ w. record w { internal_ports = [] })
  pure made

-- `OvnNorthboundContext.setup`: the switches of `context["ovn-nb"]`.
unfoldable pub setup_nb : Mixin → Exec World (List ShownSwitch)
unfolding get_ovn_controller at
setup_nb m = do
  lswitches ← at controller "ovn-nbctl" (get_ovn_controller m >> show none)
  modify (λ w. record w { internal_ports = [] })
  pure lswitches

-- `OvnNbctlDaemonContext.setup`: the socket of `context["daemon_socket"]`.
unfoldable pub setup_daemon : Mixin → DaemonConfig → Exec World (Option String)
unfolding get_ovn_controller at
setup_daemon m config =
    if config.daemon_mode
    then (do
      socket ← at controller "ovn-nbctl" (get_ovn_controller m >> start_daemon config)
      pure (some socket))
    else pure none

-- `OvnNbctlDaemonContext.cleanup`
unfoldable pub cleanup_daemon : Mixin → DaemonConfig → Exec World (Unit {0})
unfolding get_ovn_controller at
cleanup_daemon m config =
    if config.daemon_mode
    then at controller "ovn-nbctl" (get_ovn_controller m >> stop_daemon)
    else pure tt

-- `tag == "all" or v == tag`
unfoldable pub tagged : String → String → Bool
tagged tag found = str_eq tag "all" || str_eq found tag

unfoldable pub context_sandboxes_of : SandboxesInfo → String → Dict String → List Sandbox
unfolding tagged
context_sandboxes_of info tag [] = []
context_sandboxes_of info tag ((k, v) ∷ rest) =
    let others = context_sandboxes_of info tag rest in
    if tagged tag v
    then record { name = k; tag = v; farm = info.farm; host_container = info.host_container }
      ∷ others
    else others

-- `Sandbox.setup`
unfoldable pub setup_sandboxes : List Deployment → String → String → List Sandbox
unfolding context_sandboxes_of passes
setup_sandboxes [] farm tag = []
setup_sandboxes (none ∷ deps) farm tag = setup_sandboxes deps farm tag
setup_sandboxes (some info ∷ deps) farm tag =
    let rest = setup_sandboxes deps farm tag in
    if passes farm info.farm then context_sandboxes_of info tag info.sandboxes ++ rest else rest
