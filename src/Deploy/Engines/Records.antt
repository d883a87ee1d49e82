-- ===== src/Deploy/Engines/Records.antt =====
-- What the engines of deployment/engines leave in rally's record of the resources.
use ovn_scale_test.Prelude.{
  Bool, true, List, [], ◌∷◌, Option, some, String, str_eq, ◌≡◌, refl, sym, ◌∙◌, Bool-cases, inl,
  inr, if◌then◌else◌, ◌||◌,
}
use ovn_scale_test.Python.Dict.{default}
use ovn_scale_test.Python.Text.{given, join}
use ovn_scale_test.Deploy.Engines.{
  Server, ServerConfig, credential, controller, sandboxes, ran, Site, EngineConfig, prepare,
  put_script, install_ovs, install_commands, no_input, get_updated_server, deploy_sandbox,
  create_servers, ovs_user_default,
}
use ovn_scale_test.Deploy.Engines.Nodes.{
  first_server, start_controller, before_slash, deploy_controller, deploy_farm,
}
use ovn_scale_test.Deploy.Engines.Steps.{
  Quiet, Recorded, attempt-Quiet, bind-Quiet, if-Quiet, pure-Quiet, Quiet-first, two-Records,
  found-Records,
}

prepare-Quiet : (server : Server) (user : String) → Quiet (prepare server user)
unfolding prepare
prepare-Quiet server user =
    bind-Quiet _ _ (attempt-Quiet _ refl)
      (λ _. if-Quiet (given server.password) _ _ (attempt-Quiet _ refl) pure-Quiet)

put_script-Quiet :
    (server : Server) (name : String) (mode : Option String) → Quiet (put_script server name mode)
unfolding put_script
put_script-Quiet server name mode =
    bind-Quiet _ _ (attempt-Quiet _ refl)
      (λ _. if-Quiet (given mode) _ _ (attempt-Quiet _ refl) pure-Quiet)

install_ovs-Quiet : (c : EngineConfig) (server : Server) → Quiet (install_ovs c server)
unfolding install_ovs
install_ovs-Quiet c server =
    let server' = get_updated_server server (default ovs_user_default c.ovs_user) in
    bind-Quiet _ _ (put_script-Quiet server' "install.sh" (some "755")) (λ _.
      bind-Quiet _ _ (put_script-Quiet server' "ovs-sandbox.sh" (some "755"))
        (λ _. attempt-Quiet (ran server' (join "\n" (install_commands c)) no_input) refl))

deploy_sandbox-Quiet :
    (c : EngineConfig) (server : Server) (method : String) → Quiet (deploy_sandbox c server method)
unfolding deploy_sandbox
deploy_sandbox-Quiet c server method =
    if-Quiet (str_eq method "sandbox") _ _
      (bind-Quiet _ _ (prepare-Quiet server _) (λ _. install_ovs-Quiet c server)) pure-Quiet

-- The install methods that a controller may have.
abbrev pub known_method : String → Bool
known_method m = (str_eq m "docker" || str_eq m "physical") || str_eq m "sandbox"

start_controller-Quiet :
    (c : EngineConfig) (server : Server) (method : String)
    → known_method method ≡ true
    → Quiet (start_controller c server method)
unfolding start_controller
start_controller-Quiet c server method known =
    elim (Bool-cases (str_eq method "docker" || str_eq method "physical")) [
      | inl h ↦ rw h pure-Quiet
      | inr h ↦
          let sandboxed : str_eq method "sandbox" ≡ true = sym (rw h refl) ∙ known in
          rw (h, sandboxed) (attempt-Quiet _ refl)
    ]

-- The server of the first credential, as the user of the sandboxes.
abbrev pub ovs_server : EngineConfig → ServerConfig → Server
ovs_server c first = record {
  host = first.host;
  user = default ovs_user_default c.ovs_user;
  key = first.key;
  password = first.password;
  port = default 22 first.port;
}

-- The deployment of a farm returns, and has then recorded the credential of the first server with the
-- user of the sandboxes, and a farm with no sandboxes; or a command is not fine, and it raises an
-- SSHError with nothing recorded.
pub deploy_farm-Recorded :
    (c : EngineConfig) (name : String) (first : ServerConfig) (more : List ServerConfig) (s : Site)
    → Recorded
        (credential (ovs_server c first) ∷ sandboxes name c.host_container ∷ [])
        s
        (deploy_farm c name (first ∷ more) s)
unfolding deploy_farm first_server create_servers get_updated_server
deploy_farm-Recorded c name first more =
    (Quiet-first _ _ _ (deploy_sandbox-Quiet c _ _) (two-Records _ _ _ _)).ends

-- Where its configuration has a `controller_cidr` and an install method that is known, the deployment
-- of a controller returns, and has then recorded the credential of the first server with the user of
-- the sandboxes, and the controller; or a command is not fine, and it raises an SSHError with nothing
-- recorded.
pub deploy_controller-Recorded :
    (c : EngineConfig) (name cidr : String) (first : ServerConfig) (more : List ServerConfig)
    (s : Site)
    → c.controller_cidr ≡ some cidr
    → known_method (default "sandbox" c.install_method) ≡ true
    → Recorded
        (credential (ovs_server c first)
          ∷ controller
              (before_slash cidr)
              (if str_eq name "" then c.deployment_name else some name)
              c.host_container
          ∷ [])
        s
        (deploy_controller c name (first ∷ more) s)
unfolding deploy_controller first_server create_servers get_updated_server
deploy_controller-Recorded c name cidr first more s h known =
    let method = default "sandbox" c.install_method in
    let plain : Server = record {
      host = first.host;
      user = first.user;
      key = first.key;
      password = first.password;
      port = default 22 first.port;
    } in
    (Quiet-first _ _ _ (deploy_sandbox-Quiet c plain method) (
        Quiet-first _ _ _ (start_controller-Quiet c (ovs_server c first) method known) (
          found-Records "OvnSandboxControllerEngine" (credential (ovs_server c first))
            (λ x.
              controller (before_slash x) (if str_eq name "" then c.deployment_name else some name)
                c.host_container)
            c.controller_cidr cidr h))).ends
      s
