-- ===== src/Deploy/Engines.antt =====
-- deployment/sandbox.py, engines/__init__.py and providers/ovn_sandbox_provider.py: how a server is
-- prepared for the sandboxes. rally's connection to a server, and its record of the resources, are
-- events of a trace, and what becomes of a command is a parameter.
pub mod Cleanup
pub mod Nodes
pub mod Records
pub mod Steps
use ovn_scale_test.Prelude.{
  ℕ, Bool, true, false, List, [], ◌∷◌, ◌++◌, map, Option, none, some, String, str_eq, ◌||◌,
  if◌then◌else◌,
}
use ovn_scale_test.Python.Dict.{default}
use ovn_scale_test.Python.Text.{concat, join, given, text_of}
use ovn_scale_test.Python.Exec.{Exec, Result, ok, err, ssh_error, pure, ◌>>=◌, ◌>>◌}

-- `provider.Server` of rally.
pub record Server : Type 0 where
  pub host : String
  pub user : String
  pub key : Option String
  pub password : Option String
  pub port : ℕ

-- What a command reads: nothing, a script of `ovs`, or a text.
pub data Input : Type 0 where
  no_input : Input
  script_file : String → Input
  text_input : String → Input

-- The info of a resource, by its type in consts.py.
pub data Info : Type 0 where
  credential : Server → Info
  controller : String → Option String → Option String → Info
  sandboxes : String → Option String → Info

-- A resource that rally's database returns.
pub record Resource : Type 0 where
  pub id : ℕ
  pub info : Info

pub data Action : Type 0 where
  ran : Server → String → Input → Action
  put_file : Server → String → Action
  added : String → Info → Action
  deleted : ℕ → Action

-- A command succeeds, exits with a status that is not 0, or the connection breaks.
pub data Outcome : Type 0 where
  fine failed broken : Outcome

pub record Site : Type 0 where
  pub outcome : List Action → Action → Outcome
  pub trace : List Action

unfoldable pub act : Action → Site → Site
act a s = record s { trace = s.trace ++ a ∷ [] }

-- What a command comes to.
unfoldable pub come_to : Bool → Action → Site → Outcome → Result (Unit {0}) × Site
unfolding act
come_to strict a s fine = (ok tt, act a s)
come_to strict a s failed = ((if strict then err ssh_error else ok tt), act a s)
come_to strict a s broken = (err ssh_error, act a s)

-- `server.ssh.run(cmd, stdin=input, raise_on_error=strict)`, and `put_file`, for which `strict` holds.
unfoldable pub attempt : Bool → Action → Exec Site (Unit {0})
unfolding come_to
attempt strict a s = come_to strict a s (s.outcome s.trace a)

abbrev pub ovs_repo_default : String
ovs_repo_default = "https://github.com/openvswitch/ovs.git"

abbrev pub ovn_repo_default : String
ovn_repo_default = "https://github.com/ovn-org/ovn.git"

abbrev pub branch_default : String
branch_default = "master"

abbrev pub ovs_user_default : String
ovs_user_default = "rally"

-- The keys of `self.config` that the engines read.
pub record EngineConfig : Type 0 where
  pub ovs_repo : Option String
  pub ovs_branch : Option String
  pub ovs_repo_action : Option String
  pub ovn_repo : Option String
  pub ovn_branch : Option String
  pub ovn_repo_action : Option String
  pub ovs_user : Option String
  pub http_proxy : Option String
  pub https_proxy : Option String
  pub install_method : Option String
  pub host_container : Option String
  pub deployment_name : Option String
  pub controller_cidr : Option String
  pub net_dev : Option String

-- `get_updated_server(server, user=user)`
unfoldable pub get_updated_server : Server → String → Server
get_updated_server server user = record server { user = user }

-- `_prepare`
unfoldable pub prepare : Server → String → Exec Site (Unit {0})
unfolding attempt
prepare server user = do
  attempt true (ran server (concat ("/bin/bash -e -s " ∷ user ∷ [])) (script_file "prepare.sh"))
  if given server.password
      then attempt true
          (ran server "chpasswd" (text_input (concat (user ∷ ":" ∷ text_of server.password ∷ []))))
      else pure tt

-- `_put_file`
unfoldable pub put_script : Server → String → Option String → Exec Site (Unit {0})
unfolding attempt
put_script server filename mode = do
  attempt true (put_file server filename)
  if given mode
      then attempt true
          (ran server (concat ("chmod " ∷ text_of mode ∷ " " ∷ filename ∷ [])) no_input)
      else pure tt

-- The commands that `_install_ovs` sends.
unfoldable pub install_commands : EngineConfig → List String
install_commands c =
    (if given c.http_proxy || given c.https_proxy
      then concat (
          "cat > proxy_env.sh <<EOF\nexport http_proxy="
          ∷ text_of c.http_proxy
          ∷ "\nexport https_proxy="
          ∷ text_of c.https_proxy
          ∷ "\nEOF"
          ∷ [])
        ∷ "echo 'use http proxy in proxy_env.sh'"
        ∷ ". proxy_env.sh"
        ∷ []
      else [])
    ++ concat (
        "./install.sh "
        ∷ default ovs_repo_default c.ovs_repo
        ∷ " "
        ∷ default branch_default c.ovs_branch
        ∷ " "
        ∷ default "none" c.ovs_repo_action
        ∷ " "
        ∷ default ovn_repo_default c.ovn_repo
        ∷ " "
        ∷ default branch_default c.ovn_branch
        ∷ " "
        ∷ default "none" c.ovn_repo_action
        ∷ " "
        ∷ default ovs_user_default c.ovs_user
        ∷ [])
      ∷ []

-- `_install_ovs`
unfoldable pub install_ovs : EngineConfig → Server → Exec Site (Unit {0})
unfolding attempt put_script install_commands get_updated_server
install_ovs c server =
    let ovs_server = get_updated_server server (default ovs_user_default c.ovs_user) in
    do
      put_script ovs_server "install.sh" (some "755")
      put_script ovs_server "ovs-sandbox.sh" (some "755")
      attempt true (ran ovs_server (join "\n" (install_commands c)) no_input)

-- `_deploy`
unfoldable pub deploy_sandbox : EngineConfig → Server → String → Exec Site (Unit {0})
unfolding prepare install_ovs
deploy_sandbox c server install_method =
    if str_eq install_method "sandbox"
    then (prepare server (default ovs_user_default c.ovs_user) >> install_ovs c server)
    else pure tt

-- A credential of the provider's configuration.
pub record ServerConfig : Type 0 where
  pub host : String
  pub user : String
  pub key : Option String
  pub password : Option String
  pub port : Option ℕ

-- `OvsSandboxProvider.create_servers`
unfoldable pub create_servers : List ServerConfig → List Server
create_servers = map (λ c. record {
  host = c.host;
  user = c.user;
  key = c.key;
  password = c.password;
  port = default 22 c.port;
})
