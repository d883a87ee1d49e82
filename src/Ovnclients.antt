-- ===== src/Ovnclients.antt =====
-- ovnclients.py, class OvnClientMixin: what the contexts and the scenarios do to the northbound
-- database. The methods act on the one client that `controller_client("ovn-nbctl")` returns.
pub mod Batches
pub mod Switches
pub mod Routers
pub mod Gateways
use Prim.Native.String.{String}
use ovn_scale_test.Prelude.{ℕ, ◌-◌, Bool, Option, some, ltb, if◌then◌else◌}
use ovn_scale_test.Python.Exec.{
  Exec, Result, ok, err, address_error, get_state, modify, pure, ◌>>=◌, ◌>>◌,
}
use ovn_scale_test.Env.{IpNetwork, draw}
use ovn_scale_test.Client.{InstallMethod, Session, set_sandbox, set_daemon_socket, set_log_cmd}

-- The attributes of the mixin and the entries of `self.context` that its methods read.
pub record Mixin : Type 0 where
  pub install_method : InstallMethod
  pub host_container : Option String
  pub daemon_socket : Option String
  pub log_cmd : Bool
  pub task_uuid : String

-- `_get_ovn_controller`
unfoldable pub get_ovn_controller : Mixin → Exec Session (Unit {0})
unfolding set_sandbox set_daemon_socket set_log_cmd
get_ovn_controller m = do
  set_sandbox (some "controller-sandbox") m.install_method m.host_container
  set_daemon_socket m.daemon_socket
  set_log_cmd m.log_cmd

-- `_get_gw_ip`: netaddr raises on a negative address.
unfoldable pub get_gw_ip : IpNetwork → ℕ → Result ℕ
get_gw_ip network_cidr offset =
    if ltb network_cidr.last offset then err address_error else ok (network_cidr.last - offset)

-- `generate_random_name` of rally, at the attribute RESOURCE_NAME_FORMAT.
unfoldable pub generate_random_name : String → Exec Session String
unfolding draw
generate_random_name format = do
  s ← get_state
  modify (λ t. record t { net = draw t.net })
  pure (s.net.env.random_name s.net.draws format)
