-- ===== src/Client/Nbctl/Queries.antt =====
-- ovsclients_impl.py, class OvnNbctl: the commands whose output is read, and the daemon.
use Prim.Native.String.{◌++◌ as ◌append◌}
use ovn_scale_test.Prelude.{
  Bool, true, false, List, [], ◌∷◌, map, Option, none, some, String, str_eq, ltb, length,
  if◌then◌else◌,
}
use ovn_scale_test.Python.Text.{concat, join}
use ovn_scale_test.Python.Split.{chars, string, split, strip, rstrip}
use ovn_scale_test.Python.Exec.{Exec, key_error, require, get_state, pure, lift, ◌>>=◌}
use ovn_scale_test.Client.{Session, set_daemon_socket}
use ovn_scale_test.Client.Nbctl.{run}
use ovn_scale_test.Client.Nbctl.Commands.{when_given}
use ovn_scale_test.Client.Parse.{ShownSwitch, get_lswitch_info, parse_lswitch_list}

unfoldable pub lswitch_list : Exec Session (List String)
lswitch_list = do output ← run "ls-list" [] [] true; lift (parse_lswitch_list output)

unfoldable pub lrouter_list : Exec Session (List String)
lrouter_list = do output ← run "lr-list" [] [] true; lift (parse_lswitch_list output)

unfoldable pub show : Option String → Exec Session (List ShownSwitch)
show lswitch = do
  output ← run "show" [] (when_given lswitch) true
  s ← get_state
  lift (get_lswitch_info s.net.env.parse_network (chars output))

-- `nbctld_config`; `none` is a key that the dict lacks.
pub record DaemonConfig : Type 0 where
  pub daemon_mode : Bool
  pub remote : Option String
  pub prot : Option String
  pub privkey : Option String
  pub cert : Option String
  pub cacert : Option String

-- `[ip.strip() for ip in ovn_remote.split('-')]`
unfoldable pub central_ips : String → List String
central_ips remote = map (λ ip. string (strip ip)) (split b'-' (chars remote))

unfoldable pub ssl_options : DaemonConfig → Exec Session (List String)
ssl_options config = do
  privkey ← require key_error config.privkey
  cert ← require key_error config.cert
  cacert ← require key_error config.cacert
  pure (concat ("-p " ∷ privkey ∷ " -c " ∷ cert ∷ " -C " ∷ cacert ∷ []) ∷ [])

-- The options that name the databases, when there is more than one address.
unfoldable pub remote_options : DaemonConfig → String → Exec Session (List String)
unfolding ssl_options central_ips
remote_options config remote = do
  prot ← require key_error config.prot
  let ips = central_ips remote
  let db = join "," (map (λ r. concat (prot ∷ ":" ∷ r ∷ ":6641" ∷ [])) ips)
  if ltb 1 (length ips)
      then (do
        ssl ← (if str_eq prot "ssl" then ssl_options config else pure [])
        pure (◌append◌ "--db=" db ∷ ssl))
      else pure []

unfoldable pub start_daemon : DaemonConfig → Exec Session String
unfolding remote_options
start_daemon config = do
  more ← elim config.remote [ none ↦ pure [] | some remote ↦ remote_options config remote ]
  out ← run "" ("--detach" ∷ "--pidfile" ∷ "--log-file" ∷ more) [] false
  pure (string (rstrip (chars out)))

unfoldable pub stop_daemon : Exec Session (Unit {0})
unfolding set_daemon_socket
stop_daemon = do out ← run "exit" [] [] false; set_daemon_socket none
