-- ===== src/Client/Nbctl/Commands.antt =====
-- ovsclients_impl.py, class OvnNbctl, and DdCtlMixin of ovsclients.py: the commands.
use Prim.Native.String.{◌++◌ as ◌append◌}
use ovn_scale_test.Prelude.{
  ℕ, Bool, true, false, List, [], ◌∷◌, ◌++◌, map, Option, none, String, str_eq, if◌then◌else◌, ◌≡◌,
}
use ovn_scale_test.Python.Text.{concat, join, str, given, text_of}
use ovn_scale_test.Python.Split.{quote, backslash_blank}
use ovn_scale_test.Python.Exec.{Exec, ok, get_state, pure, lift, for_each, ◌>>=◌, ◌>>◌}
use ovn_scale_test.Values.{Column, set_colval_args}
use ovn_scale_test.Topology.{Lport, Lswitch, Lrouter}
use ovn_scale_test.Client.{Session, enable_batch_mode}
use ovn_scale_test.Client.Nbctl.{run, flush}
use ovn_scale_test.Client.Nbctl.Queue.{batch_text, queued, run-batched}

-- `self.run(cmd, opts, args)` where nobody reads what it prints.
unfoldable pub call : String → List String → List String → Exec Session (Unit {0})
call cmd opts args = do out ← run cmd opts args true; pure tt

-- DdCtlMixin
unfoldable pub get : String → String → List String → Exec Session String
get table row columns = run "get" [] (table ∷ row ∷ columns) true

unfoldable pub list_rows : String → List String → Exec Session (Unit {0})
list_rows table rows = call "list" [] (table ∷ rows)

-- `wait_until`, `create`, `add`, `remove`, `set`: one command with column values.
unfoldable pub with_columns : String → String → String → List Column → Exec Session (Unit {0})
with_columns cmd table row cols = do
  args ← lift (set_colval_args cols)
  call cmd [] (table ∷ row ∷ args)

unfoldable pub wait_until : String → String → List Column → Exec Session (Unit {0})
wait_until = with_columns "wait-until"

unfoldable pub create : String → String → List Column → Exec Session (Unit {0})
create = with_columns "create"

unfoldable pub add : String → String → List Column → Exec Session (Unit {0})
add = with_columns "add"

unfoldable pub remove : String → String → List Column → Exec Session (Unit {0})
remove = with_columns "remove"

unfoldable pub set : String → String → List Column → Exec Session (Unit {0})
set = with_columns "set"

unfoldable pub destroy : String → String → Exec Session (Unit {0})
destroy table row = call "destroy" [] (table ∷ row ∷ [])

unfoldable pub db_set : String → String → List Column → Exec Session (Unit {0})
unfolding with_columns
db_set = with_columns "set"

unfoldable pub lrouter_port_add : String → String → String → String → Exec Session Lrouter
lrouter_port_add lrouter name mac ip_addr = do
  call "lrp-add" [] (lrouter ∷ name ∷ mac ∷ ip_addr ∷ [])
  pure (record { name = name })

unfoldable pub lrouter_add : String → Exec Session Lrouter
unfolding call
lrouter_add name = do call "lr-add" [] (name ∷ []); pure (record { name = name })

unfoldable pub lrouter_route_add :
    String → String → String → Option String → Exec Session (Unit {0})
lrouter_route_add lrouter dest gw policy =
    call "lr-route-add"
      (if given policy then concat ("--policy=" ∷ text_of policy ∷ []) ∷ [] else [])
      (lrouter ∷ dest ∷ gw ∷ [])

unfoldable pub lrouter_nat_add : String → String → String → String → Exec Session (Unit {0})
lrouter_nat_add lrouter nat_type external_ip logical_ip =
    call "lr-nat-add" [] (lrouter ∷ nat_type ∷ external_ip ∷ logical_ip ∷ [])

-- One argument of `other_config`.
unfoldable pub config_arg : String × String → String
unfolding concat
config_arg (c, v) = concat ("other_config:" ∷ c ∷ "=\"" ∷ v ∷ "\"" ∷ [])

unfoldable pub lswitch_add : String → List (String × String) → Exec Session Lswitch
unfolding call for_each
lswitch_add name other_cfg = do
  call "ls-add" [] (name ∷ [])
  s ← get_state
  for_each (s.net.env.dict_items other_cfg)
      (λ kv. call "set" [] ("Logical_Switch" ∷ name ∷ config_arg kv ∷ []))
  pure (record { name = name; cidr = none })

unfoldable pub lswitch_del : String → Exec Session (Unit {0})
lswitch_del name = call "ls-del" [] (name ∷ [])

unfoldable pub lrouter_del : String → Exec Session (Unit {0})
lrouter_del name = call "lr-del" [] (name ∷ [])

unfoldable pub lswitch_port_add :
    String → String → String → String → String → Option String → Exec Session Lport
unfolding call
lswitch_port_add lswitch name mac ip gw ext_gw = do
  call "lsp-add" [] (lswitch ∷ name ∷ [])
  pure (record { name = name; mac = mac; ip = ip; gw = gw; ext_gw = ext_gw })

unfoldable pub lport_list : String → Exec Session (Unit {0})
lport_list lswitch = call "lsp-list" [] (lswitch ∷ [])

unfoldable pub lport_del : String → Exec Session (Unit {0})
lport_del name = call "lsp-del" [] (name ∷ [])

-- `filter(lambda x: x, words)`
unfoldable pub truthy : List String → List String
truthy [] = []
truthy (w ∷ ws) = if str_eq w "" then truthy ws else w ∷ truthy ws

-- The arguments of `lsp-set-addresses`: one for each address that has a part.
unfoldable pub address_args : List (List String) → List String
unfolding truthy
address_args addresses = truthy (map (λ i. join backslash_blank (truthy i)) addresses)

unfoldable pub lport_set_addresses : String → List (List String) → Exec Session (Unit {0})
unfolding call address_args
lport_set_addresses name addresses = call "lsp-set-addresses" [] (name ∷ address_args addresses)

unfoldable pub lport_set_port_security : String → List String → Exec Session (Unit {0})
unfolding call
lport_set_port_security name addresses = call "lsp-set-port-security" [] (name ∷ addresses)

unfoldable pub lport_set_type : String → String → Exec Session (Unit {0})
lport_set_type name type = call "lsp-set-type" [] (name ∷ type ∷ [])

unfoldable pub lport_set_options : String → List String → Exec Session (Unit {0})
lport_set_options name options = call "lsp-set-options" [] (name ∷ options)

unfoldable pub acl_add :
    String → String → ℕ → String → String → Bool → String → Exec Session (Unit {0})
acl_add lswitch direction priority match action log entity =
    call "acl-add" ((if log then "--log" ∷ [] else []) ++ concat ("--type=" ∷ entity ∷ []) ∷ [])
      (lswitch ∷ direction ∷ str priority ∷ quote match ∷ action ∷ [])

unfoldable pub acl_list : String → String → Exec Session (Unit {0})
acl_list lswitch entity = call "acl-list" (◌append◌ "--type=" entity ∷ []) (lswitch ∷ [])

-- An argument that is left out where it is falsy.
abbrev pub when_given : Option String → List String
when_given o = if given o then text_of o ∷ [] else []

unfoldable pub acl_del :
    String → Option String → Option String → Option String → String → Exec Session (Unit {0})
acl_del lswitch direction priority match entity =
    call "acl-del" (◌append◌ "--type=" entity ∷ [])
      (lswitch ∷ (when_given direction ++ (when_given priority ++ when_given match)))

unfoldable pub port_group_add : String → String → Exec Session (Unit {0})
port_group_add port_group port_list = call "pg-add" [] (port_group ∷ port_list ∷ [])

unfoldable pub port_group_set : String → String → Exec Session (Unit {0})
port_group_set port_group port_list = call "pg-set-ports" [] (port_group ∷ port_list ∷ [])

unfoldable pub port_group_del : String → Exec Session (Unit {0})
port_group_del port_group = call "pg-del" [] (port_group ∷ [])

-- `sync` is always flushed; batch mode is as before afterwards, unless an exception passes.
unfoldable pub sync : String → Exec Session (Unit {0})
sync wait = do
  s ← get_state
  (if s.client.batch_mode then (flush >> enable_batch_mode false) else pure tt)
  call "sync" (◌append◌ "--wait=" wait ∷ []) []
  enable_batch_mode s.client.batch_mode

-- In batch mode a command is queued, and nothing is sent.
pub call-batched :
    (cmd : String) (opts args : List String) (s : Session)
    → s.client.batch_mode ≡ true
    → call cmd opts args s ≡ (ok tt, queued s (batch_text cmd opts args ∷ []))
unfolding call
call-batched cmd opts args s b = rw (run-batched cmd opts args true s b)
