-- ===== src/Scenario/Acls.antt =====
-- scenarios/ovn.py: access control lists, port groups and address sets.
pub mod Scripts
use Prim.Native.String.{◌++◌ as ◌append◌}
use ovn_scale_test.Prelude.{
  ℕ, ◌+◌, Bool, true, false, List, [], ◌∷◌, Option, none, String, str_eq, range, if◌then◌else◌,
}
use ovn_scale_test.Python.Text.{concat, str}
use ovn_scale_test.Python.Split
use ovn_scale_test.Python.Split.{chars, string, splitlines}
use ovn_scale_test.Python.Dict.{default}
use ovn_scale_test.Python.Exec.{Exec, name_error, raise, pure, for_each, ◌>>=◌, ◌>>◌}
use ovn_scale_test.Values.{column, scalar, text}
use ovn_scale_test.Client.{Session, enable_batch_mode}
use ovn_scale_test.Client.Nbctl.{run, flush}
use ovn_scale_test.Client.Nbctl.Commands.{
  get, create, add, remove, destroy, acl_add, acl_list, acl_del, port_group_add, port_group_set,
}
use ovn_scale_test.Ovnclients.{Mixin, get_ovn_controller}

-- `acl_create_args`. A match is the function that its template is: of the direction, the port, the
-- address set and the port number. `none` is a key that the dict lacks.
pub record AclArgs : Type 0 where
  pub direction : Option String
  pub priority : Option ℕ
  pub action : Option String
  pub address_set : Option String
  pub type : Option String
  pub match : Option (String → String → String → ℕ → String)

-- The default of `match`, with the blanks that the broken line of the source leaves in it.
unfoldable pub default_match : String → String → String → ℕ → String
default_match direction lport address_set l4_port = concat (
    direction
    ∷ " == "
    ∷ lport
    ∷ " && "
    ∷ "                                             ip4 && udp && udp.src == "
    ∷ str l4_port
    ∷ [])

-- The ACLs of one port.
unfoldable pub create_port_acls : AclArgs → String → ℕ → String → Exec Session (Unit {0})
create_port_acls args sw acls_per_port lport = do
  let direction = default "to-lport" args.direction
  let p = if str_eq direction "from-lport" then "inport" else "outport"
  for_each (range acls_per_port) (λ i.
      acl_add sw direction (default 1000 args.priority)
        ((default default_match args.match) p lport (default "" args.address_set) (100 + i))
        (default "allow" args.action) false (default "switch" args.type))
  flush

-- `_create_acl`
unfoldable pub create_acl : Mixin → String → List String → AclArgs → ℕ → Exec Session (Unit {0})
unfolding get_ovn_controller enable_batch_mode for_each
create_acl m sw lports args acls_per_port = do
  get_ovn_controller m
  enable_batch_mode true
  for_each lports (create_port_acls args sw acls_per_port)
  enable_batch_mode false

unfoldable pub list_acl : Mixin → List String → Exec Session (Unit {0})
unfolding get_ovn_controller for_each
list_acl m lswitches = do get_ovn_controller m; for_each lswitches (λ sw. acl_list sw "switch")

-- `_delete_acls`: the client is set up again, with batch mode as it was.
unfoldable pub delete_acls :
    Mixin → String → Option String → Option String → Option String → Bool → Exec Session (Unit {0})
unfolding get_ovn_controller
delete_acls m sw direction priority match flushed = do
  get_ovn_controller m
  acl_del sw direction priority match "switch"
  if flushed then flush else pure tt

unfoldable pub delete_all_acls_in_lswitches : Mixin → List String → Exec Session (Unit {0})
unfolding get_ovn_controller enable_batch_mode for_each delete_acls
delete_all_acls_in_lswitches m lswitches = do
  get_ovn_controller m
  enable_batch_mode true
  for_each lswitches (λ sw. delete_acls m sw none none none false)
  flush
  enable_batch_mode false

unfoldable pub add_port_group : Mixin → String → String → Exec Session (Unit {0})
unfolding get_ovn_controller
add_port_group m port_group port_list = do get_ovn_controller m; port_group_add port_group port_list

unfoldable pub set_port_group : Mixin → String → String → Exec Session (Unit {0})
unfolding get_ovn_controller
set_port_group m port_group port_list = do get_ovn_controller m; port_group_set port_group port_list

unfoldable pub port_group_add_port : Mixin → String → String → Exec Session (Unit {0})
unfolding get_ovn_controller enable_batch_mode
port_group_add_port m port_group port = do
  get_ovn_controller m
  enable_batch_mode false
  port_uuid ← get "logical_switch_port" port ("_uuid" ∷ [])
  add "port_group" port_group
      (record { col = "ports"; op = " "; val = scalar (text port_uuid) } ∷ [])

-- `_port_group_del` names a variable `port_list` that is not there.
unfoldable pub delete_port_group : Mixin → String → Exec Session (Unit {0})
unfolding get_ovn_controller
delete_port_group m port_group = do get_ovn_controller m; raise name_error

abbrev pub quoted : String → String
quoted s = concat ("\"" ∷ s ∷ "\"" ∷ [])

unfoldable pub create_address_set : Mixin → String → String → Exec Session (Unit {0})
unfolding get_ovn_controller
create_address_set m set_name address_list = do
  get_ovn_controller m
  create "Address_Set" (◌append◌ "name=" (quoted set_name))
      (column "addresses" (scalar (text (quoted address_list))) ∷ [])

unfoldable pub address_set_add_addrs : Mixin → String → String → Exec Session (Unit {0})
unfolding get_ovn_controller
address_set_add_addrs m set_name address_list = do
  get_ovn_controller m
  add "Address_Set" (quoted set_name)
      (record { col = "addresses"; op = " "; val = scalar (text (quoted address_list)) } ∷ [])

unfoldable pub address_set_remove_addrs : Mixin → String → String → Exec Session (Unit {0})
unfolding get_ovn_controller
address_set_remove_addrs m set_name address_list = do
  get_ovn_controller m
  remove "Address_Set" (quoted set_name)
      (record { col = "addresses"; op = " "; val = scalar (text (quoted address_list)) } ∷ [])

unfoldable pub list_address_set : Mixin → Exec Session (List String)
unfolding get_ovn_controller
list_address_set m = do
  get_ovn_controller m
  output ← run "list address_set" ("--bare" ∷ "--columns" ∷ "name" ∷ []) [] true
  pure (strings (splitlines (chars output)))
  where
    strings : List Split.Text → List String
    strings [] = []
    strings (l ∷ ls) = string l ∷ strings ls

unfoldable pub remove_address_set : Mixin → String → Exec Session (Unit {0})
unfolding get_ovn_controller
remove_address_set m set_name = do get_ovn_controller m; destroy "Address_Set" set_name

unfoldable pub get_address_set : Mixin → String → Exec Session String
unfolding get_ovn_controller
get_address_set m set_name = do get_ovn_controller m; get "Address_Set" set_name ("addresses" ∷ [])
