-- ===== src/Scenario/Northbound/Switches.antt =====
-- scenarios/ovn_nb.py: the entry points on switches, ports, ACLs and address sets. `/` is the division of
-- integers of Python 2.
use ovn_scale_test.Prelude.{ℕ, List, [], ◌∷◌, map, Option, none, some, String, if◌then◌else◌}
use ovn_scale_test.Python.Split.{chars, starts_with}
use ovn_scale_test.Python.Dict.{default}
use ovn_scale_test.Python.Exec.{Exec, pure, for_each, ◌>>=◌, ◌>>◌}
use ovn_scale_test.Topology.{Lport, Lswitch}
use ovn_scale_test.Client.{Session}
use ovn_scale_test.Client.Nbctl.Queries.{lswitch_list}
use ovn_scale_test.Ovnclients.{Mixin, get_ovn_controller}
use ovn_scale_test.Ovnclients.Switches.{LswitchArgs, create_lswitches}
use ovn_scale_test.Scenario.Lports.{
  LportArgs, delete_lswitch, delete_lport, list_lports, create_switch_lports, create_lports,
}
use ovn_scale_test.Scenario.Acls.{
  AclArgs, create_acl, list_acl, delete_all_acls_in_lswitches, create_address_set,
  remove_address_set,
}

-- `create_and_list_lswitches`
unfoldable pub create_and_list_lswitches : Mixin → LswitchArgs → Exec Session (Unit {0})
unfolding get_ovn_controller
create_and_list_lswitches m args = do
  lswitches ← create_lswitches m args none
  get_ovn_controller m
  names ← lswitch_list
  pure tt

abbrev pub names : List Lswitch → List String
names = map (λ (w : Lswitch). w.name)

-- `create_and_delete_lswitches`
unfoldable pub create_and_delete_lswitches : Mixin → LswitchArgs → Exec Session (Unit {0})
unfolding delete_lswitch
create_and_delete_lswitches m args = do
  lswitches ← create_lswitches m args none
  delete_lswitch m (names lswitches)

-- The switches whose name begins with the prefix: `name.find(prefix) == 0`.
unfoldable pub matched_lswitches : String → List Lswitch → List Lswitch
unfolding starts_with chars
matched_lswitches prefix [] = []
matched_lswitches prefix (w ∷ ws) =
    let rest = matched_lswitches prefix ws in
    if starts_with (chars w.name) (chars prefix) then w ∷ rest else rest

-- `cleanup_lswitches`
unfoldable pub cleanup_lswitches : Mixin → Option String → List Lswitch → Exec Session (Unit {0})
unfolding matched_lswitches delete_lswitch
cleanup_lswitches m prefix lswitches =
    delete_lswitch m (names (matched_lswitches (default "" prefix) lswitches))

-- `create_and_list_lports`
unfoldable pub create_and_list_lports :
    Mixin → LswitchArgs → LportArgs → ℕ → Exec Session (Unit {0})
unfolding list_lports
create_and_list_lports m lswitch_args lport_args lports_per_lswitch = do
  lswitches ← create_lswitches m lswitch_args none
  lports ← create_lports m lport_args lports_per_lswitch 1 none 0 lswitches
  list_lports m lswitches

-- `create_and_delete_lports`
unfoldable pub create_and_delete_lports :
    Mixin → LswitchArgs → LportArgs → ℕ → Exec Session (Unit {0})
unfolding delete_lport delete_lswitch
create_and_delete_lports m lswitch_args lport_args lports_per_lswitch = do
  lswitches ← create_lswitches m lswitch_args none
  lports ← create_lports m lport_args lports_per_lswitch 1 none 0 lswitches
  delete_lport m lports
  delete_lswitch m (names lswitches)

-- The ports of each new switch, by name.
unfoldable pub with_lports :
    Mixin → LportArgs → ℕ → List Lswitch → Exec Session (List (String × List String))
with_lports m args lports_per_lswitch [] = pure []
with_lports m args lports_per_lswitch (w ∷ ws) = do
  lports ← create_switch_lports m args w lports_per_lswitch 1 none
  rest ← with_lports m args lports_per_lswitch ws
  pure ((w.name, map (λ (p : Lport). p.name) lports) ∷ rest)

-- `get_or_create_lswitch_and_lport`; `known` are the switches of the context.
unfoldable pub get_or_create_lswitch_and_lport :
    Mixin
    → List (String × List String)
    → Option LswitchArgs
    → LportArgs
    → ℕ
    → Exec Session (List (String × List String))
unfolding with_lports
get_or_create_lswitch_and_lport m known lswitch_args lport_args lports_per_lswitch =
    elim lswitch_args [
      | none ↦ pure known
      | some args ↦ (do
        lswitches ← create_lswitches m args none
        with_lports m lport_args lports_per_lswitch lswitches)
    ]

unfoldable pub create_acls :
    Mixin → AclArgs → ℕ → List (String × List String) → Exec Session (Unit {0})
unfolding for_each create_acl
create_acls m args acls_per_port lswitches =
    for_each lswitches (λ w. create_acl m w.0 w.1 args acls_per_port)

-- `create_and_list_acls`
unfoldable pub create_and_list_acls :
    Mixin
    → List (String × List String)
    → Option LswitchArgs
    → LportArgs
    → ℕ
    → AclArgs
    → ℕ
    → Exec Session (Unit {0})
unfolding get_or_create_lswitch_and_lport create_acls list_acl
create_and_list_acls m known lswitch_args lport_args lports_per_lswitch acl_args acls_per_port = do
  lswitches ← get_or_create_lswitch_and_lport m known lswitch_args lport_args lports_per_lswitch
  create_acls m acl_args acls_per_port lswitches
  list_acl m (map (λ w. w.0) lswitches)

-- `cleanup_acls`
unfoldable pub cleanup_acls : Mixin → List Lswitch → Exec Session (Unit {0})
unfolding delete_all_acls_in_lswitches
cleanup_acls m lswitches = delete_all_acls_in_lswitches m (names lswitches)

-- `create_and_delete_acls`
unfoldable pub create_and_delete_acls :
    Mixin
    → List (String × List String)
    → Option LswitchArgs
    → LportArgs
    → ℕ
    → AclArgs
    → ℕ
    → Exec Session (Unit {0})
unfolding get_or_create_lswitch_and_lport create_acls delete_all_acls_in_lswitches
create_and_delete_acls m known lswitch_args lport_args lports_per_lswitch acl_args acls_per_port =
    do
      lswitches ← get_or_create_lswitch_and_lport m known lswitch_args lport_args lports_per_lswitch
      create_acls m acl_args acls_per_port lswitches
      delete_all_acls_in_lswitches m (map (λ w. w.0) lswitches)

-- `create_and_remove_address_set`
unfoldable pub create_and_remove_address_set : Mixin → String → String → Exec Session (Unit {0})
unfolding create_address_set remove_address_set
create_and_remove_address_set m name address_list =
    create_address_set m name address_list >> remove_address_set m name
