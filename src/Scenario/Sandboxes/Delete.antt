-- ===== src/Scenario/Sandboxes/Delete.antt =====
-- scenarios/sandbox.py `_delete_sandbox`: the sandboxes are grouped by farm, and each farm removes its
-- own with one script.
pub mod Hosts
pub mod Farms
use ovn_scale_test.Prelude.{
  ◌≡◌, sym, ◌∙◌, Bool, List, [], ◌∷◌, ◌++◌, map, String, str_eq, eq_iff, if◌then◌else◌,
  append_assoc, append-nil, arith,
}
use ovn_scale_test.Python.Text.{concat, join}
use ovn_scale_test.Python.Dict.{Dict, default, lookup, insert, lookup-insert}
use ovn_scale_test.Python.Exec.{Exec, get_state, for_each, ◌>>=◌, ◌>>◌}
use ovn_scale_test.Topology.{Sandbox}
use ovn_scale_test.Client.{InstallMethod}
use ovn_scale_test.Deploy.Lookup.{delete_sandbox_resource}
use ovn_scale_test.Scenario.Sandboxes.{Depot, on_world, record_of, save_record, command_sandbox}

-- `farm_map[farm]` of a `defaultdict(list)`
abbrev pub names_at : String → Dict (List String) → List String
names_at farm d = default [] (lookup farm d)

-- `farm_map[i["farm"]].append(i["name"])`
unfoldable pub group : List Sandbox → Dict (List String) → Dict (List String)
group [] d = d
group (s ∷ ss) d = group ss (insert s.farm (names_at s.farm d ++ s.name ∷ []) d)

unfoldable pub cleanup_cmd : Bool → String → String
unfolding concat
cleanup_cmd graceful name = concat (
    "./ovs-sandbox.sh --ovn "
    ∷ (if graceful then "--graceful" else "")
    ∷ " --cleanup  "
    ∷ name
    ∷ [])

-- The command on a farm, and its record after that.
unfoldable pub delete_on_farm : InstallMethod → Bool → String → List String → Exec Depot (Unit {0})
unfolding on_world command_sandbox cleanup_cmd record_of delete_sandbox_resource save_record
delete_on_farm method graceful farm to_delete = do
  on_world (command_sandbox method farm (join "\n" (map (cleanup_cmd graceful) to_delete)))
  info ← record_of farm
  save_record farm (delete_sandbox_resource to_delete info)

-- `_delete_sandbox`, with the farms in the order that the dict has.
unfoldable pub delete_sandbox : InstallMethod → List Sandbox → Bool → Exec Depot (Unit {0})
unfolding group for_each delete_on_farm
delete_sandbox method sandboxes graceful = do
  d ← get_state
  let farm_map = group sandboxes []
  for_each (d.world.net.env.dict_keys (map (λ e. e.0) farm_map))
      (λ farm. delete_on_farm method graceful farm (names_at farm farm_map))

-- The names of the sandboxes on a farm.
abbrev pub names_on : String → List Sandbox → List String
names_on farm [] = []
names_on farm (s ∷ ss) = if str_eq s.farm farm then s.name ∷ names_on farm ss else names_on farm ss

names_at-group :
    (farm : String) (ss : List Sandbox) (d : Dict (List String))
    → names_at farm (group ss d) ≡ names_at farm d ++ names_on farm ss
unfolding group
names_at-group farm [] d = sym (append-nil (names_at farm d))
names_at-group farm (s ∷ ss) d =
    let new = names_at s.farm d ++ s.name ∷ [] in
    names_at-group farm ss (insert s.farm new d)
    ∙ ground (
      arith,
      lookup-insert s.farm farm new d,
      eq_iff s.farm farm,
      append_assoc (names_at farm d) (s.name ∷ []) (names_on farm ss),
    )

-- The names that are grouped under a farm are those of the sandboxes on it, in their order.
pub names_at-group_all :
    (farm : String) (ss : List Sandbox) → names_at farm (group ss []) ≡ names_on farm ss
unfolding lookup
names_at-group_all farm ss = names_at-group farm ss []
