-- ===== src/Deploy/Lookup.antt =====
-- utils.py `get_farm_nodes`, `get_sandboxes`, and scenarios/sandbox.py `_add_sandbox_resource`,
-- `_delete_sandbox_resource`. The records are those of rally's database, as one reads them there.
pub mod Laws
use ovn_scale_test.Prelude.{
  Bool, true, List, [], ◌∷◌, ◌++◌, Option, none, some, String, str_eq, if◌then◌else◌,
}
use ovn_scale_test.Python.Dict.{Dict, lookup, insert, erase}
use ovn_scale_test.Topology.{Sandbox}

-- `res[0].info` of a deployment; `sandboxes` gives the tag of each name.
pub record SandboxesInfo : Type 0 where
  pub farm : String
  pub host_container : Option String
  pub sandboxes : Dict String

-- A deployment: the first of its resources of type SANDBOXES, if it has one.
abbrev pub Deployment : Type 0
Deployment = Option SandboxesInfo

-- The farms that have a sandbox.
unfoldable pub get_farm_nodes : List Deployment → List String
get_farm_nodes [] = []
get_farm_nodes (none ∷ deps) = get_farm_nodes deps
get_farm_nodes (some info ∷ deps) =
    let rest = get_farm_nodes deps in elim info.sandboxes [ [] ↦ rest | _ ∷ _ ↦ info.farm ∷ rest ]

-- `if wanted and wanted != found: continue`
unfoldable pub passes : String → String → Bool
passes wanted found = if str_eq wanted "" then true else str_eq wanted found

unfoldable pub sandboxes_of : SandboxesInfo → String → Dict String → List Sandbox
unfolding passes
sandboxes_of info tag [] = []
sandboxes_of info tag ((k, v) ∷ rest) =
    let others = sandboxes_of info tag rest in
    if passes tag v
    then record { name = k; tag = v; farm = info.farm; host_container = info.host_container }
      ∷ others
    else others

unfoldable pub get_sandboxes : List Deployment → String → String → List Sandbox
unfolding sandboxes_of passes
get_sandboxes [] farm tag = []
get_sandboxes (none ∷ deps) farm tag = get_sandboxes deps farm tag
get_sandboxes (some info ∷ deps) farm tag =
    let rest = get_sandboxes deps farm tag in
    if passes farm info.farm then sandboxes_of info tag info.sandboxes ++ rest else rest

-- The names of `sandboxes` that are not in `known` are added to it, with their tags.
unfoldable pub merge : Dict String → Dict String → Dict String
unfolding lookup insert
merge known [] = known
merge known ((k, v) ∷ rest) = elim (lookup k known) [
  | none ↦ merge (insert k v known) rest
  | some w ↦ merge known rest
]

-- `_add_sandbox_resource`: the new tags win over those that were there.
unfoldable pub add_sandbox_resource : Dict String → SandboxesInfo → SandboxesInfo
unfolding merge
add_sandbox_resource sandboxes info = record info { sandboxes = merge sandboxes info.sandboxes }

unfoldable pub erase_all : List String → Dict String → Dict String
unfolding erase
erase_all [] d = d
erase_all (k ∷ ks) d = erase_all ks (erase k d)

-- `_delete_sandbox_resource`
unfoldable pub delete_sandbox_resource : List String → SandboxesInfo → SandboxesInfo
unfolding erase_all
delete_sandbox_resource to_delete info = record info {
  sandboxes = erase_all to_delete info.sandboxes;
}
