-- ===== src/Deploy/Lookup/Laws.antt =====
-- What `get_sandboxes` selects, and what the two updates of the record of a farm do to each name.
use ovn_scale_test.Prelude.{
  ◌≡◌, refl, ap, Bool, true, false, ◌&&◌, ◌||◌, inl, inr, Bool-cases, List, [], ◌∷◌, ◌++◌, map,
  none, some, String, str_eq, eq_iff, if◌then◌else◌, arith,
}
use ovn_scale_test.Python.Dict.{Dict, lookup, insert, erase, lookup-insert, lookup-erase}
use ovn_scale_test.Topology.{Sandbox}
use ovn_scale_test.Deploy.Lookup.{
  SandboxesInfo, Deployment, passes, sandboxes_of, get_sandboxes, merge, add_sandbox_resource,
  erase_all, delete_sandbox_resource,
}

abbrev pub filter : {A : Type 0} → (A → Bool) → List A → List A
filter p [] = []
filter p (x ∷ xs) = if p x then x ∷ filter p xs else filter p xs

filter-append :
    {A : Type 0} (p : A → Bool) (xs ys : List A) → filter p (xs ++ ys) ≡ filter p xs ++ filter p ys
filter-append p [] ys = refl
filter-append p (x ∷ xs) ys = elim (Bool-cases (p x)) [
  | inl holds ↦ rw holds (ap (λ l. x ∷ l) (filter-append p xs ys))
  | inr fails ↦ rw fails (filter-append p xs ys)
]

-- A text that is asked for, where an empty one asks for nothing.
abbrev pub fits : String → String → Bool
fits asked found = str_eq asked "" || str_eq found asked

-- A sandbox with the farm and the tag that are asked for.
abbrev pub wanted : String → String → Sandbox → Bool
wanted farm tag s = fits farm s.farm && fits tag s.tag

-- The sandbox that a record of a farm has under a name.
abbrev pub sandbox_at : SandboxesInfo → String × String → Sandbox
sandbox_at info (name, tag) = record {
  name = name;
  tag = tag;
  farm = info.farm;
  host_container = info.host_container;
}

-- Every sandbox of every deployment that has some.
abbrev pub all_sandboxes : List Deployment → List Sandbox
all_sandboxes [] = []
all_sandboxes (none ∷ deps) = all_sandboxes deps
all_sandboxes (some info ∷ deps) = map (sandbox_at info) info.sandboxes ++ all_sandboxes deps

passes-fits : (asked found : String) → passes asked found ≡ fits asked found
unfolding passes
passes-fits asked found = ground (arith, eq_iff asked found, eq_iff found asked)

sandboxes_of-filter :
    (info : SandboxesInfo) (farm tag : String) (d : Dict String)
    → fits farm info.farm ≡ true
    → sandboxes_of info tag d ≡ filter (wanted farm tag) (map (sandbox_at info) d)
unfolding sandboxes_of
sandboxes_of-filter info farm tag [] h = refl
sandboxes_of-filter info farm tag ((k, v) ∷ d) h =
    rw (h, passes-fits tag v, sandboxes_of-filter info farm tag d h) refl

sandboxes_of-none :
    (info : SandboxesInfo) (farm tag : String) (d : Dict String)
    → fits farm info.farm ≡ false
    → filter (wanted farm tag) (map (sandbox_at info) d) ≡ []
sandboxes_of-none info farm tag [] h = refl
sandboxes_of-none info farm tag ((k, v) ∷ d) h = rw (h, sandboxes_of-none info farm tag d h) refl

-- `get_sandboxes` for a farm and a tag, of which either may be empty, gives, of all sandboxes
-- that the records of the deployments name, those with this farm and this tag, in the order of
-- the records.
pub get_sandboxes-filter :
    (deps : List Deployment) (farm tag : String)
    → get_sandboxes deps farm tag ≡ filter (wanted farm tag) (all_sandboxes deps)
unfolding get_sandboxes
get_sandboxes-filter [] farm tag = refl
get_sandboxes-filter (none ∷ deps) farm tag = get_sandboxes-filter deps farm tag
get_sandboxes-filter (some info ∷ deps) farm tag =
    let entries = map (sandbox_at info) info.sandboxes in
    let append = filter-append (wanted farm tag) entries (all_sandboxes deps) in
    let ih = get_sandboxes-filter deps farm tag in
    elim (Bool-cases (fits farm info.farm)) [
      | inl holds ↦ rw (
        passes-fits farm info.farm,
        holds,
        append,
        ← sandboxes_of-filter info farm tag info.sandboxes holds,
        ih,
      )
      | inr fails ↦ rw (
        passes-fits farm info.farm,
        fails,
        append,
        sandboxes_of-none info farm tag info.sandboxes fails,
        ih,
      )
    ]

lookup-merge :
    (k : String) (known rest : Dict String)
    → lookup k (merge known rest)
      ≡ (elim (lookup k known) [ some v ↦ some v | none ↦ lookup k rest ])
unfolding merge lookup
lookup-merge k known [] = ground arith
lookup-merge k known ((j, v) ∷ rest) = ground (
  arith,
  eq_iff j k,
  lookup-merge k known rest,
  lookup-merge k (insert j v known) rest,
  lookup-insert j k v known,
)

-- After `_add_sandbox_resource` a name has its new tag, if it is among the new ones, and otherwise the
-- tag that it had.
pub lookup-add_sandbox_resource :
    (k : String) (sandboxes : Dict String) (info : SandboxesInfo)
    → lookup k (add_sandbox_resource sandboxes info).sandboxes
      ≡ (elim (lookup k sandboxes) [ some v ↦ some v | none ↦ lookup k info.sandboxes ])
unfolding add_sandbox_resource
lookup-add_sandbox_resource k sandboxes info = lookup-merge k sandboxes info.sandboxes

abbrev pub elem : String → List String → Bool
elem k [] = false
elem k (j ∷ js) = str_eq j k || elem k js

lookup-erase_all :
    (k : String) (ks : List String) (d : Dict String)
    → lookup k (erase_all ks d) ≡ (if elem k ks then none else lookup k d)
unfolding erase_all
lookup-erase_all k [] d = refl
lookup-erase_all k (j ∷ js) d =
    ground (arith, lookup-erase_all k js (erase j d), lookup-erase j k d)

-- After `_delete_sandbox_resource` the names to delete are gone, and every other name has the tag that
-- it had.
pub lookup-delete_sandbox_resource :
    (k : String) (to_delete : List String) (info : SandboxesInfo)
    → lookup k (delete_sandbox_resource to_delete info).sandboxes
      ≡ (if elem k to_delete then none else lookup k info.sandboxes)
unfolding delete_sandbox_resource
lookup-delete_sandbox_resource k to_delete info = lookup-erase_all k to_delete info.sandboxes
