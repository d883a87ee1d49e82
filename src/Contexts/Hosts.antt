-- ===== src/Contexts/Hosts.antt =====
-- context/ovn_multihost.py and ovsclients.py `setup`: the clients that the scenarios find for the
-- deployments of the database.
use ovn_scale_test.Prelude.{
  List, [], ◌∷◌, Option, none, some, String, str_eq, eq_iff, ◌≡◌, ◌≢◌, refl, ◌∙◌, arith,
  if◌then◌else◌, Bool-cases, inl, inr, All,
}
use ovn_scale_test.Python.Dict.{Dict, lookup, insert, lookup-insert}
use ovn_scale_test.Python.Exec.{Result, ok, err, key_error}
use ovn_scale_test.Client.{Credential, sandbox_method}
use ovn_scale_test.World.{
  World, Clients, MultihostInfo, farm, clients_at, fresh, fresh_farms, setup,
}
use ovn_scale_test.Contexts.{HostDeployment, add_host, add_hosts, get_ovn_multihost_info}

-- No key stands in a dict twice.
abbrev pub Distinct : {V : Type 0} → Dict V → Type 0
Distinct [] = Unit
Distinct ((k, v) ∷ d) = (lookup k d ≡ none) × Distinct d

insert-Distinct :
    {V : Type 0} (k : String) (v : V) (d : Dict V) → Distinct d → Distinct (insert k v d)
unfolding insert lookup
insert-Distinct k v [] distinct = (refl, tt)
insert-Distinct k v ((j, w) ∷ d) (absent, distinct) = elim (Bool-cases (str_eq j k)) [
  | inl same ↦ rw same (absent, distinct)
  | inr differ ↦ rw differ (
    lookup-insert k j v d ∙ ground (arith, eq_iff k j, eq_iff j k),
    insert-Distinct k v d distinct,
  )
]

-- A cached entry for each credential.
abbrev pub made : Option Credential → Option Clients → Option Clients
made none old = old
made (some c) old = some (fresh c)

lookup-fresh_farms :
    (name : String) (acc : Dict Clients) (creds : Dict Credential)
    → Distinct creds
    → lookup name (fresh_farms acc creds) ≡ made (lookup name creds) (lookup name acc)
unfolding fresh_farms lookup
lookup-fresh_farms name acc [] distinct = refl
lookup-fresh_farms name acc ((j, c) ∷ creds) (absent, distinct) =
    lookup-fresh_farms name (insert j (fresh c) acc) creds distinct
    ∙ elim (Bool-cases (str_eq j name)) [
      | inl same ↦
          let gone : lookup name creds ≡ none = rw (← (eq_iff j name).0 same) absent in
          rw (gone, lookup-insert j name (fresh c) acc, same) refl
      | inr differ ↦ rw (lookup-insert j name (fresh c) acc, differ) refl
    ]

-- The credential of the last deployment with this name, of those after `found`, unless it is the
-- controller's.
abbrev pub last_host : String → String → Option Credential → List HostDeployment → Option Credential
last_host controller_name name found [] = found
last_host controller_name name found (dep ∷ deps) = elim dep.credentials [
  | [] ↦ last_host controller_name name found deps
  | cred ∷ _ ↦
      last_host controller_name name
        (if str_eq dep.name controller_name
          then found
          else (if str_eq dep.name name then some cred else found))
        deps
]

-- Every deployment has a credential.
abbrev pub Reachable : List HostDeployment → Type 0
Reachable = All (λ dep. dep.credentials ≢ [])

-- What the loop over the deployments comes to.
pub record Found (controller_name : String) (deps : List HostDeployment) (info : MultihostInfo)
    : Type 0 where
  pub result : MultihostInfo
  pub is : add_hosts controller_name deps info ≡ ok result
  pub distinct : Distinct result.farms
  pub farms :
      (name : String)
      → lookup name result.farms ≡ last_host controller_name name (lookup name info.farms) deps

-- The farms after one more deployment.
add_host-farms :
    (controller_name name : String) (dep : HostDeployment) (cred : Credential)
    (info : MultihostInfo)
    → lookup name (add_host controller_name dep cred info).farms ≡ (
        if str_eq dep.name controller_name
        then lookup name info.farms
        else (if str_eq dep.name name then some cred else lookup name info.farms))
unfolding add_host
add_host-farms controller_name name dep cred info =
    elim (Bool-cases (str_eq dep.name controller_name)) [
      | inl same ↦ rw same refl
      | inr differ ↦ rw differ (lookup-insert dep.name name cred info.farms)
    ]

add_host-Distinct :
    (controller_name : String) (dep : HostDeployment) (cred : Credential) (info : MultihostInfo)
    → Distinct info.farms
    → Distinct (add_host controller_name dep cred info).farms
unfolding add_host
add_host-Distinct controller_name dep cred info distinct =
    elim (Bool-cases (str_eq dep.name controller_name)) [
      | inl same ↦ rw same distinct
      | inr differ ↦ rw differ (insert-Distinct dep.name cred info.farms distinct)
    ]

Found-cons :
    (controller_name : String) (dep : HostDeployment) (deps : List HostDeployment)
    (info : MultihostInfo) (cred : Credential) (more : List Credential)
    → dep.credentials ≡ cred ∷ more
    → Found controller_name deps (add_host controller_name dep cred info)
    → Found controller_name (dep ∷ deps) info
unfolding add_hosts
Found-cons controller_name dep deps info cred more h f = record {
  result = f.result;
  is = rw h f.is;
  distinct = f.distinct;
  farms = λ name. f.farms name ∙ rw (h, add_host-farms controller_name name dep cred info) refl;
}

-- A list that is not empty has a first item.
first_of : {A : Type 0} (xs : List A) → xs ≢ [] → (x : A) × (rest : List A) × (xs ≡ x ∷ rest)
first_of [] h = absurd (h refl)
first_of (x ∷ xs) h = (x, xs, refl)

add_hosts-Found :
    (controller_name : String) (deps : List HostDeployment) (info : MultihostInfo)
    → Reachable deps
    → Distinct info.farms
    → Found controller_name deps info
unfolding add_hosts
add_hosts-Found controller_name [] info reachable distinct = record {
  result = info;
  is = refl;
  distinct = distinct;
  farms = λ name. refl;
}
add_hosts-Found controller_name (dep ∷ deps) info (h, reachable) distinct =
    let (cred, more, is) = first_of dep.credentials h in
    Found-cons controller_name dep deps info cred more is (
      add_hosts-Found controller_name deps (add_host controller_name dep cred info) reachable
        (add_host-Distinct controller_name dep cred info distinct))

-- The clients of a farm: new ones for its credential, or a KeyError.
abbrev pub farm_clients_of : Option Credential → Result Clients
farm_clients_of none = err key_error
farm_clients_of (some c) = ok (fresh c)

-- Where every deployment has a credential, `get_ovn_multihost_info` returns, and after `setup` a farm
-- has new clients for the credential of the last deployment with its name that is not the
-- controller's; a name that no such deployment has ends in a KeyError.
pub setup-farms :
    (deployments : List HostDeployment) (controller_name : String) (w : World)
    → Reachable deployments
    → (info : MultihostInfo) × (get_ovn_multihost_info deployments controller_name ≡ ok info)
      × ((name : String)
          → clients_at (farm name) (setup info w)
            ≡ farm_clients_of (last_host controller_name name none deployments))
unfolding get_ovn_multihost_info setup clients_at
setup-farms deployments controller_name w reachable =
    let f =
      add_hosts-Found controller_name deployments
        (record { controller = []; farms = []; install_method = sandbox_method }) reachable tt in
    (
      f.result,
      f.is,
      λ name.
          rw (lookup-fresh_farms name [] f.result.farms f.distinct, clients_at, f.farms name)
            (answer (last_host controller_name name none deployments)),
    )
  where
    answer :
        (o : Option Credential)
        → (elim (made o none) [ none ↦ err key_error | some cs ↦ ok cs ]) ≡ farm_clients_of o
    answer none = refl
    answer (some c) = refl
