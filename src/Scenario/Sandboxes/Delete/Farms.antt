-- ===== src/Scenario/Sandboxes/Delete/Farms.antt =====
-- scenarios/sandbox.py `_delete_sandbox` as a whole: which farms there are, and what they are told.
use mathlib.Core.Path.{fun_ext, subst}
use ovn_scale_test.Prelude.{
  ◌≡◌, refl, sym, ap, ◌∙◌, true, false, ◌&&◌, ◌||◌, Bool, inl, inr, Bool-cases, List, [], ◌∷◌, ◌++◌,
  map, none, String, str_eq, eq_iff, if◌then◌else◌, All, arith,
}
use ovn_scale_test.Python.Dict.{Dict, insert}
use ovn_scale_test.Python.Exec.{for_each}
use ovn_scale_test.Env.{ran, Reliable}
use ovn_scale_test.Topology.{Sandbox}
use ovn_scale_test.Client.{sandbox_method}
use ovn_scale_test.Deploy.Lookup.Laws.{elem}
use ovn_scale_test.Scenario.Sandboxes.{Depot}
use ovn_scale_test.Scenario.Sandboxes.Delete.{
  group, names_at, names_on, names_at-group_all, delete_on_farm, delete_sandbox,
}
use ovn_scale_test.Scenario.Sandboxes.Delete.Hosts.{
  Hosted, script_for, Forgets, each-Forgets, tag_of,
}

-- The farms of some sandboxes, each at its first place.
abbrev pub farms_of : List String → List Sandbox → List String
farms_of known [] = known
farms_of known (s ∷ ss) = farms_of (if elem s.farm known then known else known ++ s.farm ∷ []) ss

keys-insert :
    (k : String) (v : List String) (d : Dict (List String))
    → map (λ e. e.0) (insert k v d)
      ≡ (if elem k (map (λ e. e.0) d) then map (λ e. e.0) d else map (λ e. e.0) d ++ k ∷ [])
unfolding insert
keys-insert k v [] = refl
keys-insert k v ((j, w) ∷ d) = ground (arith, keys-insert k v d)

keys-group :
    (ss : List Sandbox) (d : Dict (List String))
    → map (λ e. e.0) (group ss d) ≡ farms_of (map (λ e. e.0) d) ss
unfolding group
keys-group [] d = refl
keys-group (s ∷ ss) d =
    keys-group ss (insert s.farm (names_at s.farm d ++ s.name ∷ []) d)
    ∙ ap (λ known. farms_of known ss) (keys-insert s.farm (names_at s.farm d ++ s.name ∷ []) d)

elem-append : (k : String) (xs ys : List String) → elem k (xs ++ ys) ≡ (elem k xs || elem k ys)
elem-append k [] ys = refl
elem-append k (x ∷ xs) ys = ground (arith, elem-append k xs ys)

farms_of-known :
    (k : String) (known : List String) (ss : List Sandbox)
    → elem k known ≡ true
    → elem k (farms_of known ss) ≡ true
farms_of-known k known [] h = h
farms_of-known k known (s ∷ ss) h =
    farms_of-known k (if elem s.farm known then known else known ++ s.farm ∷ []) ss
      (ground (arith, h, elem-append k known (s.farm ∷ [])))

-- A farm with a sandbox is among the farms.
farms_of-names :
    (name k : String) (known : List String) (ss : List Sandbox)
    → elem name (names_on k ss) ≡ true
    → elem k (farms_of known ss) ≡ true
farms_of-names name k known [] h = cc
farms_of-names name k known (s ∷ ss) h = elim (Bool-cases (str_eq s.farm k)) [
  | inl same ↦
      let e : s.farm ≡ k = (eq_iff s.farm k).0 same in
      farms_of-known k (if elem s.farm known then known else known ++ s.farm ∷ []) ss
        (rw e (ground (arith, elem-append k known (k ∷ []), (eq_iff k k).1 refl)))
  | inr other ↦
      farms_of-names name k (if elem s.farm known then known else known ++ s.farm ∷ []) ss
        (rw other at h)
]

module _ (host : String → String) (graceful : Bool) (ss : List Sandbox) (d : Depot)
    (reliable : Reliable d.world.net.env)
    (same_keys : (k : String) (ks : List String)
      → elem k (d.world.net.env.dict_keys ks) ≡ elem k ks)
    (hosted : All (λ k. Hosted (host k) d k) (d.world.net.env.dict_keys (farms_of [] ss))) where
  abbrev farms : List String
  farms = d.world.net.env.dict_keys (farms_of [] ss)

  by_names :
      Forgets host graceful d
        (for_each farms (λ k. delete_on_farm sandbox_method graceful k (names_at k (group ss []))))
        (map (λ k. ran (host k) (script_for graceful (names_on k ss))) farms)
        (λ name k. elem k farms && elem name (names_on k ss))
  by_names =
      subst
        (λ (names : String → List String).
          Forgets host graceful d
            (for_each farms (λ k. delete_on_farm sandbox_method graceful k (names k)))
            (map (λ k. ran (host k) (script_for graceful (names_on k ss))) farms)
            (λ name k. elem k farms && elem name (names_on k ss)))
        (sym (fun_ext (λ k. names_at-group_all k ss)))
        (each-Forgets host graceful (λ k. names_on k ss) farms d reliable hosted)

  both : (name k : String) → (elem k farms && elem name (names_on k ss)) ≡ elem name (names_on k ss)
  both name k = elim (Bool-cases (elem name (names_on k ss))) [
    | inl there ↦ rw (there, same_keys k (farms_of [] ss), farms_of-names name k [] ss there) refl
    | inr away ↦ rw away (and_false (elem k farms))
  ]
    where
      and_false : (b : Bool) → (b && false) ≡ false
      and_false true = refl
      and_false false = refl

  -- With the install method "sandbox", where no command fails, the keys of a dict are those that
  -- were put in, and each farm of the sandboxes has clients and a record, `_delete_sandbox`
  -- returns, and has run on the host of each of these farms, in the order that the dict has, one
  -- script with a line for each of the given sandboxes on this farm, in their order; after that
  -- no record of a farm has the names of the given sandboxes on it, and every other name has the
  -- tag that it had.
  pub delete_sandbox-Forgets :
      Forgets host graceful d
        (delete_sandbox sandbox_method ss graceful)
        (map
          (λ k. ran (host k) (script_for graceful (names_on k ss)))
          (d.world.net.env.dict_keys (farms_of [] ss)))
        (λ name k. elem name (names_on k ss))
  unfolding delete_sandbox
  delete_sandbox-Forgets = record {
    final = by_names.final;
    returns = rw (keys-group ss []) by_names.returns;
    trace = by_names.trace;
    env = by_names.env;
    keeps = by_names.keeps;
    tags = λ name k.
        by_names.tags name k ∙ ap (λ (b : Bool). if b then none else tag_of name k d) (both name k);
  }
