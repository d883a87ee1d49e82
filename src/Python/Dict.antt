-- ===== src/Python/Dict.antt =====
-- Python's `dict` with text keys, in the order of insertion, and `dict.get` with a default. The loops
-- over the settings of a switch, the ports of a multicast round, the farms of `_delete_sandbox` and the
-- sandboxes of `create_and_delete_sandbox` go by `dict_items` and `dict_keys` of Env; the others go by
-- the order of insertion.
use ovn_scale_test.Prelude.{
  ◌≡◌, refl, List, [], ◌∷◌, Option, none, some, String, str_eq, eq_iff, eq_refl, arith,
  if◌then◌else◌,
}

-- `d.get(key, default)`
abbrev pub default {ℓ} : {A : Type ℓ} → A → Option A → A
default d none = d
default d (some a) = a

abbrev pub Dict : Type 0 → Type 0
Dict V = List (String × V)

module _ {V : Type 0} where
  -- `d.get(key)`
  unfoldable pub lookup : String → Dict V → Option V
  lookup k [] = none
  lookup k ((j, v) ∷ d) = if str_eq j k then some v else lookup k d

  -- `d[key] = value`
  unfoldable pub insert : String → V → Dict V → Dict V
  insert k v [] = (k, v) ∷ []
  insert k v ((j, w) ∷ d) = if str_eq j k then (j, v) ∷ d else (j, w) ∷ insert k v d

  -- `del d[key]`, of every entry at the key
  unfoldable pub erase : String → Dict V → Dict V
  erase k [] = []
  erase k ((j, w) ∷ d) = if str_eq j k then erase k d else (j, w) ∷ erase k d

  pub lookup-insert :
      (k j : String) (v : V) (d : Dict V)
      → lookup j (insert k v d) ≡ (if str_eq k j then some v else lookup j d)
  unfolding lookup insert
  lookup-insert k j v [] = refl
  lookup-insert k j v ((i, w) ∷ d) =
      ground (arith, eq_iff k j, eq_iff i k, eq_iff i j, lookup-insert k j v d)

  pub lookup-erase :
      (k j : String) (d : Dict V) → lookup j (erase k d) ≡ (if str_eq k j then none else lookup j d)
  unfolding lookup erase
  lookup-erase k j [] = ground arith
  lookup-erase k j ((i, w) ∷ d) =
      ground (arith, eq_iff k j, eq_iff i k, eq_iff i j, lookup-erase k j d)

  pub insert-insert : (k : String) (u v : V) (d : Dict V) → insert k v (insert k u d) ≡ insert k v d
  unfolding insert
  insert-insert k u v [] = ground (arith, eq_iff k k)
  insert-insert k u v ((i, w) ∷ d) = ground (arith, eq_iff i k, insert-insert k u v d)

  pub lookup-insert_self : (k : String) (v : V) (d : Dict V) → lookup k (insert k v d) ≡ some v
  lookup-insert_self k v d = simp (lookup-insert, eq_refl)
