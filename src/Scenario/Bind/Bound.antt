-- ===== src/Scenario/Bind/Bound.antt =====
-- The ports that a dict of sandboxes and ports holds.
use mathlib.Core.List.{Perm, perm_middle}
use mathlib.Core.List.Perm
use ovn_scale_test.Prelude.{
  ◌≡◌, refl, sym, ◌∙◌, List, [], ◌∷◌, ◌++◌, Option, false, String, str_eq, flat_map, append_assoc,
  Bool-cases, inl, inr,
}
use ovn_scale_test.Python.Dict.{Dict, lookup, insert}
use ovn_scale_test.Topology.{Lport, Sandbox}
use ovn_scale_test.Scenario.Bind.{LportSbs, ports_of, bind_to, bind_all}

-- All the ports that are bound.
abbrev pub bound : LportSbs → List Lport
bound = flat_map (λ entry. entry.1.1)

lookup-skip :
    {V : Type 0} (k name : String) (v : V) (d : Dict V)
    → str_eq k name ≡ false
    → lookup name ((k, v) ∷ d) ≡ lookup name d
unfolding lookup
lookup-skip k name v d differ = rw differ refl

bound-insert :
    (name : String) (sandbox : Sandbox) (p : Lport) (sbs : LportSbs)
    (found : Option (Sandbox × List Lport))
    → lookup name sbs ≡ found
    → Perm (bound (insert name (sandbox, ports_of found ++ p ∷ []) sbs)) (p ∷ bound sbs)
unfolding lookup insert ports_of
bound-insert name sandbox p [] found is = rw (← is) (Perm.refl (p ∷ []))
bound-insert name sandbox p ((k, (sb, ports)) ∷ sbs) found is = elim (Bool-cases (str_eq k name)) [
  | inl same ↦
      rw same
        (rw (← is, same, append_assoc ports (p ∷ []) (bound sbs)) (perm_middle ports (bound sbs)))
  | inr differ ↦ rw differ (
      Perm.trans
        (Perm.append_left ports (
          bound-insert name sandbox p sbs found
            (sym (lookup-skip k name (sb, ports) sbs differ) ∙ is)))
        (perm_middle ports (bound sbs)))
]

pub bound-bind_to :
    (sandbox : Sandbox) (p : Lport) (sbs : LportSbs)
    → Perm (bound (bind_to sandbox p sbs)) (p ∷ bound sbs)
unfolding bind_to
bound-bind_to sandbox p sbs = bound-insert sandbox.name sandbox p sbs (lookup sandbox.name sbs) refl

pub bound-bind_all :
    (sandbox : Sandbox) (ps : List Lport) (sbs : LportSbs)
    → Perm (bound (bind_all sandbox ps sbs)) (ps ++ bound sbs)
unfolding bind_all
bound-bind_all sandbox [] sbs = Perm.refl (bound sbs)
bound-bind_all sandbox (p ∷ ps) sbs =
    Perm.trans (bound-bind_all sandbox ps (bind_to sandbox p sbs))
      (Perm.trans (Perm.append_left ps (bound-bind_to sandbox p sbs)) (perm_middle ps (bound sbs)))
