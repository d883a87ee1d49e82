-- ===== src/Contexts/Laws.antt =====
-- context/sandbox.py: the sandboxes that it finds, and those that `get_sandboxes` of utils.py finds.
use ovn_scale_test.Prelude.{
  List, [], ◌∷◌, none, some, String, str_eq, eq_iff, ◌≡◌, ◌≢◌, refl, arith, if◌then◌else◌,
  Bool-cases, inl, inr,
}
use ovn_scale_test.Python.Dict.{Dict}
use ovn_scale_test.Contexts.{tagged, context_sandboxes_of, setup_sandboxes}
use ovn_scale_test.Deploy.Lookup.{SandboxesInfo, Deployment, passes, sandboxes_of, get_sandboxes}

-- The tag that `get_sandboxes` is to be asked for: "all" asks for every tag.
abbrev pub tag_wanted : String → String
tag_wanted tag = if str_eq tag "all" then "" else tag

tagged-passes : (tag found : String) → tag ≢ "" → tagged tag found ≡ passes (tag_wanted tag) found
unfolding tagged passes
tagged-passes tag found named = elim (Bool-cases (str_eq tag "all")) [
  | inl same ↦ rw (same, tagged, passes) refl
  | inr other ↦
      rw (other, tagged, passes) (ground (arith, eq_iff tag "", eq_iff found tag, eq_iff tag found))
]

context_sandboxes_of-sandboxes_of :
    (info : SandboxesInfo) (tag : String) (d : Dict String)
    → tag ≢ ""
    → context_sandboxes_of info tag d ≡ sandboxes_of info (tag_wanted tag) d
unfolding context_sandboxes_of sandboxes_of
context_sandboxes_of-sandboxes_of info tag [] named = refl
context_sandboxes_of-sandboxes_of info tag ((k, v) ∷ rest) named =
    rw (tagged-passes tag v named, context_sandboxes_of-sandboxes_of info tag rest named) refl

-- With a tag that is not empty, the context finds the sandboxes that `get_sandboxes` finds for the same
-- farm and tag, in the same order, where the tag "all" stands for every tag.
pub setup_sandboxes-get_sandboxes :
    (deployments : List Deployment) (farm tag : String)
    → tag ≢ ""
    → setup_sandboxes deployments farm tag ≡ get_sandboxes deployments farm (tag_wanted tag)
unfolding setup_sandboxes get_sandboxes
setup_sandboxes-get_sandboxes [] farm tag named = refl
setup_sandboxes-get_sandboxes (none ∷ deps) farm tag named =
    setup_sandboxes-get_sandboxes deps farm tag named
setup_sandboxes-get_sandboxes (some info ∷ deps) farm tag named =
    rw
      (
        context_sandboxes_of-sandboxes_of info tag info.sandboxes named,
        setup_sandboxes-get_sandboxes deps farm tag named,
      )
      refl
