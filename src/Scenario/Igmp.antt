-- ===== src/Scenario/Igmp.antt =====
-- scenarios/ovn_igmp.py `_build_config_testers`: which port joins which multicast group, in which
-- round of the test.
pub mod Rounds
pub mod Members
pub mod Loops
pub mod Last
pub mod Totals
pub mod Multicast
use ovn_scale_test.Prelude.{
  ℕ, suc, ◌+◌, ◌%◌, ◌*◌, List, [], ◌∷◌, ◌++◌, map, Option, none, some, String, str_eq, ◌==◌, length,
  get_elem?, if◌then◌else◌, range,
}
use ovn_scale_test.Python.Dict.{Dict, lookup}
use ovn_scale_test.Python.Exec.{Result, ok, err, index_error, key_error}
use ovn_scale_test.Topology.{Lport, Lswitch}

-- `current_iteration`: the groups of each port. `n_groups` is their number, and is not kept.
abbrev pub Iteration : Type 0
Iteration = Dict (List ℕ)

-- The local variables of the loops. A group is its offset from 239.0.0.1.
pub record Testers : Type 0 where
  pub iterations : List (ℕ × Iteration)
  pub current : Iteration
  pub total : ℕ
  pub lport_idx : ℕ

-- `_init_iteration`
unfoldable pub init_iteration : List Lport → Iteration
init_iteration ports = map (λ p. (p.name, [])) ports

-- `current_iteration[name]["groups"].append(group)`
unfoldable pub add_group : String → ℕ → Iteration → Result Iteration
add_group name group [] = err key_error
add_group name group ((k, groups) ∷ rest) =
    let others = add_group name group rest in
    if str_eq k name
    then ok ((k, groups ++ group ∷ []) ∷ rest)
    else elim others [ err e ↦ err e | ok d ↦ ok ((k, groups) ∷ d) ]

-- A round that is full is put aside.
unfoldable pub close_full : List Lport → ℕ → Testers → Testers
unfolding init_iteration
close_full ports batch t =
    if t.total == batch
    then record t {
      iterations = t.iterations ++ (t.total, t.current) ∷ [];
      current = init_iteration ports;
      total = 0;
    }
    else t

-- `_lport_idx_inc`
unfoldable pub lport_idx_inc : ℕ → ℕ → ℕ
lport_idx_inc idx max = (idx + 1) % max

-- One receiver of a group.
unfoldable pub add_receiver : List Lport → List Lport → ℕ → ℕ → Testers → Result Testers
unfolding add_group close_full lport_idx_inc
add_receiver ports lports batch group t = elim (get_elem? lports t.lport_idx) [
  | none ↦ err index_error
  | some lport ↦ elim (add_group lport.name group t.current) [
    | err e ↦ err e
    | ok current ↦ ok (
        close_full ports batch (record t {
          current = current;
          total = t.total + 1;
          lport_idx = lport_idx_inc t.lport_idx (length lports);
        }))
  ]
]

-- The receivers of a network, each given by its group.
unfoldable pub add_receivers : List Lport → List Lport → ℕ → List ℕ → Testers → Result Testers
unfolding add_receiver
add_receivers ports lports batch [] t = ok t
add_receivers ports lports batch (g ∷ gs) t = elim (add_receiver ports lports batch g t) [
  | err e ↦ err e
  | ok t' ↦ add_receivers ports lports batch gs t'
]

-- The two inner loops: every group, `dest_count` times each.
unfoldable pub receivers : ℕ → List ℕ → List ℕ
receivers dest_count [] = []
receivers dest_count (g ∷ gs) = map (λ i. g) (range dest_count) ++ receivers dest_count gs

-- The loop over the switches.
unfoldable pub add_switches :
    List Lport → Dict (List Lport) → ℕ → List ℕ → List Lswitch → Testers → Result Testers
unfolding lookup add_receivers
add_switches ports lports_per_lswitch batch gs [] t = ok t
add_switches ports lports_per_lswitch batch gs (w ∷ ws) t =
    elim (lookup w.name lports_per_lswitch) [
      | none ↦ err key_error
      | some [] ↦ add_switches ports lports_per_lswitch batch gs ws t
      | some (p ∷ ps) ↦ elim (add_receivers ports (p ∷ ps) batch gs (record t { lport_idx = 0 })) [
        | err e ↦ err e
        | ok t' ↦ add_switches ports lports_per_lswitch batch gs ws t'
      ]
    ]

-- The last round, if it is not empty.
unfoldable pub close_last : Testers → List (ℕ × Iteration)
close_last t = if t.total == 0 then t.iterations else t.iterations ++ (t.total, t.current) ∷ []

unfoldable pub build_config_testers :
    List Lswitch → List Lport → Dict (List Lport) → ℕ → ℕ → ℕ → Result (List (ℕ × Iteration))
unfolding add_switches close_last receivers init_iteration
build_config_testers lswitches ports lports_per_lswitch group_count dest_count batch =
    elim (add_switches ports lports_per_lswitch batch (receivers dest_count (range group_count))
      lswitches
      (record { iterations = []; current = init_iteration ports; total = 0; lport_idx = 0 })) [
        | err e ↦ err e
        | ok t ↦ ok (close_last t)
      ]
