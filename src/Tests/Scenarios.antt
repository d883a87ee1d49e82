-- ===== src/Tests/Scenarios.antt =====
-- The theorems on binding, ACLs, tests and sandboxes, at the concrete inputs.
use ovn_scale_test.Tests.{
  session, mixin, world, reliable, switch, port, sandbox, ports, farm_info, acl_args, sandbox_mixin,
  depot, controller_node,
}
use ovn_scale_test.Prelude.{
  ◌/◌, ◌≤◌, ◌≡◌, refl, arith, true, false, [], ◌∷◌, map, none, some, range, length, sum, flatten,
  All, inl, inr, if◌then◌else◌,
}
use ovn_scale_test.Python.Exec.{ok}
use ovn_scale_test.Python.Dict.{lookup}
use ovn_scale_test.Env.{ran}
use ovn_scale_test.Scenario.Bind.Spread.{SpreadsAll, spread_complete}
use ovn_scale_test.Scenario.Igmp.Totals.{BuiltFor, build_config_testers_counts}
use ovn_scale_test.Scenario.Routed.Turns.{TakesTurns, turns-flatten}
use ovn_scale_test.Scenario.Sandboxes.{plan}
use ovn_scale_test.Scenario.Sandboxes.Plan.{plan_covers}
use ovn_scale_test.Client.{sandbox_method}
use ovn_scale_test.World.{clients_at, call_client}
use ovn_scale_test.Scenario.Sandboxes.Delete.{names_on, delete_sandbox}
use ovn_scale_test.Scenario.Sandboxes.Delete.Hosts.{Forgets, script_for}
use ovn_scale_test.Scenario.Sandboxes.Delete.Farms.{delete_sandbox-Forgets}
use ovn_scale_test.Deploy.Lookup.{get_sandboxes, add_sandbox_resource, delete_sandbox_resource}
use ovn_scale_test.Deploy.Lookup.Laws.{
  filter, wanted, all_sandboxes, elem, get_sandboxes-filter, lookup-add_sandbox_resource,
  lookup-delete_sandbox_resource,
}
use ovn_scale_test.Scenario.Acls.{create_acl}
use ovn_scale_test.Scenario.Acls.Scripts.{acls_sent, create_acl-sends}
use ovn_scale_test.Scenario.Bind.{bind_ports_on}
use ovn_scale_test.Scenario.Bind.Scripts.{
  ports_sent, in_sandbox, bind_ports_on-sends, bind_physical-sends,
}
use ovn_scale_test.Deploy.Chassis.{chassis_index, overflow, num_sandbox}
use ovn_scale_test.Deploy.Chassis.Counts.{times, num_sandbox-sum, num_sandbox-times}

spread_complete_example : SpreadsAll ports (sandbox "s" ∷ sandbox "t" ∷ []) world
spread_complete_example =
    spread_complete ports (sandbox "s" ∷ sandbox "t" ∷ []) world (omega arith) (λ n k lt. lt)

build_config_testers_counts_example :
    BuiltFor
      (switch "x" ∷ switch "y" ∷ [])
      ports
      (("x", port "a" ∷ port "b" ∷ []) ∷ ("y", port "c" ∷ []) ∷ [])
      3
      2
      4
unfolding lookup
build_config_testers_counts_example =
    build_config_testers_counts (switch "x" ∷ switch "y" ∷ []) ports
      (("x", port "a" ∷ port "b" ∷ []) ∷ ("y", port "c" ∷ []) ∷ []) 3 2 4 (omega arith)
      (
        (port "a" ∷ port "b" ∷ [], refl, (inl refl, (inr (inl refl), tt))),
        ((port "c" ∷ [], refl, (inr (inr (inl refl)), tt)), tt),
      )

turns-flatten_example : TakesTurns (sandbox "s") (sandbox "t" ∷ []) 3
turns-flatten_example = turns-flatten (sandbox "s") (sandbox "t" ∷ []) 3

plan_covers_example : (flatten (plan 7 3) ≡ range 7) × All (λ r. length r ≤ 3) (plan 7 3)
plan_covers_example = plan_covers 7 3 (omega arith)

num_sandbox-sum_example :
    sum (map (num_sandbox 3 (10 / 3) (overflow 3 (10 / 3) (range 10))) (range 3)) ≡ 10
num_sandbox-sum_example = num_sandbox-sum 3 10 (omega arith) (omega arith)

num_sandbox-times_example :
    times 2 (map (chassis_index 3 (10 / 3)) (range 10))
    ≡ num_sandbox 3 (10 / 3) (overflow 3 (10 / 3) (range 10)) 2
num_sandbox-times_example = num_sandbox-times 3 10 2 (omega arith) (omega arith)

get_sandboxes-filter_example :
    get_sandboxes (some farm_info ∷ none ∷ []) "farm-0" "ToR2"
    ≡ filter (wanted "farm-0" "ToR2") (all_sandboxes (some farm_info ∷ none ∷ []))
get_sandboxes-filter_example = get_sandboxes-filter (some farm_info ∷ none ∷ []) "farm-0" "ToR2"

lookup-add_sandbox_resource_example :
    lookup "sandbox-b" (add_sandbox_resource (("sandbox-b", "ToR3") ∷ []) farm_info).sandboxes
    ≡ (elim (lookup "sandbox-b" (("sandbox-b", "ToR3") ∷ [])) [
      | some v ↦ some v
      | none ↦ lookup "sandbox-b" farm_info.sandboxes
    ])
lookup-add_sandbox_resource_example =
    lookup-add_sandbox_resource "sandbox-b" (("sandbox-b", "ToR3") ∷ []) farm_info

lookup-delete_sandbox_resource_example :
    lookup "sandbox-a" (delete_sandbox_resource ("sandbox-a" ∷ []) farm_info).sandboxes
    ≡ (if elem "sandbox-a" ("sandbox-a" ∷ []) then none else lookup "sandbox-a" farm_info.sandboxes)
lookup-delete_sandbox_resource_example =
    lookup-delete_sandbox_resource "sandbox-a" ("sandbox-a" ∷ []) farm_info

create_acl-sends_example :
    create_acl mixin "sw" ("p" ∷ "q" ∷ []) acl_args 2 session
    ≡ (ok tt, acls_sent mixin acl_args "sw" 2 ("p" ∷ "q" ∷ []) session)
create_acl-sends_example =
    create_acl-sends mixin acl_args "sw" ("p" ∷ "q" ∷ []) 2 session reliable tt refl (omega arith)

bind_ports_on-sends_example :
    bind_ports_on sandbox_mixin true "s" (sandbox "s") ports session
    ≡ (ok tt, ports_sent sandbox_mixin true "s" ports session)
bind_ports_on-sends_example =
    bind_ports_on-sends sandbox_mixin true "s" (sandbox "s") (port "a") (port "b" ∷ port "c" ∷ [])
      session in_sandbox refl refl reliable

bind_physical-sends_example :
    ((bind_ports_on mixin false "s" (sandbox "s") ports session).0 ≡ ok tt)
    × ((bind_ports_on mixin false "s" (sandbox "s") ports session).1.net.trace
        ≡ ran "10.0.0.1" "" ∷ [])
    × ((bind_ports_on mixin false "s" (sandbox "s") ports session).1.client.cmds ≡ none)
bind_physical-sends_example =
    bind_physical-sends mixin false "s" (sandbox "s") (port "a") (port "b" ∷ port "c" ∷ []) session
      refl refl refl refl reliable

delete_sandbox-Forgets_example :
    Forgets
      (λ k. "10.0.0.1")
      true
      depot
      (delete_sandbox sandbox_method
        (sandbox "sandbox-a" ∷ sandbox "sandbox-b" ∷ sandbox "sandbox-a" ∷ [])
        true)
      (ran "10.0.0.1" (script_for true ("sandbox-a" ∷ "sandbox-b" ∷ "sandbox-a" ∷ [])) ∷ [])
      (λ name k.
        elem name
          (names_on k (sandbox "sandbox-a" ∷ sandbox "sandbox-b" ∷ sandbox "sandbox-a" ∷ [])))
unfolding lookup clients_at call_client
delete_sandbox-Forgets_example =
    delete_sandbox-Forgets (λ k. "10.0.0.1") true
      (sandbox "sandbox-a" ∷ sandbox "sandbox-b" ∷ sandbox "sandbox-a" ∷ []) depot reliable
      (λ k ks. refl)
      (
        record {
          clients = controller_node;
          there = refl;
          goes_to = refl;
          info = farm_info;
          recorded = refl;
        },
        tt,
      )
