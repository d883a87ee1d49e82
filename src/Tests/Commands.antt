-- ===== src/Tests/Commands.antt =====
-- The theorems on the clients and on the switches and routers, at the concrete inputs.
use ovn_scale_test.Tests.{
  net24, env, session, waiting, refused, mixin, world, reliable, lswitch_args, router_args, switch,
  two_routers, five_networks, controller_node,
}
use ovn_scale_test.Prelude.{
  ◌≤◌, ◌≡◌, refl, arith, true, [], ◌∷◌, map, none, some, range, length, All, take,
}
use ovn_scale_test.Python.Text.{concat}
use ovn_scale_test.Python.Exec.{ok, err, ssh_error, ◌>>=◌}
use ovn_scale_test.Client.{enable_batch_mode}
use ovn_scale_test.Client.Nbctl.{run, flush}
use ovn_scale_test.Client.Nbctl.Queue.{flushed, tried, flush-sends, flush-fails-flush, batch_text}
use ovn_scale_test.World.{
  Clients, controller, at, clients_at, call_client, cleanup_clients, create_client,
}
use ovn_scale_test.World.Sharing.{at-at, cleanup_forgets}
use ovn_scale_test.Ovnclients.Batches.Laws.{all_values, all_texts}
use ovn_scale_test.Ovnclients.Batches.Delivery.{Delivers}
use ovn_scale_test.Ovnclients.Switches.{create_lswitches, parse_start_cidr}
use ovn_scale_test.Ovnclients.Switches.Laws.{
  ready, lswitch_at, lswitches_texts, create_lswitches-Delivers,
}
use ovn_scale_test.Ovnclients.Routers.{create_routers, router_networks}
use ovn_scale_test.Ovnclients.Routers.Laws.{
  lrouter_at, lrouter_texts, create_routers-Delivers, served, router_networks_partition,
}
use ovn_scale_test.Scenario.Lports.{create_phynet, delete_lswitch}
use ovn_scale_test.Scenario.Lports.Laws.{
  provnet_texts, nothing, create_phynet-Delivers, delivered_once, delete_lswitch_sends,
}
use ovn_scale_test.Client.Nbctl.Commands.{sync}
use ovn_scale_test.Client.Nbctl.Sync.{called_alone, sync-sends}

-- A queue of two goes out in one script.
flush-sends_example : flush waiting ≡ (ok tt, flushed waiting)
flush-sends_example = flush-sends waiting (refl, tt) reliable

flush-fails-flush_example :
    (flush refused ≡ (err ssh_error, tried refused))
    × (flush (tried refused) ≡ (ok tt, flushed (tried refused)))
flush-fails-flush_example = flush-fails-flush refused (refl, tt) (λ e. cc) refl refl

-- Three switches in two scripts.
create_lswitches-Delivers_example :
    Delivers
      (create_lswitches mixin lswitch_args none)
      session
      (ready mixin session.client)
      (all_values
        (lswitch_at env (some (net24 1)))
        (lswitches_texts env lswitch_args (some (net24 1)))
        1
        (range 3)
        0)
      (all_texts
        (lswitch_at env (some (net24 1)))
        (lswitches_texts env lswitch_args (some (net24 1)))
        1
        (range 3)
        0)
      2
unfolding parse_start_cidr
create_lswitches-Delivers_example =
    create_lswitches-Delivers mixin lswitch_args none (some (net24 1)) session reliable tt refl
      ((net24 1, refl), ((net24 2, refl), ((net24 3, refl), tt))) (omega arith) refl

create_routers-Delivers_example :
    Delivers
      (create_routers mixin router_args)
      session
      (ready mixin session.client)
      (all_values (lrouter_at env) (lrouter_texts env) 1 (range 5) 0)
      (all_texts (lrouter_at env) (lrouter_texts env) 1 (range 5) 0)
      3
create_routers-Delivers_example =
    create_routers-Delivers mixin router_args session reliable tt (omega arith) refl

create_phynet-Delivers_example :
    Delivers
      (create_phynet mixin (switch "a" ∷ switch "b" ∷ switch "c" ∷ []) "providernet" 2)
      session
      (ready mixin session.client)
      tt
      (all_texts nothing
        (provnet_texts "providernet")
        0
        (switch "a" ∷ switch "b" ∷ switch "c" ∷ [])
        0)
      2
create_phynet-Delivers_example =
    create_phynet-Delivers mixin (switch "a" ∷ switch "b" ∷ switch "c" ∷ []) "providernet" 2 session
      reliable tt (omega arith) refl

delete_lswitch_sends_example : delete_lswitch mixin ("a" ∷ "b" ∷ []) session ≡ (
  ok tt,
  delivered_once mixin (map (λ n. batch_text "ls-del" [] (n ∷ [])) ("a" ∷ "b" ∷ [])) session,
)
delete_lswitch_sends_example = delete_lswitch_sends mixin "a" ("b" ∷ []) session reliable tt refl

router_networks_partition_example :
    (served (router_networks 2 two_routers five_networks) ≡ take 4 five_networks)
    × All (λ p. length p.1 ≤ 2) (router_networks 2 two_routers five_networks)
    × (map (λ p. p.0) (router_networks 2 two_routers five_networks) ≡ two_routers)
router_networks_partition_example = router_networks_partition 2 two_routers five_networks

at-at_example :
    (at controller "ovn-nbctl" (run "ls-list" [] [] true) >>= λ out.
    at controller "ovn-nbctl" (enable_batch_mode true))
      world
    ≡ at controller "ovn-nbctl" (run "ls-list" [] [] true >>= λ out. enable_batch_mode true) world
at-at_example =
    at-at controller "ovn-nbctl" (run "ls-list" [] [] true) (λ out. enable_batch_mode true) world

cleanup_forgets_example :
    (cs' : Clients) × (clients_at controller (cleanup_clients world) ≡ ok cs')
    × (call_client "ovn-nbctl" cs' ≡ create_client (record { user = "root"; host = "10.0.0.1" }))
unfolding clients_at
cleanup_forgets_example = cleanup_forgets controller "ovn-nbctl" world {cs = controller_node} refl

sync-sends_example : sync "hv" waiting ≡ (ok tt, called_alone waiting "--wait=hv sync")
unfolding concat
sync-sends_example = sync-sends "hv" waiting reliable (refl, tt) refl (λ e. cc)
