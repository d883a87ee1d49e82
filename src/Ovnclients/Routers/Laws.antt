-- ===== src/Ovnclients/Routers/Laws.antt =====
-- What `_create_routers` delivers, and which networks `_connect_networks_to_routers` gives a router.
use ovn_scale_test.Prelude.{
  ℕ, zero, suc, ◌+◌, ◌-◌, ◌*◌, ◌/◌, ◌<◌, ◌≤◌, List, [], ◌∷◌, ◌++◌, map, String, ◌≡◌, refl, ap, ◌∙◌,
  arith, range, length, All, take, drop, flat_map, length-take,
}
use ovn_scale_test.Python.Dict.{default}
use ovn_scale_test.Env.{Env, Reliable, draw}
use ovn_scale_test.Topology.{Lrouter}
use ovn_scale_test.Client.{Session, queue, enable_batch_mode}
use ovn_scale_test.Client.Nbctl.Queue.{batch_text, Callable}
use ovn_scale_test.Client.Nbctl.Commands.{lrouter_add, call-batched}
use ovn_scale_test.Ovnclients.Batches.Laws.{Batched, all_values, all_texts}
use ovn_scale_test.Ovnclients.Batches.Delivery.{Delivers, Delivers-step, in_batches-Delivers}
use ovn_scale_test.Ovnclients.{Mixin, get_ovn_controller}
use ovn_scale_test.Ovnclients.Switches.Laws.{ready}
use ovn_scale_test.Ovnclients.Routers.{RouterArgs, create_router, create_routers, router_networks}

-- The router that takes the `d`-th name, and its command.
abbrev pub lrouter_at : Env → ℕ → ℕ → Lrouter
lrouter_at env i d = record { name = env.random_name d "lrouter_XXXXXX_XXXXXX" }

abbrev pub lrouter_texts : Env → ℕ → ℕ → List String
lrouter_texts env i d = batch_text "lr-add" [] ((lrouter_at env i d).name ∷ []) ∷ []

abbrev Always : ℕ → Type 0
Always i = Unit

create_router-Batched :
    (env : Env) → Batched env Always create_router (lrouter_at env) (lrouter_texts env) 1
unfolding create_router draw lrouter_add
create_router-Batched env = record {
  at = λ i s p b e. rw (← e) (
      rw (
        call-batched "lr-add" [] (s.net.env.random_name s.net.draws "lrouter_XXXXXX_XXXXXX" ∷ [])
          (record s { net = record (s.net) { draws = s.net.draws + 1 } }) b));
  some_text = λ i d p. cc;
}

All-Always : (xs : List ℕ) → All Always xs
All-Always [] = tt
All-Always (x ∷ xs) = (tt, All-Always xs)

abbrev pub amount_of : RouterArgs → ℕ
amount_of args = default 1 args.amount

-- Where no command fails, the install method is one that ovn-nbctl can be called by ("sandbox",
-- "docker" or "physical"), the queue is empty and the batch is positive, `_create_routers`
-- returns the routers with the names that are drawn, in order, and delivers one command for each
-- of them, in order; each script calls ovn-nbctl once with a part of them that is not empty,
-- there are as many scripts as batches, and an empty queue and batch mode off are left.
pub create_routers-Delivers :
    (m : Mixin) (args : RouterArgs) (s : Session)
    → Reliable s.net.env
    → Callable m.install_method
    → 0 < default 1 args.batch
    → queue s.client ≡ []
    → Delivers
        (create_routers m args)
        s
        (ready m s.client)
        (all_values
          (lrouter_at s.net.env)
          (lrouter_texts s.net.env)
          1
          (range (amount_of args))
          s.net.draws)
        (all_texts
          (lrouter_at s.net.env)
          (lrouter_texts s.net.env)
          1
          (range (amount_of args))
          s.net.draws)
        ((length (range (amount_of args)) + default 1 args.batch - 1) / default 1 args.batch)
unfolding create_routers get_ovn_controller enable_batch_mode
create_routers-Delivers m args s reliable known pos q = Delivers-step refl (
    in_batches-Delivers s.net.env Always create_router (lrouter_at s.net.env)
      (lrouter_texts s.net.env) 1 (create_router-Batched s.net.env) reliable (default 1 args.batch)
      (range (amount_of args)) (record s { client = ready m s.client }) pos
      (All-Always (range (amount_of args))) refl refl (refl, known) q)

-- The networks of all routers, in the order in which they are connected.
abbrev pub served : {R N : Type 0} → List (R × List N) → List N
served = flat_map (λ p. p.1)

take_nil : {N : Type 0} (n : ℕ) → take {A = N} n [] ≡ []
take_nil zero = refl
take_nil (suc n) = refl

suc_add : (n m : ℕ) → suc n + m ≡ suc (n + m)
suc_add n m = omega arith

zero_add : (m : ℕ) → 0 + m ≡ m
zero_add m = omega arith

take-take-drop :
    {N : Type 0} (n m : ℕ) (xs : List N) → take n xs ++ take m (drop n xs) ≡ take (n + m) xs
take-take-drop zero m xs = rw (zero_add m)
take-take-drop (suc n) m [] = rw (suc_add n m) (take_nil m)
take-take-drop (suc n) m (x ∷ xs) = rw (suc_add n m) (ap (λ l. x ∷ l) (take-take-drop n m xs))

mul_zero : (per : ℕ) → 0 * per ≡ 0
mul_zero per = omega arith

mul_suc : (n per : ℕ) → suc n * per ≡ per + n * per
mul_suc n per = grind arith

-- `_connect_networks_to_routers` connects the networks in order, each to one router, and each router
-- to at most `networks_per_router`: all that it connects are the first `networks_per_router` times as
-- many networks as there are routers.
pub router_networks_partition :
    {R N : Type 0} (per : ℕ) (rs : List R) (ns : List N)
    → (served (router_networks per rs ns) ≡ take (length rs * per) ns)
      × All (λ p. length p.1 ≤ per) (router_networks per rs ns)
      × (map (λ p. p.0) (router_networks per rs ns) ≡ rs)
unfolding router_networks
router_networks_partition per [] ns = (rw (mul_zero per), tt, refl)
router_networks_partition per (r ∷ rs) ns =
    let ih = router_networks_partition per rs (drop per ns) in
    (
      rw (mul_suc (length rs) per)
          (ap (λ l. take per ns ++ l) ih.0 ∙ take-take-drop per (length rs * per) ns),
      (omega (arith, length-take per ns), ih.1),
      ap (λ l. r ∷ l) ih.2,
    )
