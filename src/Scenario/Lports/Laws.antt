-- ===== src/Scenario/Lports/Laws.antt =====
-- The methods of scenarios/ovn.py that act on many objects in one batch, or in batches.
use Prim.Native.String.{◌++◌ as ◌append◌}
use ovn_scale_test.Prelude.{
  ℕ, ◌+◌, ◌-◌, ◌/◌, ◌<◌, true, false, ap, List, [], ◌∷◌, ◌++◌, map, none, some, String, ◌≡◌, ◌≢◌,
  refl, arith, length, All,
}
use ovn_scale_test.Python.Exec.{Exec, ok, for_each, pure, next, ◌>>=◌}
use ovn_scale_test.Python.Text.{join}
use ovn_scale_test.Env.{Env, Reliable}
use ovn_scale_test.Topology.{Lswitch}
use ovn_scale_test.Client.{Client, Session, queue, enable_batch_mode}
use ovn_scale_test.Client.Nbctl.Queue.{
  batch_text, queued, queued-queued, for_each-batched, flush_events, flush-waiting, Callable,
}
use ovn_scale_test.Client.Nbctl.Commands.{
  call-batched, lswitch_del, lswitch_port_add, lport_set_addresses, address_args, lport_set_type,
  lport_set_options,
}
use ovn_scale_test.Ovnclients.Batches.Laws.{Batched, all_texts}
use ovn_scale_test.Ovnclients.Batches.Delivery.{Delivers, Delivers-step, in_batches-Delivers}
use ovn_scale_test.Ovnclients.{Mixin, get_ovn_controller}
use ovn_scale_test.Ovnclients.Switches.Laws.{ready}
use ovn_scale_test.Scenario.Lports.{one_batch, delete_lswitch, create_provnet, create_phynet}

-- The session after one script with these commands.
abbrev pub delivered_once : Mixin → List String → Session → Session
delivered_once m texts s = record {
  client = record (ready m s.client) { cmds = none; batch_mode = false };
  net = record (s.net) {
    trace = s.net.trace ++ flush_events (record (ready m s.client) { cmds = some texts });
  };
}

append-cons_ne_nil : (q : List String) (t : String) (ts : List String) → q ++ t ∷ ts ≢ []
append-cons_ne_nil [] t ts e = cc
append-cons_ne_nil (x ∷ q) t ts e = cc

one_batch_sends :
    {A : Type 0} (m : Mixin) (f : A → String) (body : A → Exec Session (Unit {0}))
    → ((x : A) (s : Session) → s.client.batch_mode ≡ true → body x s ≡ (ok tt, queued s (f x ∷ [])))
    → (x : A) (xs : List A) (s : Session) → Reliable s.net.env
    → Callable m.install_method
    → queue s.client ≡ []
    → one_batch m (x ∷ xs) body s ≡ (ok tt, delivered_once m (map f (x ∷ xs)) s)
unfolding one_batch get_ovn_controller enable_batch_mode for_each
one_batch_sends m f body h x xs s reliable known q =
    let t = record s { client = ready m s.client } in
    rw (
      h x t refl,
      for_each-batched f body h xs (f x ∷ []) t refl,
      flush-waiting (queued t (map f (x ∷ xs))) (refl, known)
          (append-cons_ne_nil (queue s.client) (f x) (map f xs)) reliable,
      q,
    )

-- Where no command fails, the install method is one that ovn-nbctl can be called by ("sandbox",
-- "docker" or "physical"), and the queue is empty, `_delete_lswitch` deletes the switches, of
-- which there is one, with one script that calls ovn-nbctl once, in which each is named once and
-- in order; at the end the queue is empty and batch mode is off.
pub delete_lswitch_sends :
    (m : Mixin) (name : String) (names : List String) (s : Session)
    → Reliable s.net.env
    → Callable m.install_method
    → queue s.client ≡ []
    → delete_lswitch m (name ∷ names) s
      ≡ (ok tt, delivered_once m (map (λ n. batch_text "ls-del" [] (n ∷ [])) (name ∷ names)) s)
unfolding delete_lswitch lswitch_del
delete_lswitch_sends m name names s =
    one_batch_sends m (λ n. batch_text "ls-del" [] (n ∷ [])) lswitch_del
      (λ n t b. call-batched "ls-del" [] (n ∷ []) t b) name names s

-- The commands for one provider network port.
abbrev pub provnet_texts : String → Lswitch → ℕ → List String
provnet_texts physnet lswitch d =
    let port = ◌append◌ "provnet-" lswitch.name in
    batch_text "lsp-add" [] (lswitch.name ∷ port ∷ [])
    ∷ batch_text "lsp-set-addresses" [] (port ∷ "unknown" ∷ [])
    ∷ batch_text "lsp-set-type" [] (port ∷ "localnet" ∷ [])
    ∷ batch_text "lsp-set-options" [] (port ∷ ◌append◌ "network_name=" physnet ∷ [])
    ∷ []

abbrev Always : Lswitch → Type 0
Always w = Unit

abbrev pub nothing : Lswitch → ℕ → Unit {0}
nothing w d = tt

unknown_address :
    (port : String) (s : Session)
    → s.client.batch_mode ≡ true
    → lport_set_addresses port (("unknown" ∷ []) ∷ []) s
      ≡ (ok tt, queued s (batch_text "lsp-set-addresses" [] (port ∷ "unknown" ∷ []) ∷ []))
unfolding lport_set_addresses address_args join
unknown_address port s b = call-batched "lsp-set-addresses" [] (port ∷ "unknown" ∷ []) s b

create_provnet_all :
    (physnet : String) (w : Lswitch) (s : Session)
    → s.client.batch_mode ≡ true
    → create_provnet physnet w s ≡ (ok tt, queued s (provnet_texts physnet w s.net.draws))
unfolding create_provnet lswitch_port_add lport_set_type lport_set_options
create_provnet_all physnet w s b =
    let port = ◌append◌ "provnet-" w.name in
    let one = batch_text "lsp-add" [] (w.name ∷ port ∷ []) in
    let two = batch_text "lsp-set-addresses" [] (port ∷ "unknown" ∷ []) in
    let three = batch_text "lsp-set-type" [] (port ∷ "localnet" ∷ []) in
    let four = batch_text "lsp-set-options" [] (port ∷ ◌append◌ "network_name=" physnet ∷ []) in
    rw (
      call-batched "lsp-add" [] (w.name ∷ port ∷ []) s b,
      unknown_address port (queued s (one ∷ [])) b,
      queued-queued s (one ∷ []) (two ∷ []),
      call-batched "lsp-set-type" [] (port ∷ "localnet" ∷ []) (queued s (one ∷ two ∷ [])) b,
      queued-queued s (one ∷ two ∷ []) (three ∷ []),
      call-batched "lsp-set-options" [] (port ∷ ◌append◌ "network_name=" physnet ∷ [])
          (queued s (one ∷ two ∷ three ∷ [])) b,
      queued-queued s (one ∷ two ∷ three ∷ []) (four ∷ []),
    )

no_draw : (d : ℕ) → d + 0 ≡ d
no_draw d = omega arith

create_provnet-Batched :
    (env : Env) (physnet : String)
    → Batched env Always (create_provnet physnet) nothing (provnet_texts physnet) 0
create_provnet-Batched env physnet = record {
  at = λ w s p b e. rw (create_provnet_all physnet w s b, no_draw s.net.draws);
  some_text = λ i d p. cc;
}

All-Always : (ws : List Lswitch) → All Always ws
All-Always [] = tt
All-Always (w ∷ ws) = (tt, All-Always ws)

Delivers-drop :
    {R : Type 0} {method : Exec Session R} {s : Session} {c : Client} {result : R}
    {texts : List String} {rounds : ℕ}
    → Delivers method s c result texts rounds
    → Delivers (method >>= λ r. pure tt) s c tt texts rounds
Delivers-drop {method = method} d = record {
  scripts = d.scripts;
  final = d.final;
  runs = ap (λ p. next p (λ r. pure tt)) d.runs;
  trace = d.trace;
  order = d.order;
  count = d.count;
  full = d.full;
  emptied = d.emptied;
  batch_off = d.batch_off;
}

-- Where no command fails, the install method is one that ovn-nbctl can be called by ("sandbox",
-- "docker" or "physical"), the queue is empty and the batch is positive, `_create_phynet`
-- delivers the four commands that make a provider network port, for each of the switches in
-- order; each script calls ovn-nbctl once with a part of them that is not empty, there are as
-- many scripts as batches, and an empty queue and batch mode off are left.
pub create_phynet-Delivers :
    (m : Mixin) (ws : List Lswitch) (physnet : String) (batch : ℕ) (s : Session)
    → Reliable s.net.env
    → Callable m.install_method
    → 0 < batch
    → queue s.client ≡ []
    → Delivers
        (create_phynet m ws physnet batch)
        s
        (ready m s.client)
        tt
        (all_texts nothing (provnet_texts physnet) 0 ws s.net.draws)
        ((length ws + batch - 1) / batch)
unfolding create_phynet get_ovn_controller enable_batch_mode
create_phynet-Delivers m ws physnet batch s reliable known pos q = Delivers-step refl (
    Delivers-drop (
      in_batches-Delivers s.net.env Always (create_provnet physnet) nothing (provnet_texts physnet)
        0 (create_provnet-Batched s.net.env physnet) reliable batch ws
        (record s { client = ready m s.client }) pos (All-Always ws) refl refl (refl, known) q))
