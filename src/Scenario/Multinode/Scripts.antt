-- ===== src/Scenario/Multinode/Scripts.antt =====
-- scenarios/ovn_fake_multinode.py: what the entry points send to the hosts.
use ovn_scale_test.Prelude.{
  ℕ, List, [], ◌∷◌, ◌++◌, map, none, some, String, ◌==◌, ◌≡◌, ◌≢◌, refl, sym, ap, ◌∙◌, arith,
  flat_map, append_assoc, append-nil, All, length, range, false,
}
use ovn_scale_test.Python.Text.{concat, text_of}
use ovn_scale_test.Python.Dict.{Dict, lookup, default}
use ovn_scale_test.Python.Exec.{Exec, next, Result, ok, err, for_each}
use ovn_scale_test.Env.{Event, IpNetwork, Reliable}
use ovn_scale_test.Topology.{Sandbox}
use ovn_scale_test.Client.{unset, queue}
use ovn_scale_test.Ovnclients.{Mixin}
use ovn_scale_test.World.{World, Clients, farm, clients_at}
use ovn_scale_test.Scenario.Multinode.{
  FakeArgs, get_sandbox, node_name, number_of, add_chassis_pieces, add_chassis,
}
use ovn_scale_test.Scenario.Multinode.Nodes.{
  node_index, farm_name, node_at, each_node, address_of, add_node, add_chassis_nodes,
}
use ovn_scale_test.Scenario.Multinode.Hosts.{
  ssh_client, host_events, Follows, Follows-refl, Follows-trans, Serves, on_node-Serves,
}

-- Steps that each serve, whatever served steps came before them.
pub for_each-Serves :
    {A : Type 0} (body : A → Exec World (Unit {0})) (events : A → List Event) (P : A → Type 0)
    (w : World)
    → ((x : A) (v : World) → P x → Follows w v → Serves v (events x) (body x v))
    → (xs : List A) (v : World) → All P xs
    → Follows w v
    → Serves v (flat_map events xs) (for_each xs body v)
unfolding for_each
for_each-Serves body events P w step [] v all f = record {
  final = v;
  is = refl;
  trace = sym (append-nil v.net.trace);
  follows = Follows-refl v;
}
for_each-Serves body events P w step (x ∷ xs) v all f =
    let first = step x v all.0 f in
    let rest =
      for_each-Serves body events P w step xs first.final all.1
        (Follows-trans w v first.final f first.follows) in
    record {
      final = rest.final;
      is = rw first.is rest.is;
      trace =
          rest.trace
          ∙ ap (λ t. t ++ flat_map events xs) first.trace
          ∙ append_assoc v.net.trace (events x) (flat_map events xs);
      follows = Follows-trans v first.final rest.final first.follows rest.follows;
    }

-- What is known of the node with a number: its sandbox, its address, and the clients of its host.
pub record Node : Type 0 where
  pub sandbox : Sandbox
  pub address : String
  pub clients : Clients

some-length :
    (k : String) (d : Dict Sandbox) {sb : Sandbox} → lookup k d ≡ some sb → (length d == 0) ≡ false
unfolding lookup
some-length k [] h = cc
some-length k (e ∷ d) h = ground arith

pub node_at-found :
    (sandboxes : Dict Sandbox) (args : FakeArgs) (index : ℕ) (v : World) {sb : Sandbox}
    → lookup (farm_name args (length sandboxes) index) sandboxes ≡ some sb
    → node_at sandboxes args index v ≡ (ok sb, v)
unfolding node_at get_sandbox farm_name
node_at-found sandboxes args index v h =
    rw (some-length (farm_name args (length sandboxes) index) sandboxes h, h) refl

next_cong :
    {A B : Type 0} (p : Result A × World) (k k' : A → Exec World B)
    → ((a : A) (v : World) → k a v ≡ k' a v)
    → next p k ≡ next p k'
next_cong (ok a, v) k k' h = h a v
next_cong (err e, v) k k' h = refl

for_each-map :
    {A B : Type 0} (f : A → B) (body : B → Exec World (Unit {0})) (xs : List A) (v : World)
    → for_each xs (λ x. body (f x)) v ≡ for_each (map f xs) body v
unfolding for_each
for_each-map f body [] v = refl
for_each-map f body (x ∷ xs) v =
    next_cong (body (f x) v) (λ u. for_each xs (λ x. body (f x))) (λ u. for_each (map f xs) body)
      (λ u. for_each-map f body xs)

module _ (m : Mixin) (sandboxes : Dict Sandbox) (args : FakeArgs) (w : World) (cidr : IpNetwork)
    (nodes : ℕ → Node) (reliable : Reliable w.net.env) (known : m.install_method ≢ unset) where
  -- The sandbox is in the dict, netaddr has the address, and the host is there with an empty queue.
  abbrev pub Prepared : ℕ → Type 0
  Prepared index =
      (lookup (farm_name args (length sandboxes) index) sandboxes ≡ some (nodes index).sandbox)
      × (address_of w.net.env cidr index ≡ some (nodes index).address)
      × (clients_at (farm (nodes index).sandbox.farm) w ≡ ok (nodes index).clients)
      × (queue (ssh_client (nodes index).clients) ≡ [])

  -- The command that adds a node, on the host of its sandbox.
  abbrev pub added : ℕ → List Event
  added index =
      let n = nodes index in
      host_events m (ssh_client n.clients) none
        (add_chassis_pieces args n.address (node_name n.sandbox))

  add_node-Serves :
      (index : ℕ) (v : World)
      → Prepared index
      → Follows w v
      → Serves v (added index) (add_node m sandboxes args cidr index v)
  unfolding add_node add_chassis
  add_node-Serves index v (found, address, there, idle) f =
      let n = nodes index in
      let (cs, there', host, root, idle') = f.hosts n.sandbox.farm n.clients there idle in
      let c =
        on_node-Serves m n.sandbox none (add_chassis_pieces args n.address (node_name n.sandbox)) v
          cs (rw f.env reliable) known there' idle' in
      let here : address_of v.net.env cidr index ≡ some n.address = rw f.env address in
      record {
        final = c.final;
        is = rw (here, node_at-found sandboxes args index v found) c.is;
        trace = c.trace ∙ rw host refl;
        follows = c.follows;
      }

  -- Where no command fails, an install method is set, and each node of the batch has a sandbox in the
  -- dict, an address in the network and a host with an empty queue, `add_chassis_nodes` returns, and
  -- has run the command that adds the node on the host of its sandbox, once for each node and in order.
  pub add_chassis_nodes-sends :
      (iteration : ℕ)
      → w.net.env.parse_network
          (concat (text_of args.node_net ∷ "/" ∷ number_of args.node_net_len ∷ []))
        ≡ some cidr
      → All Prepared (
          map
            (node_index iteration (default 1 args.batch_size))
            (range (default 1 args.batch_size)))
      → (final : World) × (add_chassis_nodes m sandboxes iteration args w ≡ (ok tt, final))
        × (final.net.trace
            ≡ w.net.trace
              ++ flat_map added (
                  map
                    (node_index iteration (default 1 args.batch_size))
                    (range (default 1 args.batch_size))))
  unfolding add_chassis_nodes each_node
  add_chassis_nodes-sends iteration net ready =
      let indices =
        map (node_index iteration (default 1 args.batch_size))
          (range (default 1 args.batch_size)) in
      let c =
        for_each-Serves (add_node m sandboxes args cidr) added Prepared w add_node-Serves indices w
          ready (Follows-refl w) in
      (
        c.final,
        rw net (
            for_each-map (node_index iteration (default 1 args.batch_size))
              (add_node m sandboxes args cidr) (range (default 1 args.batch_size)) w
            ∙ c.is),
        c.trace,
      )
