-- ===== src/Scenario/Multinode/Addresses.antt =====
-- scenarios/ovn_fake_multinode.py: the numbers and the addresses of the nodes.
use ovn_scale_test.Prelude.{
  ℕ, ◌+◌, ◌/◌, ◌<◌, ◌≤◌, none, some, String, ◌≡◌, sym, ap, ◌∙◌, arith, ◌⊎◌, inl, inr,
}
use ovn_scale_test.Env.{Env, IpNetwork}
use ovn_scale_test.Scenario.Multinode.Nodes.{node_index, address_of}

-- The iteration and the place in it can be read off a node's number.
node_index-iteration : (k b i : ℕ) → i < b → node_index k b i / b ≡ k
unfolding node_index
node_index-iteration k b i h = grind arith

node_index-place : (k b i j : ℕ) → node_index k b i ≡ node_index k b j → i ≡ j
unfolding node_index
node_index-place k b i j h = omega arith

node_index_injective :
    (k l b i j : ℕ) → i < b → j < b → node_index k b i ≡ node_index l b j → (k ≡ l) × (i ≡ j)
node_index_injective k l b i j hi hj e =
    let same : k ≡ l =
      sym (node_index-iteration k b i hi) ∙ ap (λ n. n / b) e ∙ node_index-iteration l b j hj in
    (same, node_index-place k b i j (rw (← same) at e))

-- The sum that an address is, where netaddr has it.
address_of-shown :
    (env : Env) (cidr : IpNetwork) (index : ℕ) (t : String)
    → ((a n : ℕ) → (env.add_ip a n ≡ none) ⊎ (env.add_ip a n ≡ some (a + n)))
    → address_of env cidr index ≡ some t
    → t ≡ env.show_ip (cidr.ip + index + 1)
unfolding address_of
address_of-shown env cidr index t adds h = elim (adds cidr.ip index) [
  | inl e ↦ cc (sym (rw (e, address_of) at h))
  | inr e ↦ elim (adds (cidr.ip + index) 1) [
    | inl f ↦ cc (sym (rw (e, address_of, f) at h))
    | inr f ↦ cc (sym (rw (e, address_of, f) at h))
  ]
]

-- Where netaddr adds numbers to addresses and prints different addresses up to the last one of the
-- network differently, two nodes with the same address, both up to that last one, are one node: they
-- have the same iteration and the same place in it.
pub address_of_injective :
    (env : Env) (cidr : IpNetwork) (batch k l i j : ℕ) (t : String)
    → ((a n : ℕ) → (env.add_ip a n ≡ none) ⊎ (env.add_ip a n ≡ some (a + n)))
    → ((a b : ℕ) → a ≤ cidr.last → b ≤ cidr.last → env.show_ip a ≡ env.show_ip b → a ≡ b)
    → i < batch
    → j < batch
    → cidr.ip + node_index k batch i + 1 ≤ cidr.last
    → cidr.ip + node_index l batch j + 1 ≤ cidr.last
    → address_of env cidr (node_index k batch i) ≡ some t
    → address_of env cidr (node_index l batch j) ≡ some t
    → (k ≡ l) × (i ≡ j)
address_of_injective env cidr batch k l i j t adds shows hi hj ek el e f =
    node_index_injective k l batch i j hi hj (
      omega (
        arith,
        shows (cidr.ip + node_index k batch i + 1) (cidr.ip + node_index l batch j + 1) ek el (
            sym (address_of-shown env cidr (node_index k batch i) t adds e)
            ∙ address_of-shown env cidr (node_index l batch j) t adds f),
      ))
