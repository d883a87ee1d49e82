-- ===== src/Deploy/Chassis.antt =====
-- ansible/library/generate_chassis_ip_pairs.py: an address for each chassis, and a host for each
-- address. The addresses are `netaddr.iter_iprange(sandbox_cidr.ip, sandbox_cidr.last)`.
pub mod Counts
use ovn_scale_test.Prelude.{
  ℕ, ◌+◌, ◌-◌, ◌/◌, List, [], ◌∷◌, map, Option, none, some, String, ◌==◌, leb, if◌then◌else◌, range,
}
use ovn_scale_test.Python.Exec.{Result, ok, err, zero_division, stop_iteration}
use ovn_scale_test.Env.{Env, IpNetwork}

-- What the module reports, less the length of the prefix; `ip_index_list` is reported as the text of this
-- list.
pub record ChassisPairs : Type 0 where
  pub ip_index : List ℕ
  pub ip_index_list : List String
  pub farm_index : List ℕ
  pub num_sandbox_farm : List ℕ
  pub start_cidr_farm : List String

-- The host of the i-th address: what does not divide goes to the last one.
unfoldable pub chassis_index : ℕ → ℕ → ℕ → ℕ
chassis_index hosts per_host i = if leb hosts (i / per_host) then hosts - 1 else i / per_host

-- `overflow` after the addresses.
unfoldable pub overflow : ℕ → ℕ → List ℕ → ℕ
overflow hosts per_host [] = 0
overflow hosts per_host (i ∷ is) =
    (if leb hosts (i / per_host) then 1 else 0) + overflow hosts per_host is

-- The addresses at these positions of the range, each as a text.
unfoldable pub addresses : Env → IpNetwork → List ℕ → Result (List String)
addresses env net [] = ok []
addresses env net (i ∷ is) =
    let rest = addresses env net is in
    elim (env.iprange net.ip net.last i) [
      | none ↦ err stop_iteration
      | some a ↦ elim rest [ err e ↦ err e | ok texts ↦ ok (env.show_ip a ∷ texts) ]
    ]

-- `num_sandbox` of a host.
unfoldable pub num_sandbox : ℕ → ℕ → ℕ → ℕ → ℕ
num_sandbox hosts per_host over i = if i == hosts - 1 then per_host + over else per_host

-- The first addresses of the hosts, from position `at` of the range on. A host takes its first
-- address and one less than its number of others, all of which must be there.
unfoldable pub starts : Env → IpNetwork → ℕ → List ℕ → Result (List String)
unfolding addresses
starts env net at [] = ok []
starts env net at (n ∷ ns) =
    let rest = starts env net (at + 1 + (n - 1)) ns in
    elim (addresses env net (range_at at (1 + (n - 1)))) [
      | err e ↦ err e
      | ok [] ↦ err stop_iteration
      | ok (first ∷ others) ↦ elim rest [ err e ↦ err e | ok texts ↦ ok (first ∷ texts) ]
    ]
  where
    range_at : ℕ → ℕ → List ℕ
    range_at at n = map (λ i. at + i) (range n)

-- `main`, from the network and the two numbers. With more hosts than addresses there is no chassis
-- per host, and the index of the first address divides by zero.
unfoldable pub chassis_pairs : Env → IpNetwork → ℕ → ℕ → Result ChassisPairs
unfolding chassis_index overflow addresses num_sandbox starts
chassis_pairs env net hosts num_ip =
    let per_host = num_ip / hosts in
    let counts =
      map (num_sandbox hosts per_host (overflow hosts per_host (range num_ip))) (range hosts) in
    if hosts == 0
    then err zero_division
    else if per_host == 0
    then (if num_ip == 0 then report counts [] [] else err zero_division)
    else elim (addresses env net (range num_ip)) [
      | err e ↦ err e
      | ok ips ↦ report counts (map (chassis_index hosts per_host) (range num_ip)) ips
    ]
  where
    report : List ℕ → List ℕ → List String → Result ChassisPairs
    report counts index ips = elim (starts env net 0 counts) [
      | err e ↦ err e
      | ok first ↦ ok (record {
        ip_index = index;
        ip_index_list = ips;
        farm_index = range hosts;
        num_sandbox_farm = counts;
        start_cidr_farm = first;
      })
    ]
