-- ===== src/Scenario/Sandboxes.antt =====
-- scenarios/sandbox.py: sandboxes are started in batches on a farm, and recorded in the database.
pub mod Plan
pub mod Delete
pub mod Entries
use Prim.Native.String.{◌++◌ as ◌append◌}
use ovn_scale_test.Prelude.{
  ℕ, zero, suc, ◌+◌, ◌-◌, min, Bool, true, false, List, [], ◌∷◌, ◌++◌, map, Option, none, some,
  String, ltb, ◌==◌, if◌then◌else◌, range_from, flatten,
}
use ovn_scale_test.Python.Text.{concat, join, str}
use ovn_scale_test.Python.Dict.{Dict, default, lookup, insert}
use ovn_scale_test.Python.Exec.{
  Exec, no_such_config_field, name_error, address_error, index_error, stop_iteration, system_exit,
  resource_not_found, Result, require, raise, get_state, modify, pure, lift, collect, for_each,
  ◌>>=◌, ◌>>◌,
}
use ovn_scale_test.Env.{IpNetwork}
use ovn_scale_test.Topology.{Sandbox}
use ovn_scale_test.Client.{InstallMethod, Session, sandbox_method, docker, physical, ssh_run}
use ovn_scale_test.World.{World, farm, at}
use ovn_scale_test.Deploy.Lookup.{SandboxesInfo, add_sandbox_resource}

-- `sandbox_create_args`
pub record SandboxArgs : Type 0 where
  pub amount : Option ℕ
  pub batch : Option ℕ
  pub start_cidr : String
  pub net_dev : Option String
  pub tag : Option String

-- The positions of the hosts that the rounds of the `while` loop take, from `i` on: `left` is
-- `batch_left`. No round but the last leaves `i` where it is, so `amount` rounds are enough fuel.
unfoldable pub host_plan : ℕ → ℕ → ℕ → ℕ → ℕ → List (List ℕ)
host_plan amount batch zero i left = []
host_plan amount batch (suc fuel) i left =
    let next_left = min batch (amount - (i + left)) in
    let rest = host_plan amount batch fuel (i + left) next_left in
    if ltb i amount then range_from i left ∷ (if next_left == 0 then [] else rest) else []

unfoldable pub plan : ℕ → ℕ → List (List ℕ)
unfolding host_plan
plan amount batch = host_plan amount batch amount 0 (min batch amount)

-- `str(next(sandbox_hosts))`
unfoldable pub host_ip : IpNetwork → ℕ → Exec World String
host_ip cidr i = do
  w ← get_state
  address ← require stop_iteration (w.net.env.iprange cidr.ip cidr.last i)
  pure (w.net.env.show_ip address)

unfoldable pub sandbox_cmd : String → String → IpNetwork → String → String
unfolding concat
sandbox_cmd controller_ip net_dev cidr ip = concat (
    "./ovs-sandbox.sh --ovn --controller-ip "
    ∷ controller_ip
    ∷ "                              --host-ip "
    ∷ ip
    ∷ "/"
    ∷ str cidr.prefixlen
    ∷ " --device "
    ∷ net_dev
    ∷ [])

-- What a round does on the farm.
unfoldable pub start_round : InstallMethod → String → List String → Exec World (Unit {0})
unfolding at
start_round sandbox_method farm_name cmds = do
  out ← at (farm farm_name) "ssh" (ssh_run true (join "\n" cmds))
  pure tt
start_round docker farm_name cmds = pure tt
start_round physical farm_name cmds = pure tt
start_round _ farm_name cmds = raise (system_exit 1)

-- One round: the names of its sandboxes.
unfoldable pub create_round :
    InstallMethod → String → String → String → IpNetwork → List ℕ → Exec World (List String)
unfolding collect host_ip start_round
create_round method farm_name controller_ip net_dev cidr positions = do
  ips ← collect positions (host_ip cidr)
  start_round method farm_name (map (sandbox_cmd controller_ip net_dev cidr) ips)
  pure (map (λ ip. ◌append◌ "sandbox-" ip) ips)

unfoldable pub tag_all : String → List String → Dict String → Dict String
unfolding insert
tag_all tag [] d = d
tag_all tag (name ∷ names) d = tag_all tag names (insert name tag d)

-- The client of the farm is asked for before the rounds, unless the hosts are physical.
unfoldable pub find_farm : InstallMethod → String → Exec World (Unit {0})
unfolding at
find_farm physical farm_name = pure tt
find_farm _ farm_name = at (farm farm_name) "ssh" (pure tt)

-- `_create_sandbox` up to the database: the sandboxes with their tags. A network that is too small
-- ends in a NameError, since `_` is not imported.
unfoldable pub start_rounds :
    InstallMethod → Option String → String → SandboxArgs → Exec World (Dict String)
unfolding plan find_farm create_round tag_all
start_rounds method controller_ip farm_name args = do
  let amount = default 1 args.amount
  ip ← require (no_such_config_field "controller_ip") controller_ip
  w ← get_state
  cidr ← require address_error (w.net.env.parse_network args.start_cidr)
  end_ip ← require index_error (w.net.env.add_ip cidr.ip amount)
  (if w.net.env.has_ip cidr end_ip then pure tt else raise name_error)
  find_farm method farm_name
  rounds ←
      collect (plan amount (default 1 args.batch))
        (create_round method farm_name ip (default "eth0" args.net_dev) cidr)
  pure (tag_all (default "" args.tag) (flatten rounds) [])

-- The hosts, and the record of each farm in rally's database.
pub record Depot : Type 0 where
  pub world : World
  pub records : Dict SandboxesInfo

abbrev pub with_world : {A : Type 0} → Depot → Result A × World → Result A × Depot
with_world d (r, w) = (r, record d { world = w })

-- A method on the hosts.
unfoldable pub on_world : {A : Type 0} → Exec World A → Exec Depot A
on_world m d = with_world d (m d.world)

-- The record of a farm, and a new one in its place. A farm that has none is an error of rally's.
unfoldable pub record_of : String → Exec Depot SandboxesInfo
unfolding lookup
record_of farm_name = do
  d ← get_state
  require (resource_not_found farm_name) (lookup farm_name d.records)

unfoldable pub save_record : String → SandboxesInfo → Exec Depot (Unit {0})
unfolding insert
save_record farm_name info = modify (λ d. record d { records = insert farm_name info d.records })

-- `_create_sandbox`. The dict that it returns is the one that `_add_sandbox_resource` has filled up: it
-- has the earlier sandboxes of the farm, too.
unfoldable pub create_sandbox :
    InstallMethod → Option String → String → SandboxArgs → Exec Depot (Dict String)
unfolding on_world start_rounds record_of add_sandbox_resource save_record
create_sandbox method controller_ip farm_name args = do
  sandboxes ← on_world (start_rounds method controller_ip farm_name args)
  info ← record_of farm_name
  save_record farm_name (add_sandbox_resource sandboxes info)
  pure (add_sandbox_resource sandboxes info).sandboxes

-- One command on a farm, with the install method that has sandboxes to command.
unfoldable pub command_sandbox : InstallMethod → String → String → Exec World (Unit {0})
unfolding at
command_sandbox sandbox_method farm_name cmd = do
  out ← at (farm farm_name) "ssh" (ssh_run true cmd)
  pure tt
command_sandbox _ farm_name cmd = pure tt

-- `_start_sandbox`
unfoldable pub start_sandbox : InstallMethod → List Sandbox → Exec World (Unit {0})
unfolding for_each command_sandbox
start_sandbox method sandboxes =
    for_each sandboxes (λ s.
      command_sandbox method s.farm (concat ("./ovs-sandbox.sh --ovn --start " ∷ s.name ∷ [])))

-- `_stop_sandbox`
unfoldable pub stop_sandbox : InstallMethod → List Sandbox → Bool → Exec World (Unit {0})
unfolding for_each command_sandbox
stop_sandbox method sandboxes graceful = for_each sandboxes (λ s. command_sandbox method s.farm (
    concat (
      "./ovs-sandbox.sh --ovn "
      ∷ (if graceful then "--graceful" else "")
      ∷ " --stop  "
      ∷ s.name
      ∷ [])))
