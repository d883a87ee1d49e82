-- ===== src/Scenario/Lports.antt =====
-- scenarios/ovn.py: switches and logical ports on the northbound database.
pub mod Laws
use Prim.Native.String.{◌++◌ as ◌append◌}
use ovn_scale_test.Prelude.{
  ℕ, suc, ◌+◌, Bool, true, false, List, [], ◌∷◌, ◌++◌, Option, none, some, String, str_eq, range,
  if◌then◌else◌,
}
use ovn_scale_test.Python.Text.{concat, str}
use ovn_scale_test.Python.Dict.{default}
use ovn_scale_test.Python.Exec.{
  Exec, index_error, stop_iteration, attribute_error, name_error, require, raise, get_state, pure,
  lift, for_each, ◌>>=◌, ◌>>◌,
}
use ovn_scale_test.Env.{IpNetwork}
use ovn_scale_test.Topology.{Lport, Lswitch}
use ovn_scale_test.Mac.{base_mac, get_random_mac}
use ovn_scale_test.Client.{Session, enable_batch_mode}
use ovn_scale_test.Client.Nbctl.{flush}
use ovn_scale_test.Client.Nbctl.Commands.{
  lswitch_del, lswitch_port_add, lport_set_addresses, lport_set_port_security, lport_set_type,
  lport_set_options, lport_del, lport_list, lrouter_del,
}
use ovn_scale_test.Client.Nbctl.Queries.{lrouter_list}
use ovn_scale_test.Ovnclients.{Mixin, get_ovn_controller, get_gw_ip, generate_random_name}
use ovn_scale_test.Ovnclients.Batches.{in_batches}
use ovn_scale_test.Ovnclients.Switches.{LswitchArgs, create_lswitches}

-- The pattern of the `_delete` methods: everything in one batch.
unfoldable pub one_batch :
    {A : Type 0} → Mixin → List A → (A → Exec Session (Unit {0})) → Exec Session (Unit {0})
unfolding get_ovn_controller enable_batch_mode for_each
one_batch m xs body = do
  get_ovn_controller m
  enable_batch_mode true
  for_each xs body
  flush
  enable_batch_mode false

unfoldable pub delete_lswitch : Mixin → List String → Exec Session (Unit {0})
unfolding one_batch
delete_lswitch m names = one_batch m names lswitch_del

unfoldable pub delete_lport : Mixin → List Lport → Exec Session (Unit {0})
unfolding one_batch
delete_lport m lports = one_batch m lports (λ lport. lport_del lport.name)

unfoldable pub list_lports : Mixin → List Lswitch → Exec Session (Unit {0})
unfolding get_ovn_controller for_each
list_lports m lswitches = do
  get_ovn_controller m
  for_each lswitches (λ lswitch. lport_list lswitch.name)

-- `_delete_routers`: one command for each router that is listed.
unfoldable pub delete_routers : Mixin → Exec Session (Unit {0})
unfolding get_ovn_controller for_each
delete_routers m = do get_ovn_controller m; names ← lrouter_list; for_each names lrouter_del

-- `lport_create_args`
pub record LportArgs : Type 0 where
  pub batch : Option ℕ
  pub port_security : Option Bool

-- The test that the network has room. The message is made by `_`, which ovn.py does not import: a
-- network that is too small ends in a NameError.
unfoldable pub check_room : IpNetwork → ℕ → ℕ → Exec Session (Unit {0})
check_room network amount shift = do
  s ← get_state
  part ← require index_error (s.net.env.add_ip network.ip amount)
  end_ip ← require index_error (s.net.env.add_ip part shift)
  if s.net.env.has_ip network end_ip then pure tt else raise name_error

-- One round of `_create_switch_lports`, up to the flush, on a switch with a CIDR: `start` is the
-- first address of the range, of which the i-th is taken.
unfoldable pub create_lport :
    LportArgs → List String → Lswitch → IpNetwork → ℕ → Option IpNetwork → ℕ → Exec Session Lport
create_lport args base lswitch network start ext_cidr i = do
  s ← get_state
  address ← require stop_iteration (s.net.env.iprange start network.last i)
  let ip = s.net.env.show_ip address
  name ← (if str_eq ip "" then generate_random_name "lpXXXXXX_XXXXXX" else pure (◌append◌ "lp_" ip))
  mac ← get_random_mac base
  gw ← lift (get_gw_ip network 1)
  ext_gw ← elim ext_cidr [
    | none ↦ pure none
    | some ext ↦ (do g ← lift (get_gw_ip ext 2); pure (some (s.net.env.show_ip g)))
  ]
  lport ←
      lswitch_port_add lswitch.name name mac (concat (ip ∷ "/" ∷ str network.prefixlen ∷ []))
        (s.net.env.show_ip gw) ext_gw
  lport_set_addresses name ((mac ∷ ip ∷ []) ∷ [])
  (if default true args.port_security then lport_set_port_security name (mac ∷ []) else pure tt)
  pure lport

-- A switch with no CIDR: the first port fails at `network_cidr.prefixlen`, after its name and MAC.
unfoldable pub create_lport_nowhere : List String → ℕ → Exec Session Lport
create_lport_nowhere base i = do
  name ← generate_random_name "lpXXXXXX_XXXXXX"
  mac ← get_random_mac base
  raise attribute_error

unfoldable pub create_switch_lports :
    Mixin → LportArgs → Lswitch → ℕ → ℕ → Option IpNetwork → Exec Session (List Lport)
unfolding get_ovn_controller enable_batch_mode check_room
create_switch_lports m args lswitch amount shift ext_cidr =
    let batch = default amount args.batch in
    elim lswitch.cidr [
      | none ↦ (do
        get_ovn_controller m
        enable_batch_mode true
        base ← lift (base_mac m.task_uuid)
        in_batches batch (range amount) (create_lport_nowhere base))
      | some network ↦ (do
        check_room network amount shift
        s ← get_state
        start ← require index_error (s.net.env.add_ip network.ip shift)
        get_ovn_controller m
        enable_batch_mode true
        base ← lift (base_mac m.task_uuid)
        in_batches batch (range amount) (create_lport args base lswitch network start ext_cidr))
    ]

-- The external CIDR of the switch at an index.
unfoldable pub ext_cidr_at : Option IpNetwork → ℕ → Exec Session (Option IpNetwork)
ext_cidr_at none idx = pure none
ext_cidr_at (some c) idx = do
  s ← get_state
  n ← require index_error (s.net.env.next_network c idx)
  pure (some n)

-- `_create_lports`, from the switch at index `idx`.
unfoldable pub create_lports :
    Mixin → LportArgs → ℕ → ℕ → Option IpNetwork → ℕ → List Lswitch → Exec Session (List Lport)
unfolding ext_cidr_at
create_lports m args amount shift ext_cidr idx [] = pure []
create_lports m args amount shift ext_cidr idx (lswitch ∷ rest) = do
  ext ← ext_cidr_at ext_cidr idx
  lports ← create_switch_lports m args lswitch amount shift ext
  others ← create_lports m args amount shift ext_cidr (idx + 1) rest
  pure (lports ++ others)

-- One round of `_create_phynet`.
unfoldable pub create_provnet : String → Lswitch → Exec Session (Unit {0})
create_provnet physnet lswitch = do
  let port = ◌append◌ "provnet-" lswitch.name
  made ← lswitch_port_add lswitch.name port "" "" "" none
  lport_set_addresses port (("unknown" ∷ []) ∷ [])
  lport_set_type port "localnet"
  lport_set_options port (◌append◌ "network_name=" physnet ∷ [])

unfoldable pub create_phynet : Mixin → List Lswitch → String → ℕ → Exec Session (Unit {0})
unfolding get_ovn_controller enable_batch_mode
create_phynet m lswitches physnet batch = do
  get_ovn_controller m
  enable_batch_mode true
  done ← in_batches batch lswitches (create_provnet physnet)
  pure tt

-- `_create_networks`
unfoldable pub create_networks : Mixin → LswitchArgs → Option ℕ → Exec Session (List Lswitch)
unfolding create_phynet
create_networks m args num_networks = do
  lswitches ← create_lswitches m args num_networks
  elim args.physical_network [
    | none ↦ pure tt
    | some physnet ↦ create_phynet m lswitches physnet (default (count lswitches) args.batch)
  ]
  pure lswitches
  where
    count : List Lswitch → ℕ
    count [] = 0
    count (w ∷ ws) = suc (count ws)
