-- ===== src/Ovnclients/Switches.antt =====
-- ovnclients.py `_create_lswitches`.
pub mod Laws
use ovn_scale_test.Prelude.{
  ℕ, true, false, List, [], ◌∷◌, Option, none, some, String, str_eq, range, if◌then◌else◌,
}
use ovn_scale_test.Python.Text.{concat, str}
use ovn_scale_test.Python.Exec.{
  Exec, address_error, index_error, require, get_state, pure, ◌>>=◌, ◌>>◌,
}
use ovn_scale_test.Python.Dict.{default}
use ovn_scale_test.Env.{IpNetwork}
use ovn_scale_test.Topology.{Lswitch}
use ovn_scale_test.Client.{Session, enable_batch_mode}
use ovn_scale_test.Client.Nbctl.{flush}
use ovn_scale_test.Client.Nbctl.Commands.{lswitch_add}
use ovn_scale_test.Ovnclients.{Mixin, get_ovn_controller, generate_random_name}
use ovn_scale_test.Ovnclients.Batches.{in_batches}

-- `lswitch_create_args`; `none` is a key that the dict lacks.
pub record LswitchArgs : Type 0 where
  pub amount : Option ℕ
  pub batch : Option ℕ
  pub start_cidr : String
  pub mcast_snoop : Option String
  pub mcast_idle_timeout : Option ℕ
  pub mcast_table_size : Option ℕ
  pub physical_network : Option String

-- `other_cfg`
unfoldable pub mcast_config : LswitchArgs → List (String × String)
mcast_config args =
    ("mcast_snoop", default "false" args.mcast_snoop)
    ∷ ("mcast_idle_timeout", str (default 300 args.mcast_idle_timeout))
    ∷ ("mcast_table_size", str (default 2048 args.mcast_table_size))
    ∷ []

unfoldable pub parse_start_cidr : String → Exec Session (Option IpNetwork)
parse_start_cidr text = if str_eq text "" then pure none else (do
  s ← get_state
  network ← require address_error (s.net.env.parse_network text)
  pure (some network))

-- `cidr = start_cidr.next(i)` and the name after it, or a random name: a first one is drawn in
-- either case.
unfoldable pub name_lswitch : Option IpNetwork → ℕ → Exec Session (String × Option IpNetwork)
unfolding generate_random_name
name_lswitch none i = do
  unused ← generate_random_name "lswitch_XXXXXX_XXXXXX"
  name ← generate_random_name "lswitch_XXXXXX_XXXXXX"
  pure (name, none)
name_lswitch (some start_cidr) i = do
  unused ← generate_random_name "lswitch_XXXXXX_XXXXXX"
  s ← get_state
  cidr ← require index_error (s.net.env.next_network start_cidr i)
  pure (concat ("lswitch_" ∷ s.net.env.show_network cidr ∷ []), some cidr)

-- One round of the loop, up to the flush.
unfoldable pub create_lswitch : LswitchArgs → Option IpNetwork → ℕ → Exec Session Lswitch
unfolding name_lswitch mcast_config
create_lswitch args start_cidr i = do
  named ← name_lswitch start_cidr i
  lswitch ← lswitch_add named.0 (mcast_config args)
  pure (record lswitch { cidr = named.1 })

unfoldable pub create_lswitches : Mixin → LswitchArgs → Option ℕ → Exec Session (List Lswitch)
unfolding get_ovn_controller enable_batch_mode parse_start_cidr
create_lswitches m args num_switches = do
  let amount = default (default 1 args.amount) num_switches
  let batch = default amount args.batch
  start_cidr ← parse_start_cidr args.start_cidr
  get_ovn_controller m
  enable_batch_mode true
  in_batches batch (range amount) (create_lswitch args start_cidr)
