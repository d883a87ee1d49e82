-- ===== src/Scenario/Wait.antt =====
-- scenarios/ovn.py: `_bind_ports_and_wait` and the ways of waiting for a port.
use ovn_scale_test.Prelude.{
  ℕ, ◌+◌, ◌%◌, Bool, true, false, ◌||◌, List, [], ◌∷◌, String, str_eq, ◌==◌, if◌then◌else◌,
}
use ovn_scale_test.Python.Dict.{default}
use ovn_scale_test.Python.Exec.{Exec, name_error, raise, pure, ◌>>◌}
use ovn_scale_test.Values.{column, scalar, text}
use ovn_scale_test.Topology.{Lport, Sandbox}
use ovn_scale_test.Client.{Session, enable_batch_mode}
use ovn_scale_test.Client.Nbctl.{flush}
use ovn_scale_test.Client.Nbctl.Commands.{wait_until, sync}
use ovn_scale_test.Ovnclients.{Mixin, get_ovn_controller}
use ovn_scale_test.World.{World, controller, at}
use ovn_scale_test.Scenario.Bind.{BindArgs, bind_ports}

-- `_wait_up_port_lsp`, from the port at an index on.
unfoldable pub wait_up_port_lsp : ℕ → List Lport → Exec Session (Unit {0})
wait_up_port_lsp index [] = flush
wait_up_port_lsp index (p ∷ ps) = do
  wait_until "Logical_Switch_Port" p.name (column "up" (scalar (text "true")) ∷ [])
  (if index % 400 == 0 then flush else pure tt)
  wait_up_port_lsp (index + 1) ps

-- `_wait_up_port_sync`
unfoldable pub wait_up_port_sync : String → Exec Session (Unit {0})
wait_up_port_sync wait_sync = sync wait_sync

-- The commands on the northbound database.
unfoldable pub wait_up_on : Mixin → List Lport → String → Exec Session (Unit {0})
unfolding get_ovn_controller enable_batch_mode wait_up_port_lsp wait_up_port_sync
wait_up_on m lports wait_sync = do
  get_ovn_controller m
  enable_batch_mode true
  wait_up_port_lsp 0 lports
  (if str_eq wait_sync "none" then pure tt else wait_up_port_sync wait_sync)
  flush
  enable_batch_mode false

-- `_wait_up_port`. Waiting by ping goes by the clock, and is a parameter.
unfoldable pub wait_up_port :
    Mixin
    → (List Lport → ℕ → Exec World (Unit {0}))
    → List Lport
    → String
    → ℕ
    → Exec World (Unit {0})
unfolding at wait_up_on
wait_up_port m wait_up_port_ping lports wait_sync wait_timeout_s =
    if str_eq wait_sync "ping"
    then wait_up_port_ping lports wait_timeout_s
    else at controller "ovn-nbctl" (wait_up_on m lports wait_sync)

-- `wait_sync.lower() not in ['hv', 'sb', 'ping', 'none']` is decided by `lower`.
unfoldable pub known_sync : (String → String) → String → Bool
known_sync lower wait_sync =
    let s = lower wait_sync in
    str_eq s "hv" || (str_eq s "sb" || (str_eq s "ping" || str_eq s "none"))

-- `_bind_ports_and_wait`; the message for an unknown value is made by `_`, which is not imported.
unfoldable pub bind_ports_and_wait :
    Mixin
    → (String → String)
    → (List Lport → ℕ → Exec World (Unit {0}))
    → List Lport
    → List Sandbox
    → BindArgs
    → Exec World (Unit {0})
unfolding known_sync wait_up_port bind_ports
bind_ports_and_wait m lower wait_up_port_ping lports sandboxes args =
    let wait_sync = default "hv" args.wait_sync in
    if known_sync lower wait_sync
    then (do
      bind_ports m lports sandboxes (default false args.internal) (default true args.internal_vm)
      if default false args.wait_up
          then wait_up_port m wait_up_port_ping lports wait_sync (default 20 args.wait_timeout_s)
          else pure tt)
    else raise name_error
