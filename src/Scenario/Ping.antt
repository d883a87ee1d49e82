-- ===== src/Scenario/Ping.antt =====
-- scenarios/ovn.py: waiting for a port by ping. The clock is a parameter: `seconds` says how many whole
-- seconds have passed since the start, after so many failed pings.
pub mod Ends
use ovn_scale_test.Prelude.{
  ℕ, zero, suc, ◌+◌, Bool, true, false, List, [], ◌∷◌, Option, none, some, String, ltb, str_eq,
  if◌then◌else◌,
}
use ovn_scale_test.Python.Text.{given, text_of}
use ovn_scale_test.Python.Dict.{Dict, lookup}
use ovn_scale_test.Python.Exec.{
  Exec, Result, ok, err, key_error, thread_timeout, require, get_state, pure, ◌>>=◌, ◌>>◌,
}
use ovn_scale_test.Topology.{Lport, Sandbox}
use ovn_scale_test.Client.{Session, set_sandbox, set_log_cmd, enable_batch_mode}
use ovn_scale_test.Ovnclients.{Mixin}
use ovn_scale_test.World.{World, farm, at}
use ovn_scale_test.Scenario.Bind.{ssh}

-- The target of the ping.
unfoldable pub destination : Lport → String
destination lport = if given lport.ext_gw then text_of lport.ext_gw else lport.gw

unfoldable pub ping : Lport → Exec Session (Unit {0})
unfolding destination ssh
ping lport = ssh ("ip netns exec " ∷ lport.name ∷ " ping -q -c 1 -W 0.1 " ∷ destination lport ∷ [])

-- After a ping: it has been answered, or the time is over, or the loop goes on as `rest`.
unfoldable pub after_ping :
    Bool
    → Result (Unit {0}) × Session
    → Option (Result (Unit {0})) × Session
    → Option (Result (Unit {0})) × Session
after_ping over (ok u, s) rest = (some (ok u), s)
after_ping over (err e, s) rest = if over then (some (err thread_timeout), s) else rest

-- The loop of `_ping_port`, after `failures` failed pings: a ping that fails is tried again until the
-- time is over. `none` is that the fuel, the pings that may still be tried, has run out.
unfoldable pub ping_loop :
    (ℕ → ℕ) → ℕ → Lport → ℕ → ℕ → Session → Option (Result (Unit {0})) × Session
unfolding ping after_ping
ping_loop seconds wait_timeout_s lport failures zero s = (none, s)
ping_loop seconds wait_timeout_s lport failures (suc fuel) s =
    let tried = ping lport s in
    after_ping (ltb wait_timeout_s (seconds (failures + 1))) tried
      (ping_loop seconds wait_timeout_s lport (failures + 1) fuel tried.1)

-- A loop as a method: its exception is raised, and running out of fuel is a result.
unfoldable pub fuelled : Option (Result (Unit {0})) × Session → Result (Option (Unit {0})) × Session
fuelled (none, s) = (ok none, s)
fuelled (some (ok u), s) = (ok (some u), s)
fuelled (some (err e), s) = (err e, s)

-- `_ping_port`; `show` is the text of a sandbox's dict, which the source hands to `set_sandbox`.
unfoldable pub ping_port :
    Mixin → (Sandbox → String) → (ℕ → ℕ) → ℕ → ℕ → Lport → Exec World (Option (Unit {0}))
unfolding lookup set_sandbox set_log_cmd enable_batch_mode ping_loop fuelled at
ping_port m show seconds fuel wait_timeout_s lport = do
  w ← get_state
  bound ← require key_error (lookup lport.name w.internal_ports)
  at (farm bound.1.farm) "ovs-ssh" (do
    set_sandbox (some (show bound.1)) m.install_method bound.1.host_container
    set_log_cmd m.log_cmd
    enable_batch_mode false
    λ s. fuelled (ping_loop seconds wait_timeout_s lport 0 fuel s))

-- `_wait_up_port_ping`
unfoldable pub wait_up_port_ping :
    Mixin → (Sandbox → String) → (ℕ → ℕ) → ℕ → List Lport → ℕ → Exec World (Option (Unit {0}))
unfolding ping_port
wait_up_port_ping m show seconds fuel [] wait_timeout_s = pure (some tt)
wait_up_port_ping m show seconds fuel (p ∷ ps) wait_timeout_s = do
  answer ← ping_port m show seconds fuel wait_timeout_s p
  elim answer [
    | none ↦ pure none
    | some u ↦ wait_up_port_ping m show seconds fuel ps wait_timeout_s
  ]
