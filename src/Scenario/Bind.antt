-- ===== src/Scenario/Bind.antt =====
-- scenarios/ovn.py `_bind_ports`: which port goes to which sandbox, and the commands on the farms.
pub mod Bound
pub mod Spread
pub mod Scripts
use ovn_scale_test.Prelude.{
  ℕ, zero, suc, ◌+◌, ◌-◌, ◌/◌, Bool, true, false, not, ◌&&◌, List, [], ◌∷◌, ◌++◌, Option, none,
  some, String, ◌==◌, ltb, length, take, drop, get_elem?, if◌then◌else◌,
}
use ovn_scale_test.Python.Text.{concat, given}
use ovn_scale_test.Python.Dict.{Dict, lookup, insert}
use ovn_scale_test.Python.Exec.{
  Exec, Result, ok, err, index_error, zero_division, require, get_state, modify, pure, lift,
  for_each, ◌>>=◌, ◌>>◌,
}
use ovn_scale_test.Env.{draw}
use ovn_scale_test.Values.{column, scalar, mapping, text}
use ovn_scale_test.Topology.{Lport, Sandbox}
use ovn_scale_test.Client.{Session, set_sandbox, set_log_cmd, enable_batch_mode}
use ovn_scale_test.Client.OvsSsh
use ovn_scale_test.Client.Vsctl
use ovn_scale_test.Ovnclients.{Mixin}
use ovn_scale_test.World.{World, farm, at}

-- `lport_sbs`: for each sandbox name the sandbox and its ports.
abbrev pub LportSbs : Type 0
LportSbs = Dict (Sandbox × List Lport)

-- The ports in what `lport_sbs.get` gives.
unfoldable pub ports_of : Option (Sandbox × List Lport) → List Lport
ports_of none = []
ports_of (some (sb, ports)) = ports

-- `_, lports_sb = lport_sbs.get(sb_name, (sandbox, [])); lport_sbs[sb_name] = (sandbox, lports_sb + [lport])`
unfoldable pub bind_to : Sandbox → Lport → LportSbs → LportSbs
unfolding lookup insert ports_of
bind_to sandbox lport sbs =
    insert sandbox.name (sandbox, ports_of (lookup sandbox.name sbs) ++ lport ∷ []) sbs

unfoldable pub bind_all : Sandbox → List Lport → LportSbs → LportSbs
unfolding bind_to
bind_all sandbox [] sbs = sbs
bind_all sandbox (p ∷ ps) sbs = bind_all sandbox ps (bind_to sandbox p sbs)

-- `lports[i : i + per]` for `i` in `range(0, len(lports), per)`, on fuel: each slice takes a port.
unfoldable pub slices {ℓ} : {A : Type ℓ} → ℕ → ℕ → List A → List (List A)
slices zero per xs = []
slices (suc fuel) per [] = []
slices (suc fuel) per (x ∷ xs) = take per (x ∷ xs) ∷ slices fuel per (drop per (x ∷ xs))

-- The slice with number `j` goes to the sandbox with that number.
unfoldable pub bind_slices : List Sandbox → ℕ → List (List Lport) → LportSbs → Result LportSbs
unfolding bind_all
bind_slices sandboxes j [] sbs = ok sbs
bind_slices sandboxes j (ps ∷ rest) sbs = elim (get_elem? sandboxes j) [
  | none ↦ err index_error
  | some sandbox ↦ bind_slices sandboxes (j + 1) rest (bind_all sandbox ps sbs)
]

-- `lport_per_sandbox`, the quotient rounded up.
unfoldable pub lport_per_sandbox : ℕ → ℕ → ℕ
lport_per_sandbox lport_num sandbox_num = (lport_num + sandbox_num - 1) / sandbox_num

-- With fewer ports than sandboxes each port goes to one that is drawn.
unfoldable pub bind_random : List Sandbox → List Lport → LportSbs → Exec World LportSbs
unfolding bind_to draw
bind_random sandboxes [] sbs = pure sbs
bind_random sandboxes (p ∷ ps) sbs = do
  w ← get_state
  modify (λ v. record v { net = draw v.net })
  sandbox ←
      require index_error
        (get_elem? sandboxes (w.net.env.random_index w.net.draws (length sandboxes)))
  bind_random sandboxes ps (bind_to sandbox p sbs)

-- The first half of `_bind_ports`.
unfoldable pub spread : List Lport → List Sandbox → Exec World LportSbs
unfolding bind_random bind_slices slices lport_per_sandbox
spread lports sandboxes =
    if length sandboxes == 0
    then lift (err zero_division)
    else if ltb (length lports) (length sandboxes)
    then bind_random sandboxes lports []
    else lift (
        bind_slices sandboxes 0
          (slices (length lports) (lport_per_sandbox (length lports) (length sandboxes)) lports) [])

-- The commands that bind one port.
unfoldable pub bind_port : Bool → Lport → Exec Session (Unit {0})
bind_port internal lport = do
  Vsctl.add_port "br-int" lport.name true internal
  Vsctl.db_set "Interface" lport.name (
      column "external_ids"
        (mapping (("iface-id", text lport.name) ∷ ("iface-status", text "active") ∷ []))
      ∷ column "admin_state" (scalar (text "up"))
      ∷ [])

unfoldable pub bind_ports_on :
    Mixin → Bool → String → Sandbox → List Lport → Exec Session (Unit {0})
unfolding set_sandbox set_log_cmd enable_batch_mode for_each bind_port
bind_ports_on m internal sb_name sandbox lports = do
  set_sandbox (some sb_name) m.install_method sandbox.host_container
  set_log_cmd m.log_cmd
  enable_batch_mode true
  for_each lports (bind_port internal)
  Vsctl.flush
  enable_batch_mode false

-- `_bind_ovs_port`
unfoldable pub bind_ovs_port : Mixin → Bool → LportSbs → Exec World (Unit {0})
unfolding for_each bind_ports_on at
bind_ovs_port m internal sbs = for_each sbs λ entry.
    let (sb_name, bound) = entry in
    let (sandbox, lports) = bound in
    at (farm sandbox.farm) "ovs-vsctl" (bind_ports_on m internal sb_name sandbox lports)

-- One command of a port's own network namespace.
unfoldable pub ssh : List String → Exec Session (Unit {0})
ssh pieces = do out ← OvsSsh.run (concat pieces); pure tt

unfoldable pub start_vm : Sandbox → Lport → Exec Session (Unit {0})
unfolding ssh
start_vm sandbox lport = do
  let p = lport.name
  (if given sandbox.host_container
      then pure tt
      else ssh ("ethtool -K " ∷ p ∷ " tx off &> /dev/null" ∷ []))
  ssh ("ip netns add " ∷ p ∷ [])
  ssh ("ip link set " ∷ p ∷ " netns " ∷ p ∷ [])
  ssh ("ip netns exec " ∷ p ∷ " ip link set " ∷ p ∷ " address " ∷ lport.mac ∷ [])
  ssh ("ip netns exec " ∷ p ∷ " ip addr add " ∷ lport.ip ∷ " dev " ∷ p ∷ [])
  ssh ("ip netns exec " ∷ p ∷ " ip link set " ∷ p ∷ " up" ∷ [])
  ssh ("ip netns exec " ∷ p ∷ " ip route add default via " ∷ lport.gw ∷ [])
  out ← OvsSsh.flush
  pure tt

unfoldable pub remember_port : Lport → Sandbox → Exec World (Unit {0})
unfolding insert
remember_port lport sandbox =
    modify (λ w. record w { internal_ports = insert lport.name (lport, sandbox) w.internal_ports })

-- `_bind_ovs_internal_vm`
unfoldable pub bind_ovs_internal_vm : Mixin → LportSbs → Exec World (Unit {0})
unfolding for_each set_sandbox set_log_cmd start_vm remember_port at
bind_ovs_internal_vm m sbs = for_each sbs λ entry.
    let (sb_name, bound) = entry in
    let (sandbox, lports) = bound in
    do
      at (farm sandbox.farm) "ovs-ssh" (
          set_sandbox (some sb_name) m.install_method sandbox.host_container
          >> set_log_cmd m.log_cmd)
      for_each lports λ lport. do
        at (farm sandbox.farm) "ovs-ssh" (start_vm sandbox lport)
        remember_port lport sandbox

-- `_delete_ovs_internal_vm`
unfoldable pub delete_ovs_internal_vm : String → String → Exec World (Unit {0})
unfolding at ssh
delete_ovs_internal_vm farm_name port_name = do
  at (farm farm_name) "ovs-vsctl" (Vsctl.del_port port_name)
  at (farm farm_name) "ovs-ssh" (ssh ("ip netns del " ∷ port_name ∷ []))

-- `port_bind_args`, the keys that `_bind_ports` reads.
pub record BindArgs : Type 0 where
  pub internal : Option Bool
  pub internal_vm : Option Bool
  pub wait_up : Option Bool
  pub wait_sync : Option String
  pub wait_timeout_s : Option ℕ

unfoldable pub bind_ports : Mixin → List Lport → List Sandbox → Bool → Bool → Exec World (Unit {0})
unfolding spread
bind_ports m lports sandboxes internal internal_vm = do
  sbs ← spread lports sandboxes
  bind_ovs_port m internal sbs
  if internal && internal_vm then bind_ovs_internal_vm m sbs else pure tt
