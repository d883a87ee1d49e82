-- ===== src/Env.antt =====
-- What the program calls and does not implement: sshutils.SSH of rally, netaddr, random, and the order
-- of a dict. Each is
-- a function in `Env`, which every state carries and no code changes. `Net` is what has been done
-- through them so far, in order.
use ovn_scale_test.Prelude.{
  ℕ, ◌+◌, Bool, List, [], ◌∷◌, ◌++◌, Option, String, if◌then◌else◌, ◌&&◌, false, ◌≡◌,
}
use ovn_scale_test.Python.Exec.{Result, ok, err, ssh_error}

-- The attributes of a `netaddr.IPNetwork` that the source reads. Addresses are their integer values.
pub record IpNetwork : Type 0 where
  pub ip : ℕ
  pub prefixlen : ℕ
  pub last : ℕ

-- What a remote shell does with a script, and a message that is logged.
pub data Event : Type 0 where
  ran : String → String → Event
  logged : String → Event
  copied : String → String → String → Event
  -- A pause of so many milliseconds.
  slept : ℕ → Event

pub record Answer : Type 0 where
  pub failed : Bool
  pub out : String

pub record Env : Type 0 where
  -- The answer of a host to a script, after what has happened so far.
  pub answer : List Event → String → String → Answer
  -- `netaddr.IPNetwork(text)`, `network.next(step)`, `str(network)`, `ip in network`; `none` where
  -- netaddr raises.
  pub parse_network : String → Option IpNetwork
  pub next_network : IpNetwork → ℕ → Option IpNetwork
  pub show_network : IpNetwork → String
  pub has_ip : IpNetwork → ℕ → Bool
  -- `address + n`, `str(address)`, and the i-th value of `netaddr.iter_iprange(start, end)`.
  pub add_ip : ℕ → ℕ → Option ℕ
  pub show_ip : ℕ → String
  pub iprange : ℕ → ℕ → ℕ → Option ℕ
  -- `next(netaddr.IPNetwork(address).iter_hosts())`
  pub first_host : ℕ → Option ℕ
  -- The n-th draw: `generate_random_name`, `random.randint(0, 255)`, `random.choice` of an index.
  pub random_name : ℕ → String → String
  pub random_byte : ℕ → ℕ
  pub random_index : ℕ → ℕ → ℕ
  -- `d.items()` of a dict with these entries: Python 2 has an order of its own.
  pub dict_items : List (String × String) → List (String × String)
  -- `d.keys()`, from the keys in the order in which they came in.
  pub dict_keys : List String → List String

pub record Net : Type 0 where
  pub env : Env
  pub trace : List Event
  pub draws : ℕ

unfoldable pub happen : Event → Net → Net
happen e net = record net { trace = net.trace ++ e ∷ [] }

unfoldable pub draw : Net → Net
draw net = record net { draws = net.draws + 1 }

-- `SSH.run` raises when the remote command fails, unless `raise_on_error` is off.
abbrev pub outcome : Bool → Answer → Result String
outcome raise_on_error a = if raise_on_error && a.failed then err ssh_error else ok a.out

-- No remote command fails.
abbrev pub Reliable : Env → Type 0
Reliable env = (t : List Event) (host script : String) → (env.answer t host script).failed ≡ false
