-- ===== src/Client/Nbctl/Script.antt =====
-- The script that a flush of OvnNbctl is to send, written down on its own, and that `flush_lines` makes it.
use ovn_scale_test.Prelude.{
  Bool, true, List, [], ◌∷◌, ◌++◌, ap, sym, Option, none, some, inl, inr, String, str_eq, ◌≡◌,
  if◌then◌else◌, refl, Bool-cases,
}
use Prim.Native.String.{◌++◌ as ◌append◌}
use text.Mathlib.TextLemmas.{append-nil as append-empty, append_assoc as text_assoc}
use ovn_scale_test.Python.Text.{join, concat, given, text_of}
use ovn_scale_test.Env.{Event, ran, logged}
use ovn_scale_test.Client.{
  Client, InstallMethod, sandbox_method, docker, physical, unset, other, queue,
}
use ovn_scale_test.Client.Nbctl.{batch_lines, flush_lines}

abbrev pub root_prefix : Bool → String
root_prefix is_root = if is_root then "" else "sudo "

-- The container of the host, if it has a name.
abbrev pub container : Option String → String
container none = ""
container (some name) = if str_eq name "" then "" else concat ("docker exec " ∷ name ∷ [])

-- The option for the daemon, if there is one.
abbrev pub daemon : Option String → String
daemon none = ""
daemon (some path) = if str_eq path "" then "" else concat (" -u " ∷ path ∷ [])

-- The three install methods for which there is a way to call ovn-nbctl.
abbrev pub Callable : InstallMethod → Type 0
Callable sandbox_method = Unit
Callable docker = Unit
Callable physical = Unit
Callable unset = ⊥
Callable (other name) = ⊥

-- A client that knows its sandbox, and how to call ovn-nbctl there.
abbrev pub Placed : Client → Type 0
Placed c = (given c.sandbox ≡ true) × Callable c.install_method

-- How a script gets to where ovn-nbctl is: into the sandbox on a line of its own, which ends with `end`,
-- or into a container.
abbrev pub place : String → Client → InstallMethod → List String
place end c sandbox_method = ". " ∷ text_of c.sandbox ∷ "/sandbox.rc" ∷ end ∷ []
place end c docker = root_prefix c.is_root ∷ "docker exec ovn-north-database " ∷ []
place end c _ = root_prefix c.is_root ∷ container c.host_container ∷ " " ∷ []

-- How it calls ovn-nbctl with a batch; only the method "physical" goes through the daemon.
abbrev pub caller : Client → InstallMethod → List String
caller c sandbox_method = "ovn-nbctl" ∷ []
caller c docker = "ovn-nbctl " ∷ []
caller c _ = "ovn-nbctl" ∷ daemon c.socket ∷ " " ∷ []

-- The script that calls ovn-nbctl once with these commands.
abbrev pub script : String → Client → List String → String
script end c commands =
    concat (place end c c.install_method ++ (caller c c.install_method ++ join " " commands ∷ []))

-- The events of such a script: the note of it, where commands are logged, and the script on the host.
abbrev pub call_events : Client → List String → List Event
call_events c commands =
    (if c.log_cmd then logged (script " " c commands) ∷ [] else [])
    ++ ran c.ssh (script "\n" c commands) ∷ []

pub located :
    (root : String) (host_container : Option String)
    → (if given host_container
        then concat (root ∷ "docker exec " ∷ text_of host_container ∷ [])
        else root)
      ≡ concat (root ∷ container host_container ∷ [])
unfolding concat
located root none = sym (append-empty root)
located root (some name) = elim (Bool-cases (str_eq name "")) [
  | inl empty ↦ rw empty (sym (append-empty root))
  | inr named ↦
      rw named (
        ap (λ t. ◌append◌ root t) (sym (append-empty (◌append◌ "docker exec " (◌append◌ name "")))))
]

pub called :
    (socket : Option String)
    → (if given socket then concat ("ovn-nbctl -u " ∷ text_of socket ∷ []) else "ovn-nbctl")
      ≡ concat ("ovn-nbctl" ∷ daemon socket ∷ [])
unfolding concat
called none = refl
called (some path) = elim (Bool-cases (str_eq path "")) [
  | inl empty ↦ rw empty
  | inr named ↦
      rw
        (
          named,
          append-empty path,
          append-empty (◌append◌ " -u " path),
          ← text_assoc "ovn-nbctl" " -u " path,
        )
        refl
]

batch_lines-script :
    (end : String) (c : Client) (method : InstallMethod) (commands : List String)
    → Callable method
    → join end (batch_lines c method commands)
      ≡ concat (place end c method ++ (caller c method ++ join " " commands ∷ []))
unfolding batch_lines concat join
batch_lines-script end c sandbox_method commands h = simp (text_assoc, append-empty)
batch_lines-script end c docker commands h =
    rw
      (
        append-empty (join " " commands),
        ← text_assoc "docker exec ovn-north-database " "ovn-nbctl " (join " " commands),
      )
      refl
batch_lines-script end c physical commands h =
    rw (located (root_prefix c.is_root) c.host_container, called c.socket)
      (simp (text_assoc, append-empty))
batch_lines-script end c unset commands h = elim h [ ]
batch_lines-script end c (other name) commands h = elim h [ ]

-- The lines that `flush` sends are that script.
pub flush_lines-script :
    (end : String) (c : Client) → Placed c → join end (flush_lines c) ≡ script end c (queue c)
unfolding flush_lines
flush_lines-script end c (found, known) =
    rw found (batch_lines-script end c c.install_method (queue c) known)
