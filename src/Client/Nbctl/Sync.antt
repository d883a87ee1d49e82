-- ===== src/Client/Nbctl/Sync.antt =====
-- OvnNbctl outside batch mode, and `sync`, which leaves batch mode for one command.
use Prim.Native.String.{◌++◌ as ◌append◌}
use text.Mathlib.TextLemmas.{append-nil as append-empty, append_assoc as text_assoc}
use ovn_scale_test.Prelude.{
  Bool, true, false, inl, inr, Bool-cases, List, [], ◌∷◌, ◌++◌, ap, ◌∙◌, some, none, String, ◌≡◌,
  ◌≢◌, refl, append_assoc, append-nil, arith, if◌then◌else◌,
}
use ovn_scale_test.Python.Text.{concat, join, given, text_of}
use ovn_scale_test.Python.Exec.{Exec, Result, ok, for_each, next, pure, ◌>>=◌, ◌>>◌}
use ovn_scale_test.Env.{Event, ran, logged, Reliable, happen}
use ovn_scale_test.Client.{
  Client, Session, InstallMethod, sandbox_method, docker, physical, unset, other, queue, set_cmds,
  append_cmd, log_cmds, ssh_run, enable_batch_mode,
}
use ovn_scale_test.Client.Nbctl.{
  cmd_prefix, enter_sandbox, ovn_cmd, add_lines, send_lines, run, flush,
}
use ovn_scale_test.Client.Nbctl.Commands.{call, sync}
use ovn_scale_test.Client.Nbctl.Queue.{
  Callable, Placed, root_prefix, container, daemon, place, located, called, queued, flush_events,
  flushed, flush-waiting,
}

-- A script of these lines, and the note of it.
abbrev pub script_events : Client → List String → List Event
script_events c lines =
    (if c.log_cmd then logged (join " " lines) ∷ [] else []) ++ ran c.ssh (join "\n" lines) ∷ []

-- A session that has sent these lines and forgotten its queue.
abbrev pub sent : Session → List String → Session
sent s lines = record s {
  client = record (s.client) { cmds = none };
  net = record (s.net) { trace = s.net.trace ++ script_events s.client lines };
}

-- The lines of one command, sent on its own.
abbrev pub command_lines : Client → String → String → List String → List String → List String
command_lines c program cmd opts args =
    enter_sandbox c c.install_method
    ++ join " " (cmd_prefix c c.install_method ++ program ∷ opts ++ cmd ∷ args) ∷ []

for_each-append_cmd :
    (xs q : List String) (s : Session)
    → s.client.cmds ≡ some q
    → for_each xs append_cmd s
      ≡ (ok tt, record s { client = record (s.client) { cmds = some (q ++ xs) } })
unfolding for_each append_cmd
for_each-append_cmd [] q s h = rw (append-nil q, ← h)
for_each-append_cmd (x ∷ xs) q s h = rw h (
    for_each-append_cmd xs (q ++ x ∷ [])
      (record s { client = record (s.client) { cmds = some (q ++ x ∷ []) } }) refl
    ∙ rw (append_assoc q (x ∷ []) xs))

send_lines-sends :
    (s : Session)
    → Reliable s.net.env
    → next (send_lines true s) (λ out. pure tt) ≡ (ok tt, sent s (queue s.client))
unfolding send_lines set_cmds log_cmds ssh_run happen
send_lines-sends s r =
    let script = join "\n" (queue s.client) in
    let note = logged (join " " (queue s.client)) in
    ground (
      arith,
      r s.net.trace s.client.ssh script,
      r (s.net.trace ++ note ∷ []) s.client.ssh script,
      append_assoc s.net.trace (note ∷ []) (ran s.client.ssh script ∷ []),
    )

add_lines-adds :
    (cmd program : String) (opts args q : List String) (s : Session)
    → s.client.cmds ≡ some q
    → ovn_cmd s.client cmd ≡ some program
    → add_lines cmd opts args s ≡ (
      ok true,
      record s {
        client = record (s.client) {
          cmds = some (q ++ command_lines s.client program cmd opts args);
        };
      },
    )
unfolding add_lines append_cmd
add_lines-adds cmd program opts args q s h p =
    let enter = enter_sandbox s.client s.client.install_method in
    let line =
      join " " (cmd_prefix s.client s.client.install_method ++ program ∷ opts ++ cmd ∷ args) in
    rw (for_each-append_cmd enter q s h, p) (rw (append_assoc q enter (line ∷ [])))

-- Outside batch mode a command goes out at once, in one script after whatever was queued.
pub call-sends :
    (cmd program : String) (opts args : List String) (s : Session)
    → s.client.batch_mode ≡ false
    → given s.client.sandbox ≡ true
    → ovn_cmd (record (s.client) { cmds = some (queue s.client) }) cmd ≡ some program
    → Reliable s.net.env
    → call cmd opts args s
      ≡ (ok tt, sent s (queue s.client ++ command_lines s.client program cmd opts args))
unfolding call run set_cmds enter_sandbox cmd_prefix
call-sends cmd program opts args s b g p r =
    let c = record s { client = record (s.client) { cmds = some (queue s.client) } } in
    let line = join " " (" -- " ∷ opts ++ cmd ∷ args) in
    let direct : Bool → Exec Session String = λ bm. if bm then (append_cmd line >> pure "") else (do
      going ← (if given s.client.sandbox then add_lines cmd opts args else pure true)
      if going then send_lines true else pure "") in
    let lines : Bool → Exec Session String = λ has. (do
      going ← (if has then add_lines cmd opts args else pure true)
      if going then send_lines true else pure "") in
    ap (λ bm. next (direct bm c) (λ out. pure tt)) b
    ∙ ap (λ has. next (lines has c) (λ out. pure tt)) g
    ∙ rw (add_lines-adds cmd program opts args (queue s.client) c refl p)
        (send_lines-sends (queued s (command_lines s.client program cmd opts args)) r)

abbrev pub nbctl_program : Client → String
nbctl_program c =
    if given c.socket then concat ("ovn-nbctl -u " ∷ text_of c.socket ∷ []) else "ovn-nbctl"

ovn_cmd-sync : (c : Client) → ovn_cmd c "sync" ≡ some (nbctl_program c)
unfolding ovn_cmd
ovn_cmd-sync c = ground arith

-- The script that calls ovn-nbctl with these words; it goes through the daemon, if there is one.
abbrev pub single : String → Client → String → String
single end c words =
    concat (place end c c.install_method ++ ("ovn-nbctl" ∷ daemon c.socket ∷ " " ∷ words ∷ []))

-- The events of such a script: the note of it, where commands are logged, and the script on the host.
abbrev pub single_events : Client → String → List Event
single_events c words =
    (if c.log_cmd then logged (single " " c words) ∷ [] else [])
    ++ ran c.ssh (single "\n" c words) ∷ []

-- A session whose queue has gone out, and then such a script.
abbrev pub called_alone : Session → String → Session
called_alone s words = record s {
  client = record (s.client) { cmds = none };
  net = record (s.net) {
    trace = (s.net.trace ++ flush_events s.client) ++ single_events s.client words;
  };
}

-- The client as `sync` has it for its command.
abbrev alone : Client → Client
alone c = record c { cmds = none; batch_mode = false }

physical_prefix :
    (c : Client)
    → cmd_prefix (alone c) physical
      ≡ concat (root_prefix c.is_root ∷ container c.host_container ∷ []) ∷ []
unfolding cmd_prefix
physical_prefix c = elim (Bool-cases (given c.host_container)) [
  | inl b ↦ rw b (ap (λ t. t ∷ []) (rw b at (located (root_prefix c.is_root) c.host_container)))
  | inr b ↦ rw b (ap (λ t. t ∷ []) (rw b at (located (root_prefix c.is_root) c.host_container)))
]

command_lines-single :
    (end : String) (c : Client) (method : InstallMethod) (opt cmd : String)
    → Callable method
    → join end (
        enter_sandbox (alone c) method
        ++ join " " ((cmd_prefix (alone c) method ++ nbctl_program c ∷ opt ∷ []) ++ cmd ∷ []) ∷ [])
      ≡ concat (
          place end c method
          ++ ("ovn-nbctl" ∷ daemon c.socket ∷ " " ∷ concat (opt ∷ " " ∷ cmd ∷ []) ∷ []))
unfolding join concat enter_sandbox cmd_prefix
command_lines-single end c sandbox_method opt cmd h =
    rw (called c.socket) (simp (text_assoc, append-empty))
command_lines-single end c docker opt cmd h =
    let rest =
      ◌append◌ "ovn-nbctl"
        (◌append◌ (daemon c.socket) (◌append◌ " " (◌append◌ opt (◌append◌ " " cmd)))) in
    rw (called c.socket) (
      simp (text_assoc, append-empty)
        (rw (← text_assoc "docker exec ovn-north-database" " " rest) refl))
command_lines-single end c physical opt cmd h =
    rw (called c.socket, physical_prefix c) (simp (text_assoc, append-empty))
command_lines-single end c unset opt cmd h = elim h [ ]
command_lines-single end c (other name) opt cmd h = elim h [ ]

-- Where no command fails, the client has a sandbox and an install method that ovn-nbctl can be
-- called by, batch mode is on and something is queued, `sync` sends the whole queue as one script
-- that calls ovn-nbctl once, then the command `sync` with its option in a script of its own, each
-- after the note of it where commands are logged, and leaves an empty queue and batch mode on.
pub sync-sends :
    (wait : String) (s : Session)
    → Reliable s.net.env
    → Placed s.client
    → s.client.batch_mode ≡ true
    → queue s.client ≢ []
    → sync wait s ≡ (ok tt, called_alone s (concat (◌append◌ "--wait=" wait ∷ " " ∷ "sync" ∷ [])))
unfolding sync enable_batch_mode
sync-sends wait s r placed b q =
    let off = record (flushed s) {
      client = record (s.client) { cmds = none; batch_mode = false };
    } in
    let opt = ◌append◌ "--wait=" wait in
    let lines = command_lines (alone s.client) (nbctl_program s.client) "sync" (opt ∷ []) [] in
    let ends : String → String → Result (Unit {0}) × Session = λ note text. (
      ok tt,
      record s {
        client = record (s.client) { cmds = none };
        net = record (s.net) {
          trace =
              (s.net.trace ++ flush_events s.client)
              ++ ((if s.client.log_cmd then logged note ∷ [] else [])
                  ++ ran s.client.ssh text ∷ []);
        };
      },
    ) in
    let before : Bool → Exec Session (Unit {0}) =
      λ bm. if bm then (flush >> enable_batch_mode false) else pure tt in
    let after : Exec Session (Unit {0}) =
      call "sync" (◌append◌ "--wait=" wait ∷ []) [] >> enable_batch_mode s.client.batch_mode in
    ap (λ bm. next (before bm s) (λ u. after)) b
    ∙ rw
        (
          flush-waiting s placed q r,
          call-sends "sync" (nbctl_program s.client) (◌append◌ "--wait=" wait ∷ []) [] off refl
              placed.0 (ovn_cmd-sync (record (off.client) { cmds = some [] })) r,
        )
        (ap (λ note. ends note (join "\n" lines))
            (command_lines-single " " s.client s.client.install_method opt "sync" placed.1)
          ∙ ap (λ text. ends (single " " s.client (concat (opt ∷ " " ∷ "sync" ∷ []))) text)
              (command_lines-single "\n" s.client s.client.install_method opt "sync" placed.1))
