-- ===== src/Scenario/Multinode/Hosts.antt =====
-- scenarios/ovn_fake_multinode.py: one command on the host of a sandbox, and such commands in turn.
use ovn_scale_test.Prelude.{
  Bool, false, List, [], ◌∷◌, ◌++◌, none, some, Option, String, str_eq, eq_iff, ◌≡◌, ◌≢◌, refl, ap,
  ◌∙◌, arith, if◌then◌else◌, append_assoc, Bool-cases, inl, inr,
}
use ovn_scale_test.Python.Text.{concat, join, given, text_of}
use ovn_scale_test.Python.Exec.{Exec, attribute_error, raise, Result, ok, pure, ◌>>=◌, ◌>>◌}
use ovn_scale_test.Env.{Event, ran, logged, Reliable, happen}
use ovn_scale_test.Topology.{Sandbox}
use ovn_scale_test.Client.{
  Client, Session, InstallMethod, unset, sandbox_method, docker, physical, other, queue,
  set_sandbox, set_log_cmd, enable_batch_mode, set_cmds, append_cmd, log_cmds, ssh_run,
}
use ovn_scale_test.Client.OvsSsh
use ovn_scale_test.Ovnclients.{Mixin}
use ovn_scale_test.World.{
  World, Clients, farm, clients_at, call_client, store_client, close_session,
}
use ovn_scale_test.World.Sharing.{at-ok, call-store, clients_at-close}
use ovn_scale_test.Scenario.Bind.{ssh}
use ovn_scale_test.Scenario.Multinode.{get_sandbox_conn, on_node}

-- The client of a host that takes plain commands.
abbrev pub ssh_client : Clients → Client
ssh_client cs = call_client "ovs-ssh" cs

-- The line that a host is given: inside a container, or as it is.
abbrev pub host_line : Bool → Option String → List String → String
host_line is_root host_container pieces =
    if given host_container
    then concat (
        (if is_root then "" else "sudo ")
        ∷ "docker exec "
        ∷ text_of host_container
        ∷ " "
        ∷ concat pieces
        ∷ [])
    else concat pieces

-- A line that is sent, and the note of it.
abbrev pub line_events : Client → String → List Event
line_events c line = (if c.log_cmd then logged line ∷ [] else []) ++ ran c.ssh line ∷ []

-- What one command adds to the trace.
abbrev pub host_events : Mixin → Client → Option String → List String → List Event
host_events m c host_container pieces =
    let line = host_line c.is_root host_container pieces in
    (if m.log_cmd then logged line ∷ [] else []) ++ ran c.ssh line ∷ []

-- The client after a command.
abbrev served : Mixin → String → Option String → Client → Client
served m name host_container c = record c {
  sandbox = some name;
  install_method = m.install_method;
  host_container = host_container;
  batch_mode = false;
  cmds = none;
  log_cmd = m.log_cmd;
}

abbrev served_session : Mixin → String → Option String → List String → Session → Session
served_session m name host_container pieces s = record s {
  client = served m name host_container s.client;
  net = record (s.net) { trace = s.net.trace ++ host_events m s.client host_container pieces };
}

past_unset :
    {A : Type 0} (method : InstallMethod) (e k : A)
    → method ≢ unset
    → (elim method [ unset ↦ e | _ ↦ k ]) ≡ k
past_unset unset e k h = absurd (h refl)
past_unset sandbox_method e k h = refl
past_unset docker e k h = refl
past_unset physical e k h = refl
past_unset (other t) e k h = refl

pub run-known :
    (cmd : String) (s : Session)
    → s.client.install_method ≢ unset
    → OvsSsh.run cmd s ≡ OvsSsh.run_line cmd (set_cmds (some (queue s.client)) s).1
unfolding OvsSsh.run set_cmds
run-known cmd s h =
    ap (λ (k : Exec Session String). k (set_cmds (some (queue s.client)) s).1)
      (past_unset s.client.install_method (raise attribute_error) (OvsSsh.run_line cmd) h)

-- What `run_line` does out of batch mode, with nothing queued.
run_line-sends :
    (cmd : String) (s : Session)
    → Reliable s.net.env
    → s.client.cmds ≡ some []
    → s.client.batch_mode ≡ false
    → (OvsSsh.run_line cmd >>= λ out. pure tt) s ≡ (
      ok tt,
      record s {
        client = record (s.client) { cmds = none };
        net = record (s.net) {
          trace = s.net.trace ++ line_events s.client (OvsSsh.ssh_line s.client cmd);
        };
      },
    )
unfolding OvsSsh.run_line OvsSsh.flush set_cmds append_cmd log_cmds ssh_run happen join
run_line-sends cmd s r q b =
    let line = OvsSsh.ssh_line s.client cmd in
    ground (
      arith,
      r s.net.trace s.client.ssh line,
      r (s.net.trace ++ logged line ∷ []) s.client.ssh line,
      append_assoc s.net.trace (logged line ∷ []) (ran s.client.ssh line ∷ []),
    )

conn-ssh :
    (m : Mixin) (name : String) (host_container : Option String) (pieces : List String)
    (s : Session)
    → Reliable s.net.env
    → queue s.client ≡ []
    → m.install_method ≢ unset
    → (get_sandbox_conn m name host_container >> ssh pieces) s
      ≡ (ok tt, served_session m name host_container pieces s)
unfolding get_sandbox_conn ssh set_sandbox set_log_cmd enable_batch_mode OvsSsh.ssh_line set_cmds
conn-ssh m name host_container pieces s r q known =
    let conn = record s {
      client = record (served m name host_container s.client) { cmds = s.client.cmds };
    } in
    rw (run-known (concat pieces) conn known, q)
      (run_line-sends (concat pieces)
        (record conn { client = record (conn.client) { cmds = some [] } }) r refl refl)

-- Another world whose hosts answer as those of `w`, with a queue that is empty where it was.
pub record Follows (w v : World) : Type 0 where
  pub env : v.net.env ≡ w.net.env
  pub hosts :
      (name : String) (cs : Clients)
      → clients_at (farm name) w ≡ ok cs
      → queue (ssh_client cs) ≡ []
      → (cs' : Clients) × (clients_at (farm name) v ≡ ok cs')
        × ((ssh_client cs').ssh ≡ (ssh_client cs).ssh)
        × ((ssh_client cs').is_root ≡ (ssh_client cs).is_root)
        × (queue (ssh_client cs') ≡ [])

pub Follows-refl : (w : World) → Follows w w
Follows-refl w = record { env = refl; hosts = λ name cs h q. (cs, h, refl, refl, q) }

pub Follows-trans : (u v w : World) → Follows u v → Follows v w → Follows u w
Follows-trans u v w f g = record {
  env = g.env ∙ f.env;
  hosts = λ name cs h q.
      let (a, found, ssh, root, idle) = f.hosts name cs h q in
      let (b, there, ssh', root', still) = g.hosts name a found idle in
      (b, there, ssh' ∙ ssh, root' ∙ root, still);
}

-- What a command on a host comes to: no exception, these events, and a world that follows.
pub record Serves (v : World) (events : List Event) (p : Result (Unit {0}) × World) : Type 0 where
  pub final : World
  pub is : p ≡ (ok tt, final)
  pub trace : final.net.trace ≡ v.net.trace ++ events
  pub follows : Follows v final

module _ (m : Mixin) (sb : Sandbox) (host_container : Option String) (pieces : List String)
    (v : World) (cs : Clients) where
  abbrev done : Session
  done =
      served_session m sb.name host_container pieces
        (record { client = ssh_client cs; net = v.net })

  abbrev later : World
  later = (close_session (farm sb.farm) "ovs-ssh" cs v (ok tt, done)).1

  abbrev kept : Clients
  kept = store_client "ovs-ssh" done.client cs

  kept-client : ssh_client kept ≡ done.client
  kept-client = call-store "ovs-ssh" done.client done.client cs

  later-clients :
      (name : String)
      → clients_at (farm name) later
        ≡ (if str_eq sb.farm name then ok kept else clients_at (farm name) v)
  later-clients = clients_at-close sb.farm "ovs-ssh" cs v (ok tt, done)

  later-Follows : clients_at (farm sb.farm) v ≡ ok cs → Follows v later
  unfolding close_session
  later-Follows there = record {
    env = refl;
    hosts = λ name cs' h q. elim (Bool-cases (str_eq sb.farm name)) [
      | inr differ ↦ (cs', later-clients name ∙ rw differ h, refl, refl, q)
      | inl same ↦
          let one : cs ≡ cs' = cc ((eq_iff sb.farm name).0 same) in
          (
            kept,
            later-clients name ∙ rw same refl,
            rw (kept-client, one) refl,
            rw (kept-client, one) refl,
            rw kept-client refl,
          )
    ];
  }

  pub on_node-Serves :
      Reliable v.net.env
      → m.install_method ≢ unset
      → clients_at (farm sb.farm) v ≡ ok cs
      → queue (ssh_client cs) ≡ []
      → Serves v
          (host_events m (ssh_client cs) host_container pieces)
          (on_node m sb host_container (ssh pieces) v)
  unfolding on_node close_session
  on_node-Serves reliable known there idle = record {
    final = later;
    is = rw (
      at-ok (farm sb.farm) "ovs-ssh" (get_sandbox_conn m sb.name host_container >> ssh pieces) v
          there,
      conn-ssh m sb.name host_container pieces (record { client = ssh_client cs; net = v.net })
          reliable idle known,
    );
    trace = refl;
    follows = later-Follows there;
  }
