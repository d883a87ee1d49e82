-- ===== src/Scenario/Bind/Scripts.antt =====
-- The scripts of `_bind_ovs_port`, and the queue of OvsVsctl outside a container.
use mathlib.Core.Path.{subst}
use ovn_scale_test.Prelude.{
  Bool, true, false, ◌≡◌, refl, List, [], ◌∷◌, ◌++◌, none, some, Option, String, if◌then◌else◌,
  flat_map, append_assoc, append-nil, arith, ap, sym, ◌∙◌,
}
use ovn_scale_test.Python.Text.{concat, join}
use ovn_scale_test.Python.Exec.{Result, ok, err, for_each, ◌>>◌}
use ovn_scale_test.Env.{Event, Net, ran, logged, Reliable, happen}
use ovn_scale_test.Values.{Column, column, scalar, mapping, text, set_colval_args}
use ovn_scale_test.Topology.{Lport, Sandbox}
use ovn_scale_test.Client.{
  Client, Session, InstallMethod, sandbox_method, physical, set_cmds, append_cmd, log_cmds, ssh_run,
  set_sandbox, set_log_cmd, enable_batch_mode,
}
use ovn_scale_test.Client.Vsctl
use ovn_scale_test.Client.Nbctl.Sync.{script_events}
use ovn_scale_test.Ovnclients.{Mixin}
use ovn_scale_test.Scenario.Bind.{bind_port, bind_ports_on}

-- A client that is set up for a sandbox outside a container, in batch mode.
abbrev pub prepared : Client → String → InstallMethod → Bool → Option (List String) → Client
prepared c name method log q = record c {
  sandbox = some name;
  install_method = method;
  host_container = none;
  batch_mode = true;
  log_cmd = log;
  cmds = q;
}

abbrev pub vsctl_text : String → List String → List String → List String → String
vsctl_text cmd opts args extras = join " " (" -- " ∷ opts ++ cmd ∷ args ++ extras)

abbrev pub port_columns : Lport → List Column
port_columns lport =
    column "external_ids"
      (mapping (("iface-id", text lport.name) ∷ ("iface-status", text "active") ∷ []))
    ∷ column "admin_state" (scalar (text "up"))
    ∷ []

abbrev values_of : Result (List String) → List String
values_of (ok xs) = xs
values_of (err e) = []

-- The two commands for a port.
abbrev pub port_texts : Bool → Lport → List String
port_texts internal lport =
    vsctl_text "add-port" ("--may-exist" ∷ []) ("br-int" ∷ lport.name ∷ []) (
      if internal
      then "--" ∷ concat ("set interface " ∷ lport.name ∷ " type=internal" ∷ []) ∷ []
      else [])
    ∷ vsctl_text "set" []
        ("Interface" ∷ lport.name ∷ values_of (set_colval_args (port_columns lport))) []
    ∷ []

-- The install methods whose commands are queued.
pub data Queues : InstallMethod → Type 0 where
  in_sandbox : Queues sandbox_method
  on_host : Queues physical

module _ (c : Client) (name : String) (log : Bool) (net : Net) where
  abbrev at_queue : InstallMethod → List String → Session
  at_queue method q = record { client = prepared c name method log (some q); net = net }

  run_queued :
      {method : InstallMethod} (known : Queues method) (cmd : String)
      (opts args extras q : List String)
      → Vsctl.run cmd opts args extras (at_queue method q)
        ≡ (ok "", at_queue method (q ++ vsctl_text cmd opts args extras ∷ []))
  unfolding Vsctl.run Vsctl.run_set set_cmds append_cmd
  run_queued in_sandbox cmd opts args extras q = refl
  run_queued on_host cmd opts args extras q = refl

  port_queued :
      {method : InstallMethod} (known : Queues method) (internal : Bool) (lport : Lport)
      (q : List String)
      → bind_port internal lport (at_queue method q)
        ≡ (ok tt, at_queue method (q ++ port_texts internal lport))
  unfolding bind_port Vsctl.add_port Vsctl.db_set set_colval_args
  port_queued {method} known internal lport q =
      let extras =
        if internal
        then "--" ∷ concat ("set interface " ∷ lport.name ∷ " type=internal" ∷ []) ∷ []
        else [] in
      let add = vsctl_text "add-port" ("--may-exist" ∷ []) ("br-int" ∷ lport.name ∷ []) extras in
      let values = values_of (set_colval_args (port_columns lport)) in
      rw
        (
          run_queued known "add-port" ("--may-exist" ∷ []) ("br-int" ∷ lport.name ∷ []) extras q,
          run_queued known "set" [] ("Interface" ∷ lport.name ∷ values) [] (q ++ add ∷ []),
        )
        (ap (λ l. (ok tt, at_queue method l))
          (append_assoc q (add ∷ [])
            (vsctl_text "set" [] ("Interface" ∷ lport.name ∷ values) [] ∷ [])))

  ports_queued :
      {method : InstallMethod} (known : Queues method) (internal : Bool) (lports : List Lport)
      (q : List String)
      → for_each lports (bind_port internal) (at_queue method q)
        ≡ (ok tt, at_queue method (q ++ flat_map (port_texts internal) lports))
  unfolding for_each
  ports_queued {method} known internal [] q = rw (append-nil q)
  ports_queued {method} known internal (p ∷ ps) q =
      rw
        (
          port_queued known internal p q,
          ports_queued known internal ps (q ++ port_texts internal p),
        )
        (ap (λ l. (ok tt, at_queue method l))
          (append_assoc q (port_texts internal p) (flat_map (port_texts internal) ps)))

  -- A client with no queue yet.
  first_port :
      {method : InstallMethod} (known : Queues method) (internal : Bool) (p : Lport)
      → bind_port internal p (record { client = prepared c name method log none; net = net })
        ≡ bind_port internal p (at_queue method [])
  unfolding bind_port Vsctl.add_port Vsctl.run set_cmds
  first_port known internal p = refl

  all_ports :
      {method : InstallMethod} (known : Queues method) (internal : Bool) (p : Lport)
      (ps : List Lport)
      → for_each
          (p ∷ ps)
          (bind_port internal)
          (record { client = prepared c name method log none; net = net })
        ≡ (ok tt, at_queue method (flat_map (port_texts internal) (p ∷ ps)))
  unfolding for_each
  all_ports {method} known internal p ps =
      rw (first_port known internal p, port_queued known internal p [])
        (ports_queued known internal ps (port_texts internal p))

  -- The session after a flush.
  abbrev flushed_to : InstallMethod → List String → Session
  flushed_to method q = record {
    client = prepared c name method log none;
    net = record net {
      trace =
          net.trace
          ++ script_events (prepared c name method log none)
              (Vsctl.flush_lines (prepared c name method log none) method q);
    };
  }

  flush-flushed_to :
      (method : InstallMethod) (q : List String)
      → Reliable net.env
      → Vsctl.flush (at_queue method q) ≡ (ok tt, flushed_to method q)
  unfolding Vsctl.flush Vsctl.flush_lines set_cmds log_cmds ssh_run happen
  flush-flushed_to method q r =
      let lines = Vsctl.flush_lines (prepared c name method log none) method q in
      let script = join "\n" lines in
      let note = logged (join " " lines) in
      ground (
        arith,
        r net.trace c.ssh script,
        r (net.trace ++ note ∷ []) c.ssh script,
        append_assoc net.trace (note ∷ []) (ran c.ssh script ∷ []),
      )

-- The session after the ports of a sandbox.
abbrev pub ports_sent : Mixin → Bool → String → List Lport → Session → Session
ports_sent m internal name lports s =
    let c = prepared s.client name m.install_method m.log_cmd none in
    record {
      client = record c { batch_mode = false };
      net = record (s.net) {
        trace =
            s.net.trace
            ++ script_events c
                (Vsctl.flush_lines c m.install_method (flat_map (port_texts internal) lports));
      };
    }

-- Where no command fails, with the install method "sandbox" or "physical", a sandbox that is in no
-- container, and no queue, `_bind_ovs_port` sends for this sandbox and one port or more one script,
-- which is what a flush makes of the two commands of each port, in order; it leaves no queue and batch
-- mode off.
pub bind_ports_on-sends :
    (m : Mixin) (internal : Bool) (name : String) (sandbox : Sandbox) (p : Lport) (ps : List Lport)
    (s : Session)
    → Queues m.install_method
    → sandbox.host_container ≡ none
    → s.client.cmds ≡ none
    → Reliable s.net.env
    → bind_ports_on m internal name sandbox (p ∷ ps) s
      ≡ (ok tt, ports_sent m internal name (p ∷ ps) s)
unfolding bind_ports_on set_sandbox set_log_cmd enable_batch_mode
bind_ports_on-sends m internal name sandbox p ps s known h k r =
    let rest : Session → Result (Unit {0}) × Session =
      for_each (p ∷ ps) (bind_port internal) >> (Vsctl.flush >> enable_batch_mode false) in
    let start : Option (List String) → Client = prepared s.client name m.install_method m.log_cmd in
    ap
      (λ (hc : Option String).
        rest (record s { client = record (start s.client.cmds) { host_container = hc } }))
      h
    ∙ ap (λ (q : Option (List String)). rest (record s { client = start q })) k
    ∙ rw (
      all_ports s.client name m.log_cmd s.net known internal p ps,
      flush-flushed_to s.client name m.log_cmd s.net m.install_method
          (flat_map (port_texts internal) (p ∷ ps)) r,
    )

-- Where no command fails and commands are not logged, with the install method "physical", a sandbox that
-- is in no container, and no queue, `_bind_ovs_port` sends for this sandbox an empty script, for one
-- port or more, whichever they are, and forgets their commands.
pub bind_physical-sends :
    (m : Mixin) (internal : Bool) (name : String) (sandbox : Sandbox) (p : Lport) (ps : List Lport)
    (s : Session)
    → m.install_method ≡ physical
    → m.log_cmd ≡ false
    → sandbox.host_container ≡ none
    → s.client.cmds ≡ none
    → Reliable s.net.env
    → (bind_ports_on m internal name sandbox (p ∷ ps) s).0 ≡ ok tt
      × ((bind_ports_on m internal name sandbox (p ∷ ps) s).1.net.trace
          ≡ s.net.trace ++ ran s.client.ssh "" ∷ [])
      × ((bind_ports_on m internal name sandbox (p ∷ ps) s).1.client.cmds ≡ none)
unfolding Vsctl.flush_lines join
bind_physical-sends m internal name sandbox p ps s on_physical quiet h k r =
    let known : Queues m.install_method = subst Queues (sym on_physical) on_host in
    let whole = bind_ports_on-sends m internal name sandbox p ps s known h k r in
    let trace : InstallMethod → Bool → List Event = λ method log.
      let c = prepared s.client name method log none in
      s.net.trace
      ++ script_events c (Vsctl.flush_lines c method (flat_map (port_texts internal) (p ∷ ps))) in
    (
      ap (λ (x : Result (Unit {0}) × Session). x.0) whole,
      ap (λ (x : Result (Unit {0}) × Session). x.1.net.trace) whole
          ∙ ap (λ method. trace method m.log_cmd) on_physical
          ∙ ap (trace physical) quiet,
      ap (λ (x : Result (Unit {0}) × Session). x.1.client.cmds) whole,
    )
