-- ===== src/Scenario/Acls/Scripts.antt =====
-- The scripts of `_create_acl`.
use ovn_scale_test.Prelude.{
  ℕ, zero, suc, ◌+◌, ◌≡◌, ◌≢◌, refl, true, false, List, [], ◌∷◌, ◌++◌, map, Option, none, some, ◌<◌,
  String, str_eq, if◌then◌else◌, ap, ◌∙◌, append_assoc, append-nil, range, range_from,
}
use ovn_scale_test.Python.Text.{concat, str}
use ovn_scale_test.Python.Split.{quote}
use ovn_scale_test.Python.Dict.{default}
use ovn_scale_test.Python.Exec.{Exec, Result, ok, for_each}
use ovn_scale_test.Env.{Event, Reliable}
use ovn_scale_test.Client.{Session, queue, enable_batch_mode}
use ovn_scale_test.Client.Nbctl.Queue.{
  Callable, Placed, batch_text, queued, for_each-batched, flushed, flush_events, flush-waiting,
}
use ovn_scale_test.Client.Nbctl.Commands.{call-batched, acl_add}
use ovn_scale_test.Ovnclients.{Mixin, get_ovn_controller}
use ovn_scale_test.Ovnclients.Batches.Laws.{sends, after}
use ovn_scale_test.Ovnclients.Switches.Laws.{ready}
use ovn_scale_test.Scenario.Acls.{AclArgs, default_match, create_port_acls, create_acl}

abbrev pub direction_of : AclArgs → String
direction_of args = default "to-lport" args.direction

-- The match of the i-th ACL of a port.
abbrev pub match_of : AclArgs → String → ℕ → String
match_of args lport i =
    (default default_match args.match)
      (if str_eq (direction_of args) "from-lport" then "inport" else "outport") lport
      (default "" args.address_set) (100 + i)

abbrev pub acl_text : AclArgs → String → String → ℕ → String
acl_text args sw lport i =
    batch_text "acl-add" (concat ("--type=" ∷ default "switch" args.type ∷ []) ∷ []) (
      sw
      ∷ direction_of args
      ∷ str (default 1000 args.priority)
      ∷ quote (match_of args lport i)
      ∷ default "allow" args.action
      ∷ [])

-- The script of a port.
abbrev pub acl_texts : AclArgs → String → ℕ → String → List String
acl_texts args sw n lport = map (acl_text args sw lport) (range n)

append-cons_ne_nil : (q : List String) (t : String) (ts : List String) → q ++ t ∷ ts ≢ []
append-cons_ne_nil [] t ts e = cc
append-cons_ne_nil (x ∷ q) t ts e = cc

module _ (args : AclArgs) (sw lport : String) where
  abbrev add_one : ℕ → Exec Session (Unit {0})
  add_one i =
      acl_add sw (direction_of args) (default 1000 args.priority) (match_of args lport i)
        (default "allow" args.action) false (default "switch" args.type)

  add_one-batched :
      (i : ℕ) (s : Session)
      → s.client.batch_mode ≡ true
      → add_one i s ≡ (ok tt, queued s (acl_text args sw lport i ∷ []))
  unfolding acl_add
  add_one-batched i s b =
      call-batched "acl-add" (concat ("--type=" ∷ default "switch" args.type ∷ []) ∷ [])
        (sw
          ∷ direction_of args
          ∷ str (default 1000 args.priority)
          ∷ quote (match_of args lport i)
          ∷ default "allow" args.action
          ∷ [])
        s b

  port_acls-sends :
      (n : ℕ) (s : Session)
      → Reliable s.net.env
      → s.client.batch_mode ≡ true
      → Placed s.client
      → create_port_acls args sw (suc n) lport s
        ≡ (ok tt, flushed (queued s (acl_texts args sw (suc n) lport)))
  unfolding create_port_acls for_each
  port_acls-sends n s r b placed =
      let first = acl_text args sw lport 0 in
      let more = map (acl_text args sw lport) (range_from 1 n) in
      rw (
        add_one-batched 0 s b,
        for_each-batched (acl_text args sw lport) add_one add_one-batched (range_from 1 n)
            (first ∷ []) s b,
        flush-waiting (queued s (first ∷ more)) placed
            (append-cons_ne_nil (queue s.client) first more) r,
      )

-- The loop over the ports, from a client with nothing queued.
all_ports-send :
    (args : AclArgs) (sw : String) (n : ℕ) (lports : List String) (s : Session)
    → Reliable s.net.env
    → s.client.batch_mode ≡ true
    → Placed s.client
    → s.client.cmds ≡ none
    → for_each lports (create_port_acls args sw (suc n)) s
      ≡ (ok tt, after s (map (acl_texts args sw (suc n)) lports) none s.net.draws)
unfolding for_each
all_ports-send args sw n [] s r b placed c = rw (append-nil s.net.trace) (
    ap (λ (k : Option (List String)). (ok tt, record s { client = record (s.client) { cmds = k } }))
      c)
all_ports-send args sw n (lport ∷ lports) s r b placed c =
    let t = flushed (queued s (acl_texts args sw (suc n) lport)) in
    let texts = acl_texts args sw (suc n) lport in
    let others = sends s.client (map (acl_texts args sw (suc n)) lports) in
    let ends : List Event → Result (Unit {0}) × Session = λ trace. (
      ok tt,
      record s {
        client = record (s.client) { cmds = none };
        net = record (s.net) { trace = trace };
      },
    ) in
    rw
      (
        port_acls-sends args sw lport n s r b placed,
        all_ports-send args sw n lports t r b placed refl,
      )
      (ap
          (λ (q : List String). ends (
            (s.net.trace ++ flush_events (record (s.client) { cmds = some (q ++ texts) }))
            ++ others))
          (ap (λ (k : Option (List String)). queue (record (s.client) { cmds = k })) c)
        ∙ ap ends (
            append_assoc s.net.trace (flush_events (record (s.client) { cmds = some texts }))
              others))

-- The session after `_create_acl`.
abbrev pub acls_sent : Mixin → AclArgs → String → ℕ → List String → Session → Session
acls_sent m args sw n lports s = record s {
  client = record (ready m s.client) { cmds = none; batch_mode = false };
  net = record (s.net) {
    trace = s.net.trace ++ sends (ready m s.client) (map (acl_texts args sw n) lports);
  };
}

-- Where no command fails, the install method is one that ovn-nbctl can be called by ("sandbox",
-- "docker" or "physical"), and the client has no queue, `_create_acl` with at least one ACL per
-- port sends, for each port in order, one script that calls ovn-nbctl once with the ACLs of this
-- port, whose matches are made with the numbers from 100 on; it leaves no queue and batch mode
-- off.
pub create_acl-sends :
    (m : Mixin) (args : AclArgs) (sw : String) (lports : List String) (n : ℕ) (s : Session)
    → Reliable s.net.env
    → Callable m.install_method
    → s.client.cmds ≡ none
    → 0 < n
    → create_acl m sw lports args n s ≡ (ok tt, acls_sent m args sw n lports s)
unfolding create_acl get_ovn_controller enable_batch_mode
create_acl-sends m args sw lports zero s r known c pos = elim pos [ ]
create_acl-sends m args sw lports (suc n) s r known c pos = rw (
    all_ports-send args sw n lports (record s { client = ready m s.client }) r refl (refl, known) c)
