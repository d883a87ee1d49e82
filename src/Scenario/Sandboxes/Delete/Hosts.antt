-- ===== src/Scenario/Sandboxes/Delete/Hosts.antt =====
-- scenarios/sandbox.py `_delete_sandbox`, farm by farm: what a farm is told, and what is recorded then.
use ovn_scale_test.Prelude.{
  ◌≡◌, refl, sym, ap, ◌∙◌, Bool, true, false, ◌&&◌, inl, inr, Bool-cases, List, [], ◌∷◌, ◌++◌, map,
  Option, none, some, String, str_eq, eq_iff, if◌then◌else◌, append_assoc, append-nil, All,
  All-weaken, arith,
}
use ovn_scale_test.Python.Text.{join, concat}
use ovn_scale_test.Python.Dict.{lookup, insert, lookup-insert}
use ovn_scale_test.Python.Exec.{Exec, ok, for_each}
use ovn_scale_test.Env.{Event, ran, Reliable, happen}
use ovn_scale_test.Client.{Client, sandbox_method, ssh_run}
use ovn_scale_test.World.{
  World, Clients, farm, clients_at, call_client, store_client, put_clients, close_session,
}
use ovn_scale_test.World.Sharing.{at-ok, call-store}
use ovn_scale_test.Deploy.Lookup.{SandboxesInfo, delete_sandbox_resource}
use ovn_scale_test.Deploy.Lookup.Laws.{elem, lookup-delete_sandbox_resource}
use ovn_scale_test.Scenario.Sandboxes.{Depot, on_world, record_of, save_record, command_sandbox}
use ovn_scale_test.Scenario.Sandboxes.Delete.{cleanup_cmd, delete_on_farm}

-- The tag that the record of a farm has for a name.
abbrev pub tag_in : String → Option SandboxesInfo → Option String
tag_in name none = none
tag_in name (some info) = lookup name info.sandboxes

abbrev pub tag_of : String → String → Depot → Option String
tag_of name k d = tag_in name (lookup k d.records)

tag_of-found :
    (name k : String) (d : Depot) (info : SandboxesInfo)
    → lookup k d.records ≡ some info
    → tag_of name k d ≡ lookup name info.sandboxes
tag_of-found name k d info h = ap (tag_in name) h

-- A farm whose clients go to `host`, and that has a record.
pub record Hosted (host : String) (d : Depot) (k : String) : Type 0 where
  pub clients : Clients
  pub there : clients_at (farm k) d.world ≡ ok clients
  pub goes_to : (call_client "ssh" clients).ssh ≡ host
  pub info : SandboxesInfo
  pub recorded : lookup k d.records ≡ some info

-- The world after a command on a farm.
abbrev commanded : String → String → Clients → World → World
commanded k cmd cs w =
    let c = call_client "ssh" cs in
    record (put_clients (farm k) (store_client "ssh" c cs) w) {
      net = record (w.net) { trace = w.net.trace ++ ran c.ssh cmd ∷ [] };
    }

command-runs :
    (k cmd : String) (w : World) (cs : Clients)
    → Reliable w.net.env
    → clients_at (farm k) w ≡ ok cs
    → command_sandbox sandbox_method k cmd w ≡ (ok tt, commanded k cmd cs w)
unfolding command_sandbox ssh_run happen close_session
command-runs k cmd w cs r there =
    rw
      (
        at-ok (farm k) "ssh" (ssh_run true cmd) w there,
        r w.net.trace (call_client "ssh" cs).ssh cmd,
      )
      refl

-- The commands of the script for one farm.
abbrev pub script_for : Bool → List String → String
script_for graceful names = join "\n" (
    map
      (λ name. concat (
        "./ovs-sandbox.sh --ovn "
        ∷ (if graceful then "--graceful" else "")
        ∷ " --cleanup  "
        ∷ name
        ∷ []))
      names)

module _ (host : String → String) (graceful : Bool) where
  -- What the clean up of some farms does: it returns, these events happen, the farms are still there,
  -- and the names `gone` are in no record any more.
  pub record Forgets (d : Depot) (method : Exec Depot (Unit {0})) (events : List Event)
      (gone : String → String → Bool) : Type 0 where
    pub final : Depot
    pub returns : method d ≡ (ok tt, final)
    pub trace : final.world.net.trace ≡ d.world.net.trace ++ events
    pub env : final.world.net.env ≡ d.world.net.env
    pub keeps : (k : String) → Hosted (host k) d k → Hosted (host k) final k
    pub tags :
        (name k : String) → tag_of name k final ≡ (if gone name k then none else tag_of name k d)

  module _ (k : String) (names : List String) (d : Depot) (h : Hosted (host k) d k) where
    abbrev after_command : World
    after_command = commanded k (script_for graceful names) h.clients d.world

    abbrev after : Depot
    after = record d {
      world = after_command;
      records = insert k (delete_sandbox_resource names h.info) d.records;
    }

    clients_at-after :
        (j : String) (cs : Clients)
        → clients_at (farm j) d.world ≡ ok cs
        → clients_at (farm j) after_command
          ≡ ok (
              if str_eq k j then store_client "ssh" (call_client "ssh" h.clients) h.clients else cs)
    unfolding clients_at put_clients
    clients_at-after j cs there =
        let new = store_client "ssh" (call_client "ssh" h.clients) h.clients in
        ground (arith, there, lookup-insert k j new d.world.farm_clients)

    keeps-after : (j : String) → Hosted (host j) d j → Hosted (host j) after j
    keeps-after j g = elim (Bool-cases (str_eq k j)) [
      | inl same ↦
          let e : k ≡ j = (eq_iff k j).0 same in
          record {
            clients = store_client "ssh" (call_client "ssh" h.clients) h.clients;
            there = clients_at-after j g.clients g.there ∙ rw same;
            goes_to =
                ap (λ (c : Client). c.ssh)
                  (call-store "ssh" (call_client "ssh" h.clients) (call_client "ssh" h.clients)
                    h.clients)
                ∙ h.goes_to
                ∙ ap host e;
            info = delete_sandbox_resource names h.info;
            recorded = lookup-insert k j (delete_sandbox_resource names h.info) d.records ∙ rw same;
          }
      | inr other ↦ record {
        clients = g.clients;
        there = clients_at-after j g.clients g.there ∙ rw other;
        goes_to = g.goes_to;
        info = g.info;
        recorded =
            lookup-insert k j (delete_sandbox_resource names h.info) d.records
            ∙ rw other g.recorded;
      }
    ]

    tags-after :
        (name j : String)
        → tag_of name j after ≡ (if str_eq k j && elem name names then none else tag_of name j d)
    tags-after name j =
        ap (tag_in name) (lookup-insert k j (delete_sandbox_resource names h.info) d.records)
        ∙ elim (Bool-cases (str_eq k j)) [
          | inl same ↦
              let e : k ≡ j = (eq_iff k j).0 same in
              rw same (
                lookup-delete_sandbox_resource name names h.info
                ∙ ap (λ (o : Option String). if elem name names then none else o) (sym (was e)))
          | inr other ↦ rw other refl
        ]
      where
        was : k ≡ j → tag_of name j d ≡ lookup name h.info.sandboxes
        was e =
            ap (λ (l : String). tag_of name l d) (sym e) ∙ tag_of-found name k d h.info h.recorded

    delete_on_farm-Forgets :
        Reliable d.world.net.env
        → Forgets d
            (delete_on_farm sandbox_method graceful k names)
            (ran (host k) (script_for graceful names) ∷ [])
            (λ name j. str_eq k j && elem name names)
    unfolding delete_on_farm on_world record_of save_record cleanup_cmd
    delete_on_farm-Forgets r = record {
      final = after;
      returns =
          rw (command-runs k (script_for graceful names) d.world h.clients r h.there, h.recorded)
            refl;
      trace = rw h.goes_to refl;
      env = refl;
      keeps = keeps-after;
      tags = tags-after;
    }

  pub each-Forgets :
      (names : String → List String) (ks : List String) (d : Depot)
      → Reliable d.world.net.env
      → All (λ k. Hosted (host k) d k) ks
      → Forgets d
          (for_each ks (λ k. delete_on_farm sandbox_method graceful k (names k)))
          (map (λ k. ran (host k) (script_for graceful (names k))) ks)
          (λ name j. elem j ks && elem name (names j))
  unfolding for_each
  each-Forgets names [] d r hs = record {
    final = d;
    returns = refl;
    trace = sym (append-nil d.world.net.trace);
    env = refl;
    keeps = λ k h. h;
    tags = λ name k. refl;
  }
  each-Forgets names (k ∷ ks) d r hs =
      let first = delete_on_farm-Forgets k (names k) d hs.0 r in
      let rest =
        each-Forgets names ks first.final (rw first.env r) (All-weaken ks first.keeps hs.1) in
      record {
        final = rest.final;
        returns = rw first.returns rest.returns;
        trace =
            rest.trace
            ∙ rw first.trace (
                append_assoc d.world.net.trace (ran (host k) (script_for graceful (names k)) ∷ [])
                  (map (λ k. ran (host k) (script_for graceful (names k))) ks));
        env = rest.env ∙ first.env;
        keeps = λ j h. rest.keeps j (first.keeps j h);
        tags = λ name j.
            rest.tags name j ∙ rw (first.tags name j) (both names k ks name j (tag_of name j d));
      }
    where
      both :
          (names : String → List String) (k : String) (ks : List String) (name j : String)
          (o : Option String)
          → (if elem j ks && elem name (names j)
              then none
              else if str_eq k j && elem name (names k)
              then none
              else o)
            ≡ (if elem j (k ∷ ks) && elem name (names j) then none else o)
      both names k ks name j o = elim (Bool-cases (str_eq k j)) [
        | inl same ↦
            let e : k ≡ j = (eq_iff k j).0 same in
            rw (same, ap names e) (either (elem j ks) (elem name (names j)) o)
        | inr other ↦ rw other refl
      ]
        where
          either :
              (a b : Bool) (o : Option String)
              → (if a && b then none else if b then none else o) ≡ (if b then none else o)
          either true true o = refl
          either true false o = refl
          either false true o = refl
          either false false o = refl
