-- ===== src/Scenario/Conns/Sharing.antt =====
-- scenarios/ovn.py `_build_conn_hash`: the sandboxes of one farm share its client, which is set up anew
-- for each of them.
use ovn_scale_test.Prelude.{
  true, List, [], ◌∷◌, Option, none, some, String, str_eq, eq_iff, ◌≡◌, refl, ap, ◌∙◌,
  if◌then◌else◌, Bool-cases, inl, inr, All, All-weaken,
}
use ovn_scale_test.Python.Dict.{Dict, insert}
use ovn_scale_test.Python.Exec.{ok}
use ovn_scale_test.Topology.{Sandbox}
use ovn_scale_test.Client.{Client, set_sandbox, set_log_cmd, enable_batch_mode}
use ovn_scale_test.Ovnclients.{Mixin}
use ovn_scale_test.World.{
  World, Clients, farm, at, clients_at, call_client, close_session, store_client,
}
use ovn_scale_test.World.Sharing.{at-ok, call-store, clients_at-close}
use ovn_scale_test.Scenario.Conns.{conn_setup, build_conns}

-- The last sandbox on a farm, of a list and before it.
abbrev pub last_on : String → Option Sandbox → List Sandbox → Option Sandbox
last_on name found [] = found
last_on name found (sb ∷ sbs) = last_on name (if str_eq sb.farm name then some sb else found) sbs

-- A client that is set up for a sandbox.
abbrev pub set_for : Mixin → Sandbox → Client → Client
set_for m sb c = record c {
  sandbox = some sb.name;
  install_method = m.install_method;
  host_container = sb.host_container;
  log_cmd = m.log_cmd;
  batch_mode = true;
}

-- The farms of the sandboxes are there.
abbrev pub KnownFarms : World → List Sandbox → Type 0
KnownFarms w = All (λ sb. (cs : Clients) × (clients_at (farm sb.farm) w ≡ ok cs))

-- The world after the client of a farm has been set up for a sandbox on it.
abbrev set_up : Mixin → Sandbox → Clients → World → World
set_up m sb cs w =
    (close_session (farm sb.farm) "ovs-ssh" cs w
      (conn_setup m sb (record { client = call_client "ovs-ssh" cs; net = w.net }))).1

conn_setup-runs :
    (m : Mixin) (sb : Sandbox) (cs : Clients) (w : World)
    → clients_at (farm sb.farm) w ≡ ok cs
    → at (farm sb.farm) "ovs-ssh" (conn_setup m sb) w ≡ (ok tt, set_up m sb cs w)
unfolding conn_setup close_session set_sandbox set_log_cmd enable_batch_mode
conn_setup-runs m sb cs w there = rw (at-ok (farm sb.farm) "ovs-ssh" (conn_setup m sb) w there) refl

set_up-client :
    (m : Mixin) (sb : Sandbox) (cs : Clients) (w : World) (name : String)
    → clients_at (farm name) (set_up m sb cs w) ≡ (
        if str_eq sb.farm name
        then ok (store_client "ovs-ssh" (set_for m sb (call_client "ovs-ssh" cs)) cs)
        else clients_at (farm name) w)
unfolding conn_setup set_sandbox set_log_cmd enable_batch_mode
set_up-client m sb cs w name =
    clients_at-close sb.farm "ovs-ssh" cs w
      (conn_setup m sb (record { client = call_client "ovs-ssh" cs; net = w.net })) name

abbrev FarmKnown : World → String → Type 0
FarmKnown w name = (cs : Clients) × (clients_at (farm name) w ≡ ok cs)

set_up-Known :
    (m : Mixin) (sb : Sandbox) (cs : Clients) (w : World) (name : String)
    → FarmKnown w name
    → FarmKnown (set_up m sb cs w) name
set_up-Known m sb cs w name (ds, there) = elim (Bool-cases (str_eq sb.farm name)) [
  | inl same ↦ (
    store_client "ovs-ssh" (set_for m sb (call_client "ovs-ssh" cs)) cs,
    set_up-client m sb cs w name ∙ rw same refl,
  )
  | inr differ ↦ (ds, set_up-client m sb cs w name ∙ rw differ there)
]

-- The client after the sandboxes that came before: as it was, or set up for the last of them.
abbrev pub client_for : Mixin → Option Sandbox → Client → Client
client_for m none c = c
client_for m (some sb) c = set_for m sb c

set_again :
    (m : Mixin) (sb : Sandbox) (found : Option Sandbox) (c : Client)
    → set_for m sb (client_for m found c) ≡ set_for m sb c
set_again m sb none c = refl
set_again m sb (some other) c = refl

-- What building the connections from `conns` comes to, for the client of a farm: no exception, and the
-- client is set up for the last sandbox on the farm, if there is one.
pub record Builds (m : Mixin) (conns : Dict String) (sbs : List Sandbox) (w : World) (name : String)
    (found : Option Sandbox) (c : Client) : Type 0 where
  pub final : World
  pub result : Dict String
  pub runs : build_conns m conns sbs w ≡ (ok result, final)
  pub clients : Clients
  pub there : clients_at (farm name) final ≡ ok clients
  pub container : call_client "ovs-ssh" clients ≡ client_for m (last_on name found sbs) c

module _ (m : Mixin) (name : String) (c : Client) where
  Builds-step :
      (conns : Dict String) (sb : Sandbox) (sbs : List Sandbox) (w : World) (found : Option Sandbox)
      (cs : Clients)
      → clients_at (farm sb.farm) w ≡ ok cs
      → Builds m
          (insert sb.name sb.farm conns)
          sbs
          (set_up m sb cs w)
          name
          (if str_eq sb.farm name then some sb else found)
          c
      → Builds m conns (sb ∷ sbs) w name found c
  unfolding build_conns
  Builds-step conns sb sbs w found cs there b = record {
    final = b.final;
    result = b.result;
    runs = rw (conn_setup-runs m sb cs w there) b.runs;
    clients = b.clients;
    there = b.there;
    container = b.container;
  }

  -- The client of the farm after one more sandbox.
  next_client :
      (sb : Sandbox) (w : World) (found : Option Sandbox) (cs ds : Clients)
      → clients_at (farm sb.farm) w ≡ ok cs
      → clients_at (farm name) w ≡ ok ds
      → call_client "ovs-ssh" ds ≡ client_for m found c
      → (es : Clients) × (clients_at (farm name) (set_up m sb cs w) ≡ ok es)
        × (call_client "ovs-ssh" es
            ≡ client_for m (if str_eq sb.farm name then some sb else found) c)
  next_client sb w found cs ds there here now = elim (Bool-cases (str_eq sb.farm name)) [
    | inl same ↦
        let one : cs ≡ ds = cc ((eq_iff sb.farm name).0 same) in
        let old = set_for m sb (call_client "ovs-ssh" cs) in
        (
          store_client "ovs-ssh" old cs,
          set_up-client m sb cs w name ∙ rw same refl,
          rw same (
              call-store "ovs-ssh" old old cs
              ∙ ap (set_for m sb) (ap (call_client "ovs-ssh") one ∙ now)
              ∙ set_again m sb found c),
        )
    | inr differ ↦ (ds, set_up-client m sb cs w name ∙ rw differ here, rw differ now)
  ]

  build_conns-Builds :
      (conns : Dict String) (sbs : List Sandbox) (w : World) (found : Option Sandbox) (ds : Clients)
      → KnownFarms w sbs
      → clients_at (farm name) w ≡ ok ds
      → call_client "ovs-ssh" ds ≡ client_for m found c
      → Builds m conns sbs w name found c
  unfolding build_conns
  build_conns-Builds conns [] w found ds known here now = record {
    final = w;
    result = conns;
    runs = refl;
    clients = ds;
    there = here;
    container = now;
  }
  build_conns-Builds conns (sb ∷ sbs) w found ds ((cs, there), known) here now =
      let (es, there', after) = next_client sb w found cs ds there here now in
      Builds-step conns sb sbs w found cs there (
        build_conns-Builds (insert sb.name sb.farm conns) sbs (set_up m sb cs w)
          (if str_eq sb.farm name then some sb else found) es
          (All-weaken sbs (λ s. set_up-Known m sb cs w s.farm) known) there' after)

-- With the farms of all sandboxes there, building the connections returns, and the client of a farm is
-- left set up for the last of the sandboxes on it.
-- The client of a farm that has none of them is as it was.
pub build_conns-last :
    (m : Mixin) (sbs : List Sandbox) (w : World) (name : String) (cs : Clients)
    → KnownFarms w sbs
    → clients_at (farm name) w ≡ ok cs
    → Builds m [] sbs w name none (call_client "ovs-ssh" cs)
build_conns-last m sbs w name cs known here =
    build_conns-Builds m name (call_client "ovs-ssh" cs) [] sbs w none cs known here refl
