-- ===== src/World.antt =====
-- ovsclients.py, OvsClient, Clients and ClientsMixin: the client objects that the contexts and the
-- scenarios share. A scenario asks for a client by node and kind, and is handed the one that its
-- cache holds; what an earlier caller set on it is still set.
pub mod Sharing
use ovn_scale_test.Prelude.{
  ℕ, List, [], ◌∷◌, Option, none, some, String, str_eq, Bool, if◌then◌else◌,
}
use ovn_scale_test.Python.Dict.{Dict, lookup, insert}
use ovn_scale_test.Python.Exec.{
  Exec, Result, ok, err, Error, attribute_error, key_error, raise, pure, next, modify,
}
use ovn_scale_test.Env.{Net}
use ovn_scale_test.Topology.{Lport, Sandbox}
use ovn_scale_test.Client.{Client, Credential, InstallMethod, Session, init_client}

-- class Clients: the credential of a node, and its cache of clients by kind.
pub record Clients : Type 0 where
  pub credential : Credential
  pub cache : Dict Client

-- The node that a client works on.
pub data Place : Type 0 where
  controller : Place
  farm : String → Place

pub record World : Type 0 where
  pub controller_clients : Option Clients
  pub farm_clients : Dict Clients
  pub net : Net
  -- `context["ovs-internal-ports"]`
  pub internal_ports : Dict (Lport × Sandbox)

-- What `create_client` makes of a credential: `is_root_credential` and the connection to the host.
unfoldable pub create_client : Credential → Client
unfolding init_client
create_client c = init_client (str_eq c.user "root") c.host

-- `OvsClient.__call__`: the cached client, or a new one.
unfoldable pub call_client : String → Clients → Client
unfolding create_client lookup
call_client kind cs = elim (lookup kind cs.cache) [
  | some c ↦ c
  | none ↦ create_client cs.credential
]

-- The client is in the cache from then on, and it is what its methods made of it.
unfoldable pub store_client : String → Client → Clients → Clients
unfolding insert
store_client kind c cs = record cs { cache = insert kind c cs.cache }

-- `self._controller_clients`, `self._farm_clients[name]`
unfoldable pub clients_at : Place → World → Result Clients
unfolding lookup
clients_at controller w = elim w.controller_clients [ none ↦ err attribute_error | some cs ↦ ok cs ]
clients_at (farm name) w = elim (lookup name w.farm_clients) [
  | none ↦ err key_error
  | some cs ↦ ok cs
]

unfoldable pub put_clients : Place → Clients → World → World
unfolding insert
put_clients controller cs w = record w { controller_clients = some cs }
put_clients (farm name) cs w = record w { farm_clients = insert name cs w.farm_clients }

-- The world after a client has worked.
unfoldable pub close_session :
    {A : Type 0} → Place → String → Clients → World → Result A × Session → Result A × World
unfolding store_client put_clients
close_session place kind cs w (r, s) =
    (r, record (put_clients place (store_client kind s.client cs) w) { net = s.net })

-- `controller_client(kind)` or `farm_clients(name, kind)`, and what is then done with the client.
unfoldable pub at : {A : Type 0} → Place → String → Exec Session A → Exec World A
unfolding clients_at call_client close_session
at place kind method w = elim (clients_at place w) [
  | err e ↦ (err e, w)
  | ok cs ↦
      close_session place kind cs w (method (record { client = call_client kind cs; net = w.net }))
]

-- The credentials of `context["ovn_multihost"]`.
pub record MultihostInfo : Type 0 where
  pub controller : Dict Credential
  pub farms : Dict Credential
  pub install_method : InstallMethod

abbrev pub fresh : Credential → Clients
fresh c = record { credential = c; cache = [] }

-- The loop over the controllers: the last one counts.
unfoldable pub last_clients : Option Clients → Dict Credential → Option Clients
last_clients found [] = found
last_clients found ((k, c) ∷ rest) = last_clients (some (fresh c)) rest

unfoldable pub fresh_farms : Dict Clients → Dict Credential → Dict Clients
unfolding insert
fresh_farms farms [] = farms
fresh_farms farms ((k, c) ∷ rest) = fresh_farms (insert k (fresh c) farms) rest

-- `setup`
unfoldable pub setup : MultihostInfo → World → World
unfolding last_clients fresh_farms
setup info w = record w {
  controller_clients = last_clients w.controller_clients info.controller;
  farm_clients = fresh_farms [] info.farms;
}

unfoldable pub clear_all : Dict Clients → Dict Clients
clear_all [] = []
clear_all ((k, cs) ∷ rest) = (k, record cs { cache = [] }) ∷ clear_all rest

-- `cleanup_clients`
unfoldable pub cleanup_clients : World → World
unfolding clear_all
cleanup_clients w = record w {
  controller_clients = elim w.controller_clients [
    | none ↦ none
    | some cs ↦ some (record cs { cache = [] })
  ];
  farm_clients = clear_all w.farm_clients;
}
