-- ===== src/World/Sharing.antt =====
-- The cache of clients: two calls for one client, and the cleanup.
use ovn_scale_test.Prelude.{
  ◌≡◌, refl, ap, ◌∙◌, String, str_eq, Bool, true, false, none, some, [], ◌∷◌, arith, if◌then◌else◌,
}
use ovn_scale_test.Python.Dict.{Dict, lookup, lookup-insert, insert-insert, lookup-insert_self}
use ovn_scale_test.Python.Exec.{Exec, Error, Result, ok, err, key_error, ◌>>=◌, next}
use ovn_scale_test.Env.{Net}
use ovn_scale_test.Client.{Client, Session}
use ovn_scale_test.World.{
  World, Place, Clients, at, cleanup_clients, clear_all, clients_at, call_client, create_client,
  put_clients, store_client, close_session, controller, farm,
}

clients_at-put :
    (place : Place) (cs : Clients) (n : Net) (w : World)
    → clients_at place (record (put_clients place cs w) { net = n }) ≡ ok cs
unfolding clients_at put_clients
clients_at-put controller cs n w = refl
clients_at-put (farm name) cs n w = rw (lookup-insert_self name cs w.farm_clients, clients_at)

put-put :
    (place : Place) (cs cs' : Clients) (n : Net) (w : World)
    → put_clients place cs' (record (put_clients place cs w) { net = n })
      ≡ record (put_clients place cs' w) { net = n }
unfolding put_clients
put-put controller cs cs' n w = refl
put-put (farm name) cs cs' n w = rw (insert-insert name cs cs' w.farm_clients)

module _ (kind : String) (c c' : Client) (cs : Clients) where
  pub call-store : call_client kind (store_client kind c cs) ≡ c
  unfolding call_client store_client
  call-store = rw (lookup-insert_self kind c cs.cache, call_client)

  store-store : store_client kind c' (store_client kind c cs) ≡ store_client kind c' cs
  unfolding store_client
  store-store = rw (insert-insert kind c c' cs.cache)

pub at-ok :
    {A : Type 0} (place : Place) (kind : String) (m : Exec Session A) (w : World) {cs : Clients}
    → clients_at place w ≡ ok cs
    → at place kind m w
      ≡ close_session place kind cs w (m (record { client = call_client kind cs; net = w.net }))
unfolding at
at-ok place kind m w h = rw (h, at)

at-err :
    {A : Type 0} (place : Place) (kind : String) (m : Exec Session A) (w : World) {e : Error}
    → clients_at place w ≡ err e
    → at place kind m w ≡ (err e, w)
unfolding at
at-err place kind m w h = rw (h, at)

-- The second call, after the first one has ended in `p`.
second_call :
    {A B : Type 0} (place : Place) (kind : String) (f : A → Exec Session B) (w : World)
    (cs : Clients) (p : Result A × Session)
    → next (close_session place kind cs w p) (λ a. at place kind (f a))
      ≡ close_session place kind cs w (next p f)
unfolding close_session
second_call place kind f w cs (err e, s) = refl
second_call place kind f w cs (ok a, s) =
    let cs' = store_client kind s.client cs in
    rw
      (
        at-ok place kind (f a) (record (put_clients place cs' w) { net = s.net })
            (clients_at-put place cs' s.net w),
        call-store kind s.client s.client cs,
      )
      (ap (λ (v : World). ((f a s).0, record v { net = (f a s).1.net }))
        (put-put place cs' (store_client kind (f a s).1.client cs') s.net w
          ∙ ap (λ (k : Clients). record (put_clients place k w) { net = s.net })
              (store-store kind s.client (f a s).1.client cs)))

-- Asking for a client and doing `m`, and asking for it again and doing `f` with the result, is to ask
-- once and do both: nothing that `m` set on the client is lost in between.
pub at-at :
    {A B : Type 0} (place : Place) (kind : String) (m : Exec Session A) (f : A → Exec Session B)
    (w : World)
    → (at place kind m >>= λ a. at place kind (f a)) w ≡ at place kind (m >>= f) w
at-at place kind m f w = go (clients_at place w) refl
  where
    go :
        (r : Result Clients)
        → clients_at place w ≡ r
        → (at place kind m >>= λ a. at place kind (f a)) w ≡ at place kind (m >>= f) w
    go (err e) h = rw (at-err place kind m w h, at-err place kind (m >>= f) w h)
    go (ok cs) h =
        rw (at-ok place kind m w h, at-ok place kind (m >>= f) w h)
          (second_call place kind f w cs (m (record { client = call_client kind cs; net = w.net })))

-- The clients of a farm after one of them has worked: that farm keeps it, and the others are as before.
pub clients_at-close :
    {A : Type 0} (f kind : String) (cs : Clients) (w : World) (p : Result A × Session)
    (name : String)
    → clients_at (farm name) (close_session (farm f) kind cs w p).1
      ≡ (if str_eq f name then ok (store_client kind p.1.client cs) else clients_at (farm name) w)
unfolding clients_at close_session put_clients
clients_at-close f kind cs w (r, s) name =
    let kept = store_client kind s.client cs in
    rw (lookup-insert f name kept w.farm_clients, clients_at) (push (str_eq f name) kept)
  where
    push :
        (b : Bool) (kept : Clients)
        → (elim (if b then some kept else lookup name w.farm_clients) [
          | none ↦ err key_error
          | some cs ↦ ok cs
        ])
          ≡ (if b
              then ok kept
              else (elim (lookup name w.farm_clients) [ none ↦ err key_error | some cs ↦ ok cs ]))
    push true kept = refl
    push false kept = refl

lookup-clear_all :
    (name : String) (d : Dict Clients) {cs : Clients}
    → lookup name d ≡ some cs
    → lookup name (clear_all d) ≡ some (record cs { cache = [] })
unfolding lookup clear_all
lookup-clear_all name [] h = cc
lookup-clear_all name ((k, c) ∷ d) {cs} h = ground (arith, lookup-clear_all name d {cs = cs})

farm-found :
    (name : String) (w : World) {cs : Clients}
    → clients_at (farm name) w ≡ ok cs
    → lookup name w.farm_clients ≡ some cs
unfolding clients_at
farm-found name w h = ground arith

-- After `cleanup_clients` a node that was there makes a new client of its credential, as the first
-- call did, whatever had been set on the old one.
pub cleanup_forgets :
    (place : Place) (kind : String) (w : World) {cs : Clients}
    → clients_at place w ≡ ok cs
    → (cs' : Clients) × (clients_at place (cleanup_clients w) ≡ ok cs')
      × (call_client kind cs' ≡ create_client cs.credential)
unfolding clients_at cleanup_clients call_client lookup
cleanup_forgets controller kind w {cs} h = (record cs { cache = [] }, ground arith, refl)
cleanup_forgets (farm name) kind w {cs} h = (
  record cs { cache = [] },
  rw (lookup-clear_all name w.farm_clients (farm-found name w h), clients_at),
  refl,
)
