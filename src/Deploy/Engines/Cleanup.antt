-- ===== src/Deploy/Engines/Cleanup.antt =====
-- The clean up of ovn_sandbox_farm.py and ovn_sandbox_controller.py, and what the connections may do then.
use ovn_scale_test.Prelude.{
  ℕ, Bool, true, false, not, List, [], ◌∷◌, ◌++◌, map, String, str_eq, ◌≡◌, ◌≢◌, refl, sym, ap, ◌∙◌,
  append_assoc, flat_map, flat_map-append, if◌then◌else◌,
}
use mathlib.Core.List.{append-nil}
use ovn_scale_test.Python.Dict.{default}
use ovn_scale_test.Python.Exec.{Exec, ok, pure, for_each}
use ovn_scale_test.Deploy.Engines.{
  Server, Info, credential, controller, sandboxes, no_input, Resource, Action, ran, put_file, added,
  deleted, Outcome, fine, failed, broken, Site, EngineConfig, act, come_to, attempt,
}
use ovn_scale_test.Deploy.Engines.Nodes.{
  cleanup_command, ignore_errors, clean_resource, clean_farm, cleanup_farm, clean_controller,
  cleanup_controller,
}

abbrev deleted_by : Action → List ℕ
deleted_by (deleted id) = id ∷ []
deleted_by (ran server cmd input) = []
deleted_by (put_file server name) = []
deleted_by (added name info) = []

-- The resources that a trace deletes.
abbrev pub deletions : List Action → List ℕ
deletions = flat_map deleted_by

-- The code returns from here, and has then deleted these resources; commands behave as before.
pub record Deletes (m : Exec Site (Unit {0})) (s : Site) (ids : List ℕ) : Type 0 where
  pub final : Site
  pub runs : m s ≡ (ok tt, final)
  pub outcome : final.outcome ≡ s.outcome
  pub gone : deletions final.trace ≡ deletions s.trace ++ ids

pure-Deletes : (s : Site) → Deletes (pure tt) s []
pure-Deletes s = record {
  final = s;
  runs = refl;
  outcome = refl;
  gone = sym (append-nil (deletions s.trace));
}

run-Deletes :
    (server : Server) (m : Exec Site (Unit {0})) (s : Site)
    → m s ≡ (ok tt, act (ran server cleanup_command no_input) s)
    → Deletes m s []
unfolding act
run-Deletes server m s h = record {
  final = act (ran server cleanup_command no_input) s;
  runs = h;
  outcome = refl;
  gone = flat_map-append deleted_by s.trace (ran server cleanup_command no_input ∷ []);
}

clean_resource-Deletes :
    (clean : Info → Exec Site (Unit {0})) (r : Resource) (s : Site)
    → Deletes (clean r.info) s []
    → Deletes (clean_resource clean r) s (r.id ∷ [])
unfolding clean_resource act
clean_resource-Deletes clean r s d = record {
  final = act (deleted r.id) d.final;
  runs = rw d.runs refl;
  outcome = d.outcome;
  gone =
      flat_map-append deleted_by d.final.trace (deleted r.id ∷ [])
      ∙ ap (λ x. x ++ r.id ∷ []) (d.gone ∙ append-nil (deletions s.trace));
}

-- The loop over the resources.
loop-Deletes :
    (body : Resource → Exec Site (Unit {0})) (Fit : Site → Type 0)
    → ((s t : Site) → t.outcome ≡ s.outcome → Fit s → Fit t)
    → ((r : Resource) (s : Site) → Fit s → Deletes (body r) s (r.id ∷ []))
    → (rs : List Resource) (s : Site) → Fit s
    → Deletes (for_each rs body) s (map (λ r. r.id) rs)
unfolding for_each
loop-Deletes body Fit stays each [] s fit = pure-Deletes s
loop-Deletes body Fit stays each (r ∷ rs) s fit =
    let d = each r s fit in
    let e = loop-Deletes body Fit stays each rs d.final (stays s d.final d.outcome fit) in
    record {
      final = e.final;
      runs = rw d.runs e.runs;
      outcome = e.outcome ∙ d.outcome;
      gone =
          e.gone
          ∙ ap (λ x. x ++ map (λ r. r.id) rs) d.gone
          ∙ append_assoc (deletions s.trace) (r.id ∷ []) (map (λ r. r.id) rs);
    }

ignored :
    (server : Server) (s : Site)
    → ignore_errors (attempt false (ran server cleanup_command no_input)) s
      ≡ (ok tt, act (ran server cleanup_command no_input) s)
unfolding ignore_errors attempt come_to
ignored server s = by_outcome (s.outcome s.trace (ran server cleanup_command no_input)) refl
  where
    by_outcome :
        (o : Outcome)
        → s.outcome s.trace (ran server cleanup_command no_input) ≡ o
        → ignore_errors (attempt false (ran server cleanup_command no_input)) s
          ≡ (ok tt, act (ran server cleanup_command no_input) s)
    by_outcome fine h = rw h refl
    by_outcome failed h = rw h refl
    by_outcome broken h = rw h refl

if-Deletes :
    (b : Bool) (m k : Exec Site (Unit {0})) (s : Site)
    → Deletes m s []
    → Deletes k s []
    → Deletes (if b then m else k) s []
if-Deletes true m k s dm dk = dm
if-Deletes false m k s dm dk = dk

clean_farm-Deletes : (method : String) (i : Info) (s : Site) → Deletes (clean_farm method i) s []
unfolding clean_farm
clean_farm-Deletes method (credential server) s =
    if-Deletes (not (str_eq method "physical"))
      (ignore_errors (attempt false (ran server cleanup_command no_input))) (pure tt) s
      (run-Deletes server _ s (ignored server s)) (pure-Deletes s)
clean_farm-Deletes method (controller _ _ _) s = pure-Deletes s
clean_farm-Deletes method (sandboxes _ _) s = pure-Deletes s

-- No connection breaks; a command may still fail.
abbrev pub Unbroken : Site → Type 0
Unbroken s = (t : List Action) (a : Action) → s.outcome t a ≢ broken

reached :
    (server : Server) (s : Site)
    → Unbroken s
    → attempt false (ran server cleanup_command no_input) s
      ≡ (ok tt, act (ran server cleanup_command no_input) s)
unfolding attempt come_to
reached server s unbroken =
    by_outcome (s.outcome s.trace (ran server cleanup_command no_input)) (unbroken _ _)
  where
    by_outcome :
        (o : Outcome)
        → o ≢ broken
        → come_to false (ran server cleanup_command no_input) s o
          ≡ (ok tt, act (ran server cleanup_command no_input) s)
    by_outcome fine h = refl
    by_outcome failed h = refl
    by_outcome broken h = absurd (h refl)

clean_controller-Deletes :
    (method : String) (i : Info) (s : Site) → Unbroken s → Deletes (clean_controller method i) s []
unfolding clean_controller
clean_controller-Deletes method (credential server) s unbroken =
    if-Deletes (str_eq method "sandbox") (attempt false (ran server cleanup_command no_input))
      (pure tt) s (run-Deletes server _ s (reached server s unbroken)) (pure-Deletes s)
clean_controller-Deletes method (controller _ _ _) s unbroken = pure-Deletes s
clean_controller-Deletes method (sandboxes _ _) s unbroken = pure-Deletes s

-- Whatever becomes of the connections, the clean up of a farm returns, and it has then deleted each
-- resource of the deployment, in their order.
pub cleanup_farm-Deletes :
    (c : EngineConfig) (rs : List Resource) (s : Site)
    → Deletes (cleanup_farm c rs) s (map (λ r. r.id) rs)
unfolding cleanup_farm
cleanup_farm-Deletes c rs s =
    let method = default "sandbox" c.install_method in
    loop-Deletes (clean_resource (clean_farm method)) (λ s. Unit {0}) (λ s t h u. tt)
      (λ r t u. clean_resource-Deletes (clean_farm method) r t (clean_farm-Deletes method r.info t))
      rs s tt

-- Where no connection breaks, the clean up of a controller returns, even if its commands fail, and it
-- has then deleted each resource of the deployment, in their order.
pub cleanup_controller-Deletes :
    (c : EngineConfig) (rs : List Resource) (s : Site)
    → Unbroken s
    → Deletes (cleanup_controller c rs) s (map (λ r. r.id) rs)
unfolding cleanup_controller
cleanup_controller-Deletes c rs s unbroken =
    let method = default "sandbox" c.install_method in
    loop-Deletes (clean_resource (clean_controller method)) Unbroken (λ s t h u t' a. rw h (u t' a))
      (λ r t u.
        clean_resource-Deletes (clean_controller method) r t
          (clean_controller-Deletes method r.info t u))
      rs s unbroken
