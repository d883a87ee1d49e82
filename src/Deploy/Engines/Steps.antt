-- ===== src/Deploy/Engines/Steps.antt =====
-- Code of deployment/ that records nothing until all of its commands have run.
use ovn_scale_test.Prelude.{
  Bool, true, false, List, [], ◌∷◌, ◌++◌, Option, some, String, ◌≡◌, ◌≢◌, refl, sym, ap, ◌∙◌,
  append_assoc, flat_map, flat_map-append, if◌then◌else◌,
}
use mathlib.Core.List.{append-nil}
use ovn_scale_test.Python.Exec.{
  Exec, attribute_error, ssh_error, Result, next, ok, err, pure, require, ◌>>=◌, ◌>>◌,
}
use ovn_scale_test.Deploy.Engines.{
  Info, Action, ran, put_file, added, deleted, Outcome, fine, failed, broken, Site, act, come_to,
  attempt,
}
use ovn_scale_test.Deploy.Engines.Nodes.{add_resource}

abbrev recorded_by : Action → List Info
recorded_by (added name info) = info ∷ []
recorded_by (ran server cmd input) = []
recorded_by (put_file server name) = []
recorded_by (deleted id) = []

-- The resources that a trace records.
abbrev pub recorded : List Action → List Info
recorded = flat_map recorded_by

failed-fine : failed ≢ fine
failed-fine e = cc

broken-fine : broken ≢ fine
broken-fine e = cc

-- What code that records nothing comes to from `s`: it returns, and commands behave as before; or a
-- command is not fine, and it raises.
pub data Step {A : Type 0} (s : Site) : Result A × Site → Type 0 where
  went :
      {a : A} {t : Site}
      → t.outcome ≡ s.outcome
      → recorded t.trace ≡ recorded s.trace
      → Step s (ok a, t)
  stopped :
      {t : Site} (u : List Action) (a : Action)
      → s.outcome u a ≢ fine
      → recorded t.trace ≡ recorded s.trace
      → Step s (err ssh_error, t)

pub record Quiet {A : Type 0} (m : Exec Site A) : Type 0 where
  pub keeps : (s : Site) → Step s (m s)

-- What code comes to that records these: it returns, and they are recorded; or a command is not fine,
-- and it raises with nothing recorded.
pub data Recorded (infos : List Info) (s : Site) : Result (Unit {0}) × Site → Type 0 where
  returned : {t : Site} → recorded t.trace ≡ recorded s.trace ++ infos → Recorded infos s (ok tt, t)
  raised :
      {t : Site} (u : List Action) (a : Action)
      → s.outcome u a ≢ fine
      → recorded t.trace ≡ recorded s.trace
      → Recorded infos s (err ssh_error, t)

pub record Records (infos : List Info) (m : Exec Site (Unit {0})) : Type 0 where
  pub ends : (s : Site) → Recorded infos s (m s)

Step-from :
    {A : Type 0} (s t : Site) (r : Result A × Site)
    → t.outcome ≡ s.outcome
    → recorded t.trace ≡ recorded s.trace
    → Step t r
    → Step s r
Step-from s t _ same h (went o g) = went (o ∙ same) (g ∙ h)
Step-from s t _ same h (stopped u a bad g) = stopped u a (λ e. bad (rw same e)) (g ∙ h)

Recorded-from :
    (infos : List Info) (s t : Site) (r : Result (Unit {0}) × Site)
    → t.outcome ≡ s.outcome
    → recorded t.trace ≡ recorded s.trace
    → Recorded infos t r
    → Recorded infos s r
Recorded-from infos s t _ same h (returned g) = returned (g ∙ ap (λ x. x ++ infos) h)
Recorded-from infos s t _ same h (raised u a bad g) = raised u a (λ e. bad (rw same e)) (g ∙ h)

pub attempt-Quiet : (a : Action) → recorded (a ∷ []) ≡ [] → Quiet (attempt true a)
unfolding attempt come_to act
attempt-Quiet a h = record { keeps = λ s. by_outcome s (s.outcome s.trace a) refl }
  where
    same : (s : Site) → recorded (s.trace ++ a ∷ []) ≡ recorded s.trace
    same s = flat_map-append recorded_by s.trace (a ∷ []) ∙ rw h (append-nil (recorded s.trace))

    by_outcome : (s : Site) (o : Outcome) → s.outcome s.trace a ≡ o → Step s (come_to true a s o)
    by_outcome s fine e = went refl (same s)
    by_outcome s failed e = stopped s.trace a (λ good. failed-fine (sym e ∙ good)) (same s)
    by_outcome s broken e = stopped s.trace a (λ good. broken-fine (sym e ∙ good)) (same s)

pub bind-Quiet :
    {A B : Type 0} (m : Exec Site A) (f : A → Exec Site B)
    → Quiet m
    → ((a : A) → Quiet (f a))
    → Quiet (m >>= f)
bind-Quiet {A = A} m f qm qf = record { keeps = λ s. after s (m s) (qm.keeps s) }
  where
    after : (s : Site) (r : Result A × Site) → Step s r → Step s (next r f)
    after s _ (went {a} {t} same h) = Step-from s t (f a t) same h ((qf a).keeps t)
    after s _ (stopped u a bad h) = stopped u a bad h

pub if-Quiet :
    (b : Bool) (m k : Exec Site (Unit {0})) → Quiet m → Quiet k → Quiet (if b then m else k)
if-Quiet true m k qm qk = qm
if-Quiet false m k qm qk = qk

pub pure-Quiet : Quiet (pure tt)
pure-Quiet = record { keeps = λ s. went refl refl }

-- What comes before the records leaves them as they are.
pub Quiet-first :
    (m k : Exec Site (Unit {0})) (infos : List Info)
    → Quiet m
    → Records infos k
    → Records infos (m >> k)
Quiet-first m k infos qm rk = record { ends = λ s. after s (m s) (qm.keeps s) }
  where
    after :
        (s : Site) (r : Result (Unit {0}) × Site) → Step s r → Recorded infos s (next r (λ _. k))
    after s _ (went {a} {t} same h) = Recorded-from infos s t (k t) same h (rk.ends t)
    after s _ (stopped u a bad h) = raised u a bad h

pub two-Records :
    (n n' : String) (i j : Info) → Records (i ∷ j ∷ []) (add_resource n i >> add_resource n' j)
unfolding add_resource act
two-Records n n' i j = record {
  ends = λ s. returned (
      ap recorded (append_assoc s.trace (added n i ∷ []) (added n' j ∷ []))
      ∙ flat_map-append recorded_by s.trace (added n i ∷ added n' j ∷ []));
}

pub found-Records :
    (n : String) (i : Info) (j : String → Info) (o : Option String) (a : String)
    → o ≡ some a
    → Records
        (i ∷ j a ∷ [])
        (add_resource n i >> (require attribute_error o >>= λ x. add_resource n (j x)))
found-Records n i j o a h = rw h (two-Records n n i (j a))
