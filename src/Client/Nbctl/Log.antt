-- ===== src/Client/Nbctl/Log.antt =====
-- OvnNbctl in batch mode as a log: an abstract machine of commands that have gone out and commands that
-- wait, which the client with its queue and the ssh connection implements.
pub mod Delivered
use mathlib.Core.Path.{subst}
use ovn_scale_test.Prelude.{
  Bool, true, List, [], ◌∷◌, ◌++◌, Option, none, some, String, ◌≡◌, ◌≢◌, refl, sym, ap, ◌∙◌, arith,
  append_assoc, append-nil, flatten, flatten-append, flat_map-append, All, All-append,
}
use ovn_scale_test.Python.Exec.{Exec, ok, pure, ◌>>=◌}
use ovn_scale_test.Env.{Event, Reliable}
use ovn_scale_test.Client.{Client, Session, queue}
use ovn_scale_test.Client.Nbctl.{run, flush}
use ovn_scale_test.Client.Nbctl.Queue.{
  Placed, batch_text, queued, run-batched, flush_events, flushed, flush-waiting, flush-nil,
}
use ovn_scale_test.Ovnclients.Batches.Laws.{listed, sends, after}

-- What a caller does with the client.
pub data Action : Type 0 where
  issue : String → List String → List String → Action
  deliver : Action

unfoldable pub perform : Action → Exec Session (Unit {0})
perform (issue cmd opts args) = do out ← run cmd opts args true; pure tt
perform deliver = flush

-- The abstract machine: the scripts that have gone out, and the commands that wait.
pub record Log : Type 0 where
  pub sent : List (List String)
  pub pending : List String

unfoldable pub log_step : Action → Log → Log
log_step (issue cmd opts args) l = record l { pending = l.pending ++ batch_text cmd opts args ∷ [] }
log_step deliver l = elim l.pending [
  | [] ↦ l
  | x ∷ xs ↦ record { sent = l.sent ++ (x ∷ xs) ∷ []; pending = [] }
]

-- Runs of the client: each action has returned.
pub data Runs : Session → List Action → Session → Type 0 where
  stop : {s : Session} → Runs s [] s
  act :
      {s t u : Session} {rest : List Action} (a : Action)
      → perform a s ≡ (ok tt, t)
      → Runs t rest u
      → Runs s (a ∷ rest) u

unfoldable pub replay : List Action → Log → Log
unfolding log_step
replay [] l = l
replay (a ∷ rest) l = replay rest (log_step a l)

-- A session that stands for a log, seen from the session `s` where it began.
pub record Shows (s : Session) (l : Log) (t : Session) : Type 0 where
  pub left : Option (List String)
  pub is : t ≡ after s l.sent left s.net.draws
  pub waits : listed left ≡ l.pending

sends-last :
    (c : Client) (qs : List (List String)) (q : List String)
    → sends c (qs ++ q ∷ []) ≡ sends c qs ++ flush_events (record c { cmds = some q })
sends-last c qs q =
    let f : List String → List Event = λ k. flush_events (record c { cmds = some k }) in
    flat_map-append f qs (q ∷ []) ∙ ap (λ k. sends c qs ++ k) (append-nil (f q))

pub listed_queue : (o : Option (List String)) → listed o ≡ (elim o [ none ↦ [] | some l ↦ l ])
listed_queue none = refl
listed_queue (some l) = refl

module _ (s : Session) (reliable : Reliable s.net.env) (placed : Placed s.client)
    (batch : s.client.batch_mode ≡ true) where
  -- An action on a session that shows a log: it returns, and shows the next log.
  pub record Acts (a : Action) (l : Log) (t : Session) : Type 0 where
    pub final : Session
    pub returns : perform a t ≡ (ok tt, final)
    pub shows : Shows s (log_step a l) final

  Shows-first : Shows s (record { sent = []; pending = queue s.client }) s
  Shows-first = record {
    left = s.client.cmds;
    is = rw (append-nil s.net.trace) refl;
    waits = listed_queue s.client.cmds;
  }

  issue-Acts :
      (cmd : String) (opts args : List String) (l : Log) (left : Option (List String))
      → listed left ≡ l.pending
      → Acts (issue cmd opts args) l (after s l.sent left s.net.draws)
  unfolding perform log_step
  issue-Acts cmd opts args l left waits =
      let t = after s l.sent left s.net.draws in
      let text = batch_text cmd opts args in
      record {
        final = queued t (text ∷ []);
        returns = rw (run-batched cmd opts args true t batch) refl;
        shows = record {
          left = some (queue t.client ++ text ∷ []);
          is = refl;
          waits = ap (λ q. q ++ text ∷ []) (sym (listed_queue left) ∙ waits);
        };
      }

  deliver-Acts :
      (l : Log) (left : Option (List String))
      → listed left ≡ l.pending
      → Acts deliver l (after s l.sent left s.net.draws)
  unfolding perform log_step
  deliver-Acts l none waits = record {
    final = after s l.sent none s.net.draws;
    returns = flush-nil (after s l.sent none s.net.draws) refl;
    shows = rw (← waits) (record { left = none; is = refl; waits = refl });
  }
  deliver-Acts l (some []) waits = record {
    final = after s l.sent (some []) s.net.draws;
    returns = flush-nil (after s l.sent (some []) s.net.draws) refl;
    shows = rw (← waits) (record { left = some []; is = refl; waits = refl });
  }
  deliver-Acts l (some (x ∷ xs)) waits =
      let t = after s l.sent (some (x ∷ xs)) s.net.draws in
      record {
        final = flushed t;
        returns = flush-waiting t placed (λ e. cc) reliable;
        shows = rw (← waits) (record {
          left = none;
          is =
              rw
                (
                  sends-last s.client l.sent (x ∷ xs),
                  ← append_assoc s.net.trace (sends s.client l.sent)
                      (flush_events (record (s.client) { cmds = some (x ∷ xs) })),
                )
                refl;
          waits = refl;
        });
      }

  Acts-any : (a : Action) (l : Log) (t : Session) → Shows s l t → Acts a l t
  Acts-any (issue cmd opts args) l t h = rw h.is (issue-Acts cmd opts args l h.left h.waits)
  Acts-any deliver l t h = rw h.is (deliver-Acts l h.left h.waits)

  -- What the client comes to after these actions: they return, the session that they end in is the only
  -- one, and it shows the log that the abstract machine ends in.
  pub record Implements (acts : List Action) (l : Log) (t : Session) : Type 0 where
    pub final : Session
    pub runs : Runs t acts final
    pub shows : Shows s (replay acts l) final
    pub only : (u : Session) → Runs t acts u → u ≡ final

  only_stop : (t u : Session) → Runs t [] u → u ≡ t
  only_stop t u stop = refl

  only_act :
      (a : Action) (rest : List Action) (t v u : Session)
      → perform a t ≡ (ok tt, v)
      → ((w : Session) → Runs v rest w → w ≡ u)
      → (w : Session) → Runs t (a ∷ rest) w
      → w ≡ u
  only_act a rest t v u h ends w (act {t = x} _ h' r) =
      ends w (subst (λ y. Runs y rest w) (same x h') r)
    where
      same : (x : Session) → perform a t ≡ (ok tt, x) → x ≡ v
      same x e = ap (λ p. p.1) (sym e ∙ h)

  Implements-any : (acts : List Action) (l : Log) (t : Session) → Shows s l t → Implements acts l t
  unfolding replay
  Implements-any [] l t h = record { final = t; runs = stop; shows = h; only = only_stop t }
  Implements-any (a ∷ rest) l t h =
      let first = Acts-any a l t h in
      let more = Implements-any rest (log_step a l) first.final first.shows in
      record {
        final = more.final;
        runs = act a first.returns more.runs;
        shows = more.shows;
        only = only_act a rest t first.final more.final first.returns more.only;
      }

  -- Where no command fails, the client has a sandbox and an install method that ovn-nbctl can be
  -- called by, and batch mode is on, any sequence of commands and flushes returns, in one session
  -- only, and this session shows the log that the abstract machine reaches by the same sequence:
  -- its trace has, for each delivery of waiting commands, one script that calls ovn-nbctl once
  -- with all of them, and its queue is what still waits.
  pub client_log :
      (acts : List Action) → Implements acts (record { sent = []; pending = queue s.client }) s
  client_log acts =
      Implements-any acts (record { sent = []; pending = queue s.client }) s Shows-first
