-- ===== src/Client/Nbctl/Log/Delivered.antt =====
-- OvnNbctl in batch mode: over any sequence of commands and flushes no command is lost or repeated.
use ovn_scale_test.Prelude.{
  true, List, [], ◌∷◌, ◌++◌, String, ◌≡◌, ◌≢◌, refl, sym, ap, ◌∙◌, append_assoc, append-nil,
  flatten, flatten-append, All, All-append,
}
use ovn_scale_test.Env.{Reliable}
use ovn_scale_test.Client.{Session, queue}
use ovn_scale_test.Client.Nbctl.Queue.{Placed, batch_text}
use ovn_scale_test.Client.Nbctl.Log.{
  Action, issue, deliver, Log, log_step, replay, Runs, client_log, listed_queue,
}
use ovn_scale_test.Ovnclients.Batches.Laws.{sends}

-- The texts of the commands that are issued.
abbrev pub issued : List Action → List String
issued [] = []
issued (issue cmd opts args ∷ rest) = batch_text cmd opts args ∷ issued rest
issued (deliver ∷ rest) = issued rest

-- All commands of a log, in order.
abbrev commands : Log → List String
commands l = flatten l.sent ++ l.pending

deliver-commands : (l : Log) → commands (log_step deliver l) ≡ commands l
unfolding log_step
deliver-commands l = go l.pending refl
  where
    go : (q : List String) → l.pending ≡ q → commands (log_step deliver l) ≡ commands l
    go [] h = rw h refl
    go (x ∷ xs) h = rw h (
        rw
          (
            append-nil (flatten (l.sent ++ (x ∷ xs) ∷ [])),
            flatten-append l.sent ((x ∷ xs) ∷ []),
            append-nil xs,
          )
          refl)

replay-commands :
    (acts : List Action) (l : Log) → commands (replay acts l) ≡ commands l ++ issued acts
unfolding replay log_step
replay-commands [] l = sym (append-nil (commands l))
replay-commands (deliver ∷ rest) l =
    replay-commands rest (log_step deliver l) ∙ ap (λ c. c ++ issued rest) (deliver-commands l)
replay-commands (issue cmd opts args ∷ rest) l =
    let text = batch_text cmd opts args in
    replay-commands rest (log_step (issue cmd opts args) l)
    ∙ rw (← append_assoc (flatten l.sent) l.pending (text ∷ []))
        (append_assoc (commands l) (text ∷ []) (issued rest))

-- No script of a log is empty.
abbrev Full : Log → Type 0
Full l = All (λ q. q ≢ []) l.sent

deliver-Full : (l : Log) → Full l → Full (log_step deliver l)
unfolding log_step
deliver-Full l full = go l.pending refl
  where
    go : (q : List String) → l.pending ≡ q → Full (log_step deliver l)
    go [] h = rw h full
    go (x ∷ xs) h = rw h (All-append (λ q. q ≢ []) l.sent ((x ∷ xs) ∷ []) full ((λ e. cc), tt))

replay-Full : (acts : List Action) (l : Log) → Full l → Full (replay acts l)
unfolding replay log_step
replay-Full [] l full = full
replay-Full (deliver ∷ rest) l full = replay-Full rest (log_step deliver l) (deliver-Full l full)
replay-Full (issue cmd opts args ∷ rest) l full =
    replay-Full rest (log_step (issue cmd opts args) l) full

last_deliver : (acts : List Action) (l : Log) → (replay (acts ++ deliver ∷ []) l).pending ≡ []
unfolding replay log_step
last_deliver [] l = go l.pending refl
  where
    go : (q : List String) → l.pending ≡ q → (log_step deliver l).pending ≡ []
    go [] h = rw h refl
    go (x ∷ xs) h = rw h refl
last_deliver (a ∷ rest) l = last_deliver rest (log_step a l)

-- What a sequence of actions and a last flush come to: the scripts that were sent hold what was queued
-- and what was issued, once each and in order; none is empty; the queue is empty.
pub record AllOut (s : Session) (acts : List Action) : Type 0 where
  pub final : Session
  pub runs : Runs s (acts ++ deliver ∷ []) final
  pub scripts : List (List String)
  pub trace : final.net.trace ≡ s.net.trace ++ sends s.client scripts
  pub order : flatten scripts ≡ queue s.client ++ issued acts
  pub full : All (λ q. q ≢ []) scripts
  pub emptied : queue final.client ≡ []

issued-deliver : (acts : List Action) → issued (acts ++ deliver ∷ []) ≡ issued acts
issued-deliver [] = refl
issued-deliver (issue cmd opts args ∷ rest) =
    ap (λ l. batch_text cmd opts args ∷ l) (issued-deliver rest)
issued-deliver (deliver ∷ rest) = issued-deliver rest

-- Where no command fails, the client has a sandbox and an install method that ovn-nbctl can be
-- called by, and batch mode is on, any sequence of commands and flushes with a flush at its end
-- returns; the scripts that have been sent each call ovn-nbctl once with a part of the commands
-- that is not empty, and the parts are, one after the other, what was queued before and every
-- command of the sequence, once each and in order; the queue is empty.
pub all_delivered :
    (s : Session)
    → Reliable s.net.env
    → Placed s.client
    → s.client.batch_mode ≡ true
    → (acts : List Action) → AllOut s acts
all_delivered s reliable placed batch acts =
    let first : Log = record { sent = []; pending = queue s.client } in
    let i = client_log s reliable placed batch (acts ++ deliver ∷ []) in
    let end = replay (acts ++ deliver ∷ []) first in
    record {
      final = i.final;
      runs = i.runs;
      scripts = end.sent;
      trace = ap (λ (t : Session). t.net.trace) i.shows.is;
      order =
          sym (append-nil (flatten end.sent))
          ∙ ap (λ p. flatten end.sent ++ p) (sym (last_deliver acts first))
          ∙ replay-commands (acts ++ deliver ∷ []) first
          ∙ ap (λ l. queue s.client ++ l) (issued-deliver acts);
      full = replay-Full (acts ++ deliver ∷ []) first tt;
      emptied =
          ap (λ (t : Session). queue t.client) i.shows.is
          ∙ sym (listed_queue i.shows.left)
          ∙ i.shows.waits
          ∙ last_deliver acts first;
    }
