-- ===== src/Client/Nbctl/Queue.antt =====
-- OvnNbctl in batch mode: what `run` queues, and what `flush` does with the queue.
use ovn_scale_test.Prelude.{
  Bool, true, false, List, [], ◌∷◌, ◌++◌, map, ap, ◌∙◌, none, some, String, ◌≡◌, ◌≢◌, append_assoc,
  append-nil, arith, if◌then◌else◌,
}
use ovn_scale_test.Python.Text.{join}
use ovn_scale_test.Python.Exec.{Exec, ok, err, ssh_error, for_each}
use ovn_scale_test.Env.{Event, ran, logged, Reliable, happen}
use ovn_scale_test.Client.{Client, Session, queue, set_cmds, append_cmd, log_cmds, ssh_run}
use ovn_scale_test.Client.Nbctl.{run, flush}
use ovn_scale_test.Client.Nbctl.Script.{flush_lines-script}
pub use ovn_scale_test.Client.Nbctl.Script.{
  Callable, Placed, root_prefix, container, daemon, place, caller, script, call_events, located,
  called,
}

-- The text of one command in a batch.
abbrev pub batch_text : String → List String → List String → String
batch_text cmd opts args = join " " (" -- " ∷ opts ++ cmd ∷ args)

-- A session with more commands in the queue.
abbrev pub queued : Session → List String → Session
queued s xs = record s { client = record (s.client) { cmds = some (queue s.client ++ xs) } }

-- In batch mode `run` queues one text and sends nothing.
pub run-batched :
    (cmd : String) (opts args : List String) (b : Bool) (s : Session)
    → s.client.batch_mode ≡ true
    → run cmd opts args b s ≡ (ok "", queued s (batch_text cmd opts args ∷ []))
unfolding run set_cmds append_cmd
run-batched cmd opts args b s h = rw h

pub queued-queued :
    (s : Session) (xs ys : List String) → queued (queued s xs) ys ≡ queued s (xs ++ ys)
queued-queued s xs ys = rw (append_assoc (queue s.client) xs ys)

-- A loop whose body queues one text for each item.
pub for_each-batched :
    {A : Type 0} (f : A → String) (body : A → Exec Session (Unit {0}))
    → ((x : A) (s : Session) → s.client.batch_mode ≡ true → body x s ≡ (ok tt, queued s (f x ∷ [])))
    → (xs : List A) (ys : List String) (s : Session) → s.client.batch_mode ≡ true
    → for_each xs body (queued s ys) ≡ (ok tt, queued s (ys ++ map f xs))
unfolding for_each
for_each-batched f body h [] ys s b = rw (append-nil ys)
for_each-batched f body h (x ∷ xs) ys s b =
    rw (h x (queued s ys) b, queued-queued s ys (f x ∷ []))
      (for_each-batched f body h xs (ys ++ f x ∷ []) s b
        ∙ ap (λ l. (ok tt, queued s l)) (append_assoc ys (f x ∷ []) (map f xs)))

-- What a flush adds to the trace.
abbrev pub flush_events : Client → List Event
flush_events c = call_events c (queue c)

-- A session whose queue has gone out.
abbrev pub flushed : Session → Session
flushed s = record s {
  client = record (s.client) { cmds = none };
  net = record (s.net) { trace = s.net.trace ++ flush_events s.client };
}

-- Where no command fails, and the client has a sandbox and an install method that ovn-nbctl can
-- be called by, `flush` sends everything that is queued by one call of ovn-nbctl, after the note
-- of it where commands are logged, and forgets the queue; with nothing queued it does nothing;
-- nothing else changes.
pub flush-sends :
    (s : Session)
    → Placed s.client
    → Reliable s.net.env
    → flush s ≡ (ok tt, elim (queue s.client) [ [] ↦ s | _ ∷ _ ↦ flushed s ])
unfolding flush set_cmds log_cmds ssh_run happen
flush-sends s placed r =
    let long = script "\n" s.client (queue s.client) in
    let note = logged (script " " s.client (queue s.client)) in
    ground (
      arith,
      flush_lines-script " " s.client placed,
      flush_lines-script "\n" s.client placed,
      r s.net.trace s.client.ssh long,
      r (s.net.trace ++ note ∷ []) s.client.ssh long,
      append_assoc s.net.trace (note ∷ []) (ran s.client.ssh long ∷ []),
    )

pub flush-waiting :
    (s : Session)
    → Placed s.client
    → queue s.client ≢ []
    → Reliable s.net.env
    → flush s ≡ (ok tt, flushed s)
flush-waiting s placed h r = flush-sends s placed r ∙ ground arith

-- With nothing queued a flush does nothing, wherever the client is.
pub flush-nil : (s : Session) → queue s.client ≡ [] → flush s ≡ (ok tt, s)
unfolding flush
flush-nil s h = ground arith

-- A session where a flush has been tried, and refused.
abbrev pub tried : Session → Session
tried s = record s { net = record (s.net) { trace = s.net.trace ++ flush_events s.client } }

-- What has happened when the script of a flush reaches the host.
abbrev pub noted : Session → List Event
noted s =
    if s.client.log_cmd
    then s.net.trace ++ logged (script " " s.client (queue s.client)) ∷ []
    else s.net.trace

-- Whether the host refuses the script of the next flush.
abbrev pub refuses : Session → Bool
refuses s = (s.net.env.answer (noted s) s.client.ssh (script "\n" s.client (queue s.client))).failed

flush-refused :
    (s : Session)
    → Placed s.client
    → queue s.client ≢ []
    → refuses s ≡ true
    → flush s ≡ (err ssh_error, tried s)
unfolding flush set_cmds log_cmds ssh_run happen
flush-refused s placed h f =
    let long = ran s.client.ssh (script "\n" s.client (queue s.client)) in
    let note = logged (script " " s.client (queue s.client)) in
    ground (
      arith,
      flush_lines-script " " s.client placed,
      flush_lines-script "\n" s.client placed,
      append_assoc s.net.trace (note ∷ []) (long ∷ []),
    )

flush-accepted :
    (s : Session)
    → Placed s.client
    → queue s.client ≢ []
    → refuses s ≡ false
    → flush s ≡ (ok tt, flushed s)
unfolding flush set_cmds log_cmds ssh_run happen
flush-accepted s placed h f =
    let long = ran s.client.ssh (script "\n" s.client (queue s.client)) in
    let note = logged (script " " s.client (queue s.client)) in
    ground (
      arith,
      flush_lines-script " " s.client placed,
      flush_lines-script "\n" s.client placed,
      append_assoc s.net.trace (note ∷ []) (long ∷ []),
    )

-- Where the client has a sandbox and an install method that ovn-nbctl can be called by, a flush
-- of something queued that the host refuses raises an SSHError, and the client stays as it was;
-- if the host accepts the next flush, that one sends the same script again, and forgets the
-- queue.
pub flush-fails-flush :
    (s : Session)
    → Placed s.client
    → queue s.client ≢ []
    → refuses s ≡ true
    → refuses (tried s) ≡ false
    → (flush s ≡ (err ssh_error, tried s)) × (flush (tried s) ≡ (ok tt, flushed (tried s)))
flush-fails-flush s placed h no_answer answer =
    (flush-refused s placed h no_answer, flush-accepted (tried s) placed h answer)
