-- ===== src/Ovnclients/Batches/Delivery.antt =====
-- A batched method as a whole: the loop, the last flush, and batch mode off.
use ovn_scale_test.Prelude.{
  ℕ, ◌+◌, ◌-◌, ◌*◌, ◌/◌, ◌<◌, true, false, List, [], ◌∷◌, ◌++◌, Option, none, some, String, ◌≡◌,
  ◌≢◌, refl, sym, ap, append_assoc, append-nil, ◌∙◌, arith, length, flatten, flatten-append,
  flat_map, flat_map-append, length-append, All, All-append,
}
use ovn_scale_test.Python.Exec.{Exec, ok}
use ovn_scale_test.Env.{Env, Event, Reliable}
use ovn_scale_test.Client.{Client, Session, queue, enable_batch_mode}
use ovn_scale_test.Client.Nbctl.Queue.{Placed, flush_events, flush-waiting, flush-nil}
use ovn_scale_test.Ovnclients.Batches.Rounds.{ceil_exact, ceil_more}
use ovn_scale_test.Ovnclients.Batches.{in_batches, each_batched}
use ovn_scale_test.Ovnclients.Batches.Laws.{
  listed, sends, after, Batched, all_values, all_texts, Sent, each-batched-Sent,
}

-- What a batched method does from an empty queue, with the client `c` that it sets up: it returns
-- `result`; its scripts hold the commands `texts`, once each and in order, and none is empty; there
-- are `rounds` of them; at the end the queue is empty and batch mode is off.
pub record Delivers {R : Type 0} (method : Exec Session R) (s : Session) (c : Client) (result : R)
    (texts : List String) (rounds : ℕ) : Type 0 where
  pub scripts : List (List String)
  pub final : Session
  pub runs : method s ≡ (ok result, final)
  pub trace : final.net.trace ≡ s.net.trace ++ sends c scripts
  pub order : flatten scripts ≡ texts
  pub count : length scripts ≡ rounds
  pub full : All (λ q. q ≢ []) scripts
  pub emptied : queue final.client ≡ []
  pub batch_off : final.client.batch_mode ≡ false

-- A method that prepares the client and goes on as another one.
pub Delivers-step :
    {R : Type 0} {method rest : Exec Session R} {s : Session} {c c' : Client} {result : R}
    {texts : List String} {rounds : ℕ}
    → method s ≡ rest (record s { client = c' })
    → Delivers rest (record s { client = c' }) c result texts rounds
    → Delivers method s c result texts rounds
Delivers-step e d = record {
  scripts = d.scripts;
  final = d.final;
  runs = e ∙ d.runs;
  trace = d.trace;
  order = d.order;
  count = d.count;
  full = d.full;
  emptied = d.emptied;
  batch_off = d.batch_off;
}

module _ {A B : Type 0} (env : Env) (P : A → Type 0) (body : A → Exec Session B) (value : A → ℕ → B)
    (texts : A → ℕ → List String) (used : ℕ) (batched : Batched env P body value texts used)
    (reliable : Reliable env) (batch : ℕ) where
  abbrev pub Delivered : List A → Session → Type 0
  Delivered xs s =
      Delivers (in_batches batch xs body) s s.client (all_values value texts used xs s.net.draws)
        (all_texts value texts used xs s.net.draws) ((length xs + batch - 1) / batch)

  module _ (xs : List A) (s : Session)
      (sent : Sent env P body value texts used batched reliable batch batch xs s) (pos : 0 < batch)
      (e : s.net.env ≡ env) (b : s.client.batch_mode ≡ true) (placed : Placed s.client)
      (q : queue s.client ≡ []) where
    order_exact :
        listed sent.left ≡ [] → flatten sent.scripts ≡ all_texts value texts used xs s.net.draws
    order_exact h =
        sym (append-nil (flatten sent.scripts))
        ∙ ap (λ l. flatten sent.scripts ++ l) (sym h)
        ∙ sent.order
        ∙ ap (λ l. l ++ all_texts value texts used xs s.net.draws) q

    order_rest :
        {l : List String}
        → sent.left ≡ some l
        → flatten sent.scripts ++ l ≡ all_texts value texts used xs s.net.draws
    order_rest h =
        ap (λ o. flatten sent.scripts ++ listed o) (sym h)
        ∙ sent.order
        ∙ ap (λ l. l ++ all_texts value texts used xs s.net.draws) q

    runs_rest :
        {o : Option (List String)}
        → sent.left ≡ o
        → each_batched batch batch xs body s ≡ (
          ok (all_values value texts used xs s.net.draws),
          after s sent.scripts o (s.net.draws + used * length xs),
        )
    runs_rest h = rw h at sent.runs

    sends_more :
        (l : List String)
        → sends s.client sent.scripts ++ flush_events (record (s.client) { cmds = some l })
          ≡ sends s.client (sent.scripts ++ l ∷ [])
    sends_more l =
        let f : List String → List Event =
          λ k. flush_events (record (s.client) { cmds = some k }) in
        sym (
          flat_map-append f sent.scripts (l ∷ [])
          ∙ ap (λ k. flat_map f sent.scripts ++ k) (append-nil (f l)))

    absurd_rest :
        {t : String} {ts : List String} → sent.left ≡ some (t ∷ ts) → listed sent.left ≡ [] → ⊥
    absurd_rest h k = cc (sym (ap listed h) ∙ k)

    -- Nothing was left: the flush after the loop does nothing.
    Delivered-exact : listed sent.left ≡ [] → Delivered xs s
    unfolding in_batches enable_batch_mode
    Delivered-exact h = record {
      scripts = sent.scripts;
      final = record {
        client = record (s.client) { cmds = sent.left; batch_mode = false };
        net = (after s sent.scripts sent.left (s.net.draws + used * length xs)).net;
      };
      runs = rw (
        sent.runs,
        flush-nil (after s sent.scripts sent.left (s.net.draws + used * length xs)) h,
      );
      trace = refl;
      order = order_exact h;
      count = rw sent.count (ceil_exact batch (length xs) pos (sent.left_nil (λ p. refl) h));
      full = sent.full;
      emptied = h;
      batch_off = refl;
    }

    -- Something was left, and the flush after the loop sends it.
    Delivered-rest : (t : String) (ts : List String) → sent.left ≡ some (t ∷ ts) → Delivered xs s
    unfolding in_batches enable_batch_mode
    Delivered-rest t ts h =
        let nonempty : t ∷ ts ≢ [] = λ p. cc in
        record {
          scripts = sent.scripts ++ (t ∷ ts) ∷ [];
          final = record {
            client = record (s.client) { cmds = none; batch_mode = false };
            net =
                (after s (sent.scripts ++ (t ∷ ts) ∷ []) none (s.net.draws + used * length xs)).net;
          };
          runs = rw (
            runs_rest h,
            flush-waiting (after s sent.scripts (some (t ∷ ts)) (s.net.draws + used * length xs))
                placed nonempty (rw (← e) at reliable),
            append_assoc s.net.trace (sends s.client sent.scripts)
                (flush_events (record (s.client) { cmds = some (t ∷ ts) })),
            sends_more (t ∷ ts),
          );
          trace = refl;
          order =
              flatten-append sent.scripts ((t ∷ ts) ∷ [])
              ∙ ap (λ l. flatten sent.scripts ++ l) (append-nil (t ∷ ts))
              ∙ order_rest h;
          count =
              length-append sent.scripts ((t ∷ ts) ∷ [])
              ∙ rw sent.count
                  (ceil_more batch (length xs) pos (λ m. absurd_rest h (sent.nil_left (λ p. q) m)));
          full = All-append (λ l. l ≢ []) sent.scripts ((t ∷ ts) ∷ []) sent.full (nonempty, tt);
          emptied = refl;
          batch_off = refl;
        }

    pub Delivered-Sent : Delivered xs s
    Delivered-Sent = go sent.left refl
      where
        go : (l : Option (List String)) → sent.left ≡ l → Delivered xs s
        go none h = Delivered-exact (rw h)
        go (some []) h = Delivered-exact (rw h)
        go (some (t ∷ ts)) h = Delivered-rest t ts h

  pub in_batches-Delivers :
      (xs : List A) (s : Session)
      → 0 < batch
      → All P xs
      → s.net.env ≡ env
      → s.client.batch_mode ≡ true
      → Placed s.client
      → queue s.client ≡ []
      → Delivered xs s
  in_batches-Delivers xs s pos ps e b placed q =
      Delivered-Sent xs s
        (each-batched-Sent env P body value texts used batched reliable batch batch xs s pos
          (omega arith) ps b e placed)
        pos e b placed q
