-- ===== src/Ovnclients/Batches/Laws.antt =====
-- The batched loop: what goes out, in how many scripts, and in what state it leaves the client.
use ovn_scale_test.Prelude.{
  ℕ, zero, suc, ◌+◌, ◌-◌, ◌*◌, ◌/◌, ◌%◌, ◌≤◌, ◌<◌, true, List, [], ◌∷◌, ◌++◌, Option, none, some,
  String, ◌≡◌, ◌≢◌, refl, sym, ap, append_assoc, append-nil, ◌∙◌, arith, length, flatten, flat_map,
  All,
}
use ovn_scale_test.Python.Exec.{Exec, ok}
use ovn_scale_test.Env.{Env, Event, Reliable}
use ovn_scale_test.Client.{Client, Session, queue}
use ovn_scale_test.Client.Nbctl.Queue.{Placed, flush_events, flushed, flush-waiting}
use ovn_scale_test.Ovnclients.Batches.Rounds.{
  not_due, draws_regroup, regroup, count_nil, mod_flush, mod_unflush, count_zero, count_flush,
}
use ovn_scale_test.Ovnclients.Batches.{each_batched, flush_at}

-- The commands that a value of the attribute `cmds` holds.
abbrev pub listed : Option (List String) → List String
listed none = []
listed (some l) = l

-- The events of flushes with these queues, one after the other.
abbrev pub sends : Client → List (List String) → List Event
sends c = flat_map (λ q. flush_events (record c { cmds = some q }))

-- A session after such flushes, with what is still queued, and after so many draws.
abbrev pub after : Session → List (List String) → Option (List String) → ℕ → Session
after s qs left draws = record s {
  client = record (s.client) { cmds = left };
  net = record (s.net) { trace = s.net.trace ++ sends s.client qs; draws = draws };
}

-- A session with more in the queue, after `used` draws.
abbrev pub grown : Session → List String → ℕ → Session
grown s xs used = record s {
  client = record (s.client) { cmds = some (queue s.client ++ xs) };
  net = record (s.net) { draws = s.net.draws + used };
}

-- A body that, for items with `P`, only queues: it returns a value, queues texts, and draws.
pub record Batched {A B : Type 0} (env : Env) (P : A → Type 0) (body : A → Exec Session B)
    (value : A → ℕ → B) (texts : A → ℕ → List String) (used : ℕ) : Type 0 where
  pub at :
      (x : A) (s : Session)
      → P x
      → s.client.batch_mode ≡ true
      → s.net.env ≡ env
      → body x s ≡ (ok (value x s.net.draws), grown s (texts x s.net.draws) used)
  pub some_text : (x : A) (d : ℕ) → texts x d ≢ []

module _ {A B : Type 0} (value : A → ℕ → B) (texts : A → ℕ → List String) (used : ℕ) where
  abbrev pub all_values : List A → ℕ → List B
  all_values [] d = []
  all_values (x ∷ xs) d = value x d ∷ all_values xs (d + used)

  abbrev pub all_texts : List A → ℕ → List String
  all_texts [] d = []
  all_texts (x ∷ xs) d = texts x d ++ all_texts xs (d + used)

append-ne-nil : (xs ys : List String) → ys ≢ [] → xs ++ ys ≢ []
append-ne-nil [] ys h = h
append-ne-nil (x ∷ xs) ys h = λ e. cc

module _ {A B : Type 0} (env : Env) (P : A → Type 0) (body : A → Exec Session B) (value : A → ℕ → B)
    (texts : A → ℕ → List String) (used : ℕ) (batched : Batched env P body value texts used)
    (reliable : Reliable env) (batch : ℕ) where
  -- What the loop does from a session with `fc` items to go until the next flush.
  pub record Sent (fc : ℕ) (xs : List A) (s : Session) : Type 0 where
    pub scripts : List (List String)
    pub left : Option (List String)
    pub runs : each_batched batch fc xs body s ≡ (
      ok (all_values value texts used xs s.net.draws),
      after s scripts left (s.net.draws + used * length xs),
    )
    pub order :
        flatten scripts ++ listed left ≡ queue s.client ++ all_texts value texts used xs s.net.draws
    pub count : length scripts ≡ (length xs + batch - fc) / batch
    pub full : All (λ q. q ≢ []) scripts
    -- Nothing is left exactly when the last flush came with the last item.
    pub left_nil :
        (queue s.client ≡ [] → fc ≡ batch) → listed left ≡ [] → (length xs + batch - fc) % batch ≡ 0
    pub nil_left :
        (fc ≡ batch → queue s.client ≡ []) → (length xs + batch - fc) % batch ≡ 0 → listed left ≡ []

  Sent-nil : (fc : ℕ) (s : Session) → 0 < fc → fc ≤ batch → Sent fc [] s
  unfolding each_batched
  Sent-nil fc s pos le = record {
    scripts = [];
    left = s.client.cmds;
    runs = ground (arith, append-nil s.net.trace);
    order = ground (arith, append-nil (listed s.client.cmds));
    count = count_zero batch fc pos le;
    full = tt;
    left_nil = λ h l. rw (h l) (grind arith);
    nil_left = λ h l. h (count_nil batch fc pos le l);
  }

  Sent-keep :
      (fc : ℕ) (x : A) (xs : List A) (s : Session)
      → 1 < fc
      → fc ≤ batch
      → P x
      → s.client.batch_mode ≡ true
      → s.net.env ≡ env
      → Sent (fc - 1) xs (grown s (texts x s.net.draws) used)
      → Sent fc (x ∷ xs) s
  unfolding each_batched flush_at
  Sent-keep fc x xs s pos le px b e ih =
      let nonempty : queue s.client ++ texts x s.net.draws ≢ [] =
        append-ne-nil (queue s.client) (texts x s.net.draws) (batched.some_text x s.net.draws) in
      record {
        scripts = ih.scripts;
        left = ih.left;
        runs =
            rw (batched.at x s px b e, not_due fc pos, ih.runs)
              (rw (draws_regroup s.net.draws used (length xs)));
        order =
            ih.order
            ∙ append_assoc (queue s.client) (texts x s.net.draws)
                (all_texts value texts used xs (s.net.draws + used));
        count = rw ih.count (ap (λ (k : ℕ). k / batch) (sym (regroup batch fc (length xs) pos)));
        full = ih.full;
        left_nil =
            λ h l. rw (regroup batch fc (length xs) pos) (ih.left_nil (λ q. absurd (nonempty q)) l);
        nil_left = λ h l.
            ih.nil_left (λ q. absurd (omega arith)) (rw (← regroup batch fc (length xs) pos) l);
      }

  Sent-flush :
      (x : A) (xs : List A) (s : Session)
      → 1 ≤ batch
      → P x
      → s.client.batch_mode ≡ true
      → s.net.env ≡ env
      → Placed s.client
      → Sent batch xs (flushed (grown s (texts x s.net.draws) used))
      → Sent 1 (x ∷ xs) s
  unfolding each_batched flush_at
  Sent-flush x xs s pos px b e placed ih =
      let g = grown s (texts x s.net.draws) used in
      let sendable : queue g.client ≢ [] =
        append-ne-nil (queue s.client) (texts x s.net.draws) (batched.some_text x s.net.draws) in
      record {
        scripts = (queue s.client ++ texts x s.net.draws) ∷ ih.scripts;
        left = ih.left;
        runs =
            rw
              (
                batched.at x s px b e,
                flush-waiting g placed sendable (rw (← e) at reliable),
                ih.runs,
              )
              (rw (
                draws_regroup s.net.draws used (length xs),
                append_assoc s.net.trace (flush_events g.client) (sends s.client ih.scripts),
              ));
        order =
            ap (λ l. l)
              (append_assoc (queue s.client ++ texts x s.net.draws) (flatten ih.scripts)
                (listed ih.left))
            ∙ ap (λ l. queue s.client ++ texts x s.net.draws ++ l) ih.order
            ∙ append_assoc (queue s.client) (texts x s.net.draws)
                (all_texts value texts used xs (s.net.draws + used));
        count = rw ih.count (count_flush batch (length xs) pos);
        full = (sendable, ih.full);
        left_nil = λ h l. mod_flush batch (length xs) pos (ih.left_nil (λ q. refl) l);
        nil_left = λ h l. ih.nil_left (λ q. refl) (mod_unflush batch (length xs) pos l);
      }

  pub each-batched-Sent :
      (fc : ℕ) (xs : List A) (s : Session)
      → 0 < fc
      → fc ≤ batch
      → All P xs
      → s.client.batch_mode ≡ true
      → s.net.env ≡ env
      → Placed s.client
      → Sent fc xs s
  each-batched-Sent fc [] s pos le ps b e placed = Sent-nil fc s pos le
  each-batched-Sent zero (x ∷ xs) s pos le ps b e placed = elim pos [ ]
  each-batched-Sent (suc zero) (x ∷ xs) s pos le ps b e placed =
      Sent-flush x xs s le ps.0 b e placed (
        each-batched-Sent batch xs (flushed (grown s (texts x s.net.draws) used)) (omega arith)
          (omega arith) ps.1 b e placed)
  each-batched-Sent (suc (suc fc)) (x ∷ xs) s pos le ps b e placed =
      Sent-keep (suc (suc fc)) x xs s (omega arith) le ps.0 b e (
        each-batched-Sent (suc (suc fc) - 1) xs (grown s (texts x s.net.draws) used) (omega arith)
          (omega arith) ps.1 b e placed)
