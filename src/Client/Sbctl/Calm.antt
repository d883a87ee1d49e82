-- ===== src/Client/Sbctl/Calm.antt =====
-- OvnSbctl on a host that answers: a method returns, and changes neither the mode nor the clock.
use Prim.Native.String.{◌++◌ as ◌append◌}
use ovn_scale_test.Prelude.{
  ◌==◌, length, ℕ, ◌+◌, Bool, Option, true, false, List, [], ◌∷◌, ◌++◌, none, some, String, ◌≡◌,
  refl, ◌∙◌, arith, if◌then◌else◌,
}
use ovn_scale_test.Python.Text.{given, join}
use ovn_scale_test.Python.Split.{chars, splitlines}
use ovn_scale_test.Python.Exec.{Exec, Result, ok, for_each, pure, ◌>>=◌, ◌>>◌}
use ovn_scale_test.Env.{Env, Event, ran, logged, copied, slept, Reliable, happen}
use ovn_scale_test.Client.{
  Session, queue, append_cmd, set_cmds, log_cmds, ssh_run, enable_batch_mode,
}
use ovn_scale_test.Client.Nbctl.{enter_sandbox, cmd_prefix}
use ovn_scale_test.Client.Sbctl.{
  sbctl_cmd, run, add_lines, send_lines, flush, leave_batch, chassis_bound,
}

-- The milliseconds that the pauses of a trace add up to.
abbrev pub paused : List Event → ℕ
paused [] = 0
paused (slept ms ∷ t) = ms + paused t
paused (ran host script ∷ t) = paused t
paused (logged text ∷ t) = paused t
paused (copied a b c ∷ t) = paused t

pub paused-append : (t u : List Event) → paused (t ++ u) ≡ paused t + paused u
paused-append [] u = omega arith
paused-append (slept ms ∷ t) u = omega (arith, paused-append t u)
paused-append (ran host script ∷ t) u = paused-append t u
paused-append (logged text ∷ t) u = paused-append t u
paused-append (copied a b c ∷ t) u = paused-append t u

-- What an outcome `p` keeps of a session out of batch mode: it is a value, and the session after it
-- has the same surroundings, is out of batch mode, and has paused no more.
pub record Calm {A : Type 0} (s : Session) (p : Result A × Session) : Type 0 where
  pub value : A
  pub final : Session
  pub is : p ≡ (ok value, final)
  pub env : final.net.env ≡ s.net.env
  pub batch : final.client.batch_mode ≡ false
  pub clock : paused final.net.trace ≡ paused s.net.trace

-- A session that a calm method can start from.
abbrev pub Ready : Env → Session → Type 0
Ready env s = (s.net.env ≡ env) × (s.client.batch_mode ≡ false)

module _ (env : Env) (reliable : Reliable env) where
  Calm-then :
      {A B : Type 0} (m : Exec Session A) (f : A → Exec Session B) (s : Session)
      → Ready env s
      → Calm s (m s)
      → ((a : A) (t : Session) → Ready env t → Calm t (f a t))
      → Calm s ((m >>= f) s)
  Calm-then m f s ready c next =
      let d = next c.value c.final (c.env ∙ ready.0, c.batch) in
      record {
        value = d.value;
        final = d.final;
        is = rw c.is d.is;
        env = d.env ∙ c.env;
        batch = d.batch;
        clock = d.clock ∙ c.clock;
      }

  Calm-append : (x : String) (s : Session) → Ready env s → Calm s (append_cmd x s)
  unfolding append_cmd
  Calm-append x s ready = record {
    value = tt;
    final = (append_cmd x s).1;
    is = refl;
    env = refl;
    batch = ready.1;
    clock = refl;
  }

  Calm-for_each : (xs : List String) (s : Session) → Ready env s → Calm s (for_each xs append_cmd s)
  unfolding for_each
  Calm-for_each [] s ready = record {
    value = tt;
    final = s;
    is = refl;
    env = refl;
    batch = ready.1;
    clock = refl;
  }
  Calm-for_each (x ∷ xs) s ready =
      Calm-then (append_cmd x) (λ u. for_each xs append_cmd) s ready (Calm-append x s ready)
        (λ u t r. Calm-for_each xs t r)

  Calm-set_cmds : (q : Option (List String)) (s : Session) → Ready env s → Calm s (set_cmds q s)
  unfolding set_cmds
  Calm-set_cmds q s ready = record {
    value = tt;
    final = (set_cmds q s).1;
    is = refl;
    env = refl;
    batch = ready.1;
    clock = refl;
  }

  Calm-ssh_run :
      (b : Bool) (script : String) (s : Session) → Ready env s → Calm s (ssh_run b script s)
  unfolding ssh_run happen
  Calm-ssh_run b script s ready = record {
    value = (s.net.env.answer s.net.trace s.client.ssh script).out;
    final = (ssh_run b script s).1;
    is = ground (arith, answers);
    env = refl;
    batch = ready.1;
    clock = paused-append s.net.trace (ran s.client.ssh script ∷ []) ∙ omega arith;
  }
    where
      answers : (s.net.env.answer s.net.trace s.client.ssh script).failed ≡ false
      answers = rw ready.0 (reliable s.net.trace s.client.ssh script)

  Calm-log_cmds : (text : String) (s : Session) → Ready env s → Calm s (log_cmds text s)
  unfolding log_cmds happen
  Calm-log_cmds text s ready = go s.client.log_cmd refl
    where
      go : (b : Bool) → s.client.log_cmd ≡ b → Calm s (log_cmds text s)
      go false h = record {
        value = tt;
        final = s;
        is = rw h;
        env = refl;
        batch = ready.1;
        clock = refl;
      }
      go true h = record {
        value = tt;
        final = record s { net = happen (logged text) s.net };
        is = rw h;
        env = refl;
        batch = ready.1;
        clock = paused-append s.net.trace (logged text ∷ []) ∙ omega arith;
      }

  Calm-pure : {A : Type 0} (a : A) (s : Session) → Ready env s → Calm s (pure a s)
  Calm-pure a s ready = record {
    value = a;
    final = s;
    is = refl;
    env = refl;
    batch = ready.1;
    clock = refl;
  }

  Calm-when :
      (b : Bool) (m : Exec Session (Unit {0})) (s : Session)
      → Ready env s
      → Calm s (m s)
      → Calm s ((if b then m else pure tt) s)
  Calm-when true m s ready c = c
  Calm-when false m s ready c = Calm-pure tt s ready

  Calm-add_lines :
      (cmd : String) (opts args : List String) (s : Session)
      → Ready env s
      → Calm s (add_lines cmd opts args s)
  unfolding add_lines
  Calm-add_lines cmd opts args s ready =
      Calm-then (for_each (enter_sandbox s.client s.client.install_method) append_cmd)
        (λ u. append_cmd line) s ready
        (Calm-for_each (enter_sandbox s.client s.client.install_method) s ready)
        (λ u. Calm-append line)
    where
      line : String
      line =
          join " " (cmd_prefix s.client s.client.install_method ++ sbctl_cmd ∷ opts ++ cmd ∷ args)

  Calm-send_lines : (s : Session) → Ready env s → Calm s (send_lines s)
  unfolding send_lines
  Calm-send_lines s ready =
      Calm-then (log_cmds (join " " (queue s.client)))
        (λ u. ssh_run true (join "\n" (queue s.client)) >>= λ out. set_cmds none >> pure out) s
        ready (Calm-log_cmds (join " " (queue s.client)) s ready)
        (λ u t r.
          Calm-then (ssh_run true (join "\n" (queue s.client))) (λ out. set_cmds none >> pure out) t
            r (Calm-ssh_run true (join "\n" (queue s.client)) t r)
            (λ out v q.
              Calm-then (set_cmds none) (λ u. pure out) v q (Calm-set_cmds none v q)
                (λ u. Calm-pure out)))

  -- The branch for a session out of batch mode.
  Calm-off :
      {A : Type 0} (b : Bool) (m k : Exec Session A) (s : Session)
      → b ≡ false
      → Calm s (k s)
      → Calm s ((if b then m else k) s)
  Calm-off true m k s h c = cc
  Calm-off false m k s h c = c

  pub Calm-run :
      (cmd : String) (opts args : List String) (s : Session)
      → Ready env s
      → Calm s (run cmd opts args s)
  unfolding run
  Calm-run cmd opts args s ready =
      Calm-then (set_cmds (some (queue s.client)))
        (λ u. if s.client.batch_mode then queue_it else send_it) s ready
        (Calm-set_cmds (some (queue s.client)) s ready)
        (λ u t r. Calm-off s.client.batch_mode queue_it send_it t ready.1 (
          Calm-then (if given s.client.sandbox then add_lines cmd opts args else pure tt)
            (λ v. send_lines) t r
            (Calm-when (given s.client.sandbox) (add_lines cmd opts args) t r
              (Calm-add_lines cmd opts args t r))
            (λ v. Calm-send_lines)))
    where
      queue_it : Exec Session String
      queue_it = append_cmd (join " " (" -- " ∷ opts ++ cmd ∷ args)) >> pure ""

      send_it : Exec Session String
      send_it = do (if given s.client.sandbox then add_lines cmd opts args else pure tt); send_lines

  Calm-leave_batch : (s : Session) → Ready env s → Calm s (leave_batch s)
  unfolding leave_batch
  Calm-leave_batch s ready =
      Calm-off s.client.batch_mode (flush >> enable_batch_mode false) (pure tt) s ready.1
        (Calm-pure tt s ready)

  Calm-enable : (b : Bool) (s : Session) → Ready env s → b ≡ false → Calm s (enable_batch_mode b s)
  unfolding enable_batch_mode
  Calm-enable b s ready h = record {
    value = tt;
    final = (enable_batch_mode b s).1;
    is = refl;
    env = refl;
    batch = h;
    clock = refl;
  }

  pub Calm-chassis_bound :
      (name : String) (s : Session) → Ready env s → Calm s (chassis_bound name s)
  unfolding chassis_bound
  Calm-chassis_bound name s ready =
      Calm-then leave_batch
        (λ u. find >>= λ out. enable_batch_mode s.client.batch_mode >> answer out) s ready
        (Calm-leave_batch s ready)
        (λ u t r.
          Calm-then find (λ out. enable_batch_mode s.client.batch_mode >> answer out) t r
            (Calm-run "find chassis" ("--bare" ∷ "--columns _uuid" ∷ [])
              (◌append◌ "name=" name ∷ []) t r)
            (λ out v q.
              Calm-then (enable_batch_mode s.client.batch_mode) (λ w. answer out) v q
                (Calm-enable s.client.batch_mode v q ready.1) (λ w. Calm-pure (one_line out))))
    where
      find : Exec Session String
      find = run "find chassis" ("--bare" ∷ "--columns _uuid" ∷ []) (◌append◌ "name=" name ∷ [])

      one_line : String → Bool
      one_line out = length (splitlines (chars out)) == 1

      answer : String → Exec Session Bool
      answer out = pure (one_line out)
