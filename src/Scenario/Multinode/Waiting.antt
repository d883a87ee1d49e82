-- ===== src/Scenario/Multinode/Waiting.antt =====
-- `_wait_chassis` of scenarios/ovn_fake_multinode.py: how long it waits, and what it has seen then.
use ovn_scale_test.Prelude.{
  ℕ, zero, suc, ◌+◌, ◌*◌, ◌≤◌, ◌<◌, true, false, [], ◌∷◌, String, ◌≡◌, refl, ◌∙◌, arith, Bool-cases,
  inl, inr,
}
use ovn_scale_test.Python.Exec.{ok}
use ovn_scale_test.Env.{Env, Reliable, slept, happen}
use ovn_scale_test.Client.{Session, sleep}
use ovn_scale_test.Client.Sbctl.{chassis_bound}
use ovn_scale_test.Client.Sbctl.Calm.{paused, paused-append, Calm, Ready, Calm-chassis_bound}
use ovn_scale_test.Scenario.Multinode.{wait_chassis}

-- What waiting with `n` rounds comes to: it returns; it has paused for at most `n` tenths of a second;
-- and if it has paused for less, the last thing it did was to see that the chassis is bound.
pub record Ends (name : String) (n : ℕ) (s : Session) : Type 0 where
  pub final : Session
  pub runs : wait_chassis name n s ≡ (ok tt, final)
  pub limit : paused final.net.trace ≤ paused s.net.trace + n * 100
  pub seen :
      paused final.net.trace < paused s.net.trace + n * 100
      → (t : Session) × (chassis_bound name t ≡ (ok true, final))

module _ (env : Env) (reliable : Reliable env) (name : String) where
  -- The session after a pause.
  abbrev rested : Session → Session
  rested t = (sleep 100 t).1

  rested-clock : (t : Session) → paused (rested t).net.trace ≡ paused t.net.trace + 100
  unfolding sleep happen
  rested-clock t = paused-append t.net.trace (slept 100 ∷ [])

  Ends-bound :
      (n : ℕ) (s : Session) (c : Calm s (chassis_bound name s))
      → c.value ≡ true
      → Ends name (suc n) s
  unfolding wait_chassis
  Ends-bound n s c h = record {
    final = c.final;
    runs = rw (c.is, h) refl;
    limit = omega (arith, c.clock);
    seen = λ less. (s, c.is ∙ rw h refl);
  }

  Ends-later :
      (n : ℕ) (s : Session) (c : Calm s (chassis_bound name s))
      → c.value ≡ false
      → Ends name n (rested c.final)
      → Ends name (suc n) s
  unfolding wait_chassis sleep
  Ends-later n s c h e = record {
    final = e.final;
    runs = rw (c.is, h) e.runs;
    limit = omega (arith, c.clock, rested-clock c.final, e.limit);
    seen = λ less. e.seen (omega (arith, c.clock, rested-clock c.final, less));
  }

  strict : (a : ℕ) → a < a + 0 * 100 → ⊥
  strict a h = omega arith

  -- Where no command fails and batch mode is off, `_wait_chassis` returns for any limit; it pauses no
  -- longer than the limit, and if it stops before, it has just seen that the chassis is bound.
  pub wait_chassis-Ends : (n : ℕ) (s : Session) → Ready env s → Ends name n s
  unfolding wait_chassis sleep
  wait_chassis-Ends zero s ready = record {
    final = s;
    runs = refl;
    limit = omega arith;
    seen = λ less. absurd (strict (paused s.net.trace) less);
  }
  wait_chassis-Ends (suc n) s ready =
      let c = Calm-chassis_bound env reliable name s ready in
      elim (Bool-cases c.value) [
        | inl h ↦ Ends-bound n s c h
        | inr h ↦
            Ends-later n s c h (wait_chassis-Ends n (rested c.final) (c.env ∙ ready.0, c.batch))
      ]

-- So many checks that do not see the chassis, each with the pause after it.
pub data Tries (name : String) : ℕ → Session → Session → Type 0 where
  first : {s : Session} → Tries name 0 s s
  again :
      {k : ℕ} {s t u : Session}
      → chassis_bound name s ≡ (ok false, t)
      → Tries name k (sleep 100 t).1 u
      → Tries name (suc k) s u

-- A chassis that is seen to be bound after fewer checks than the limit has rounds is waited for: the
-- loop returns at the check that sees it.
pub wait_chassis_finds :
    (name : String) (n k : ℕ) (s t final : Session)
    → k < n
    → Tries name k s t
    → chassis_bound name t ≡ (ok true, final)
    → wait_chassis name n s ≡ (ok tt, final)
unfolding wait_chassis sleep
wait_chassis_finds name zero k s t final less tries bound = absurd (omega arith)
wait_chassis_finds name (suc n) zero s t final less first bound = rw bound refl
wait_chassis_finds name (suc n) (suc k) s t final less (again e rest) bound =
    rw e (wait_chassis_finds name n k _ t final (omega arith) rest bound)
