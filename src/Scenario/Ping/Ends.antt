-- ===== src/Scenario/Ping/Ends.antt =====
-- `_ping_port` of scenarios/ovn.py: the loop ends, and how.
use ovn_scale_test.Prelude.{
  ℕ, zero, suc, ◌+◌, ◌≤◌, ◌<◌, Bool, true, false, Option, some, ltb, ◌≡◌, ◌⊎◌, inl, inr, refl,
  arith,
}
use ovn_scale_test.Python.Exec.{Result, ok, err, thread_timeout}
use ovn_scale_test.Topology.{Lport}
use ovn_scale_test.Client.{Session}
use ovn_scale_test.Scenario.Ping.{ping, after_ping, ping_loop}

-- What the loop comes to: a ping has been answered, and was the last thing that was done; or the time
-- is over.
pub record Ended (lport : Lport) (p : Option (Result (Unit {0})) × Session) : Type 0 where
  pub result : Result (Unit {0})
  pub final : Session
  pub is : p ≡ (some result, final)
  pub how :
      ((result ≡ ok tt) × ((s : Session) × (ping lport s ≡ (ok tt, final))))
      ⊎ (result ≡ err thread_timeout)

-- A ping that has been answered, the end of the time, and another round.
Ended-after :
    (lport : Lport) (over : Bool) (s : Session) (tried : Result (Unit {0}) × Session)
    (rest : Option (Result (Unit {0})) × Session)
    → ping lport s ≡ tried
    → (over ≡ true) ⊎ Ended lport rest
    → Ended lport (after_ping over tried rest)
unfolding after_ping
Ended-after lport over s (ok u, t) rest h next = record {
  result = ok tt;
  final = t;
  is = refl;
  how = inl (refl, (s, h));
}
Ended-after lport true s (err e, t) rest h next = record {
  result = err thread_timeout;
  final = t;
  is = refl;
  how = inr refl;
}
Ended-after lport false s (err e, t) rest h (inl over) = cc
Ended-after lport false s (err e, t) rest h (inr ended) = ended

next_or_later : (failures n : ℕ) → failures < n → (n ≡ failures + 1) ⊎ (failures + 1 < n)
next_or_later failures n less = omega arith

-- Where the time is over after `n` failed pings, the loop ends with fuel for `n` of them: with an
-- answered ping, or with the timeout.
pub ping_loop_ends :
    (seconds : ℕ → ℕ) (wait_timeout_s : ℕ) (lport : Lport) (n failures fuel : ℕ) (s : Session)
    → ltb wait_timeout_s (seconds n) ≡ true
    → failures < n
    → n ≤ failures + fuel
    → Ended lport (ping_loop seconds wait_timeout_s lport failures fuel s)
unfolding ping_loop
ping_loop_ends seconds wait_timeout_s lport n failures zero s over less enough =
    absurd (omega arith)
ping_loop_ends seconds wait_timeout_s lport n failures (suc fuel) s over less enough =
    let tried = ping lport s in
    let rest = ping_loop seconds wait_timeout_s lport (failures + 1) fuel tried.1 in
    Ended-after lport (ltb wait_timeout_s (seconds (failures + 1))) s tried rest refl
      (elim (next_or_later failures n less) [
        | inl last ↦ inl (rw (← last) over)
        | inr more ↦ inr (
            ping_loop_ends seconds wait_timeout_s lport n (failures + 1) fuel tried.1 over more
              (omega arith))
      ])
