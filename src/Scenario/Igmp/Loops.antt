-- ===== src/Scenario/Igmp/Loops.antt =====
-- The multicast test: the loops of `_build_config_testers` start the receivers that are to be started.
use mathlib.Core.Path.{subst}
use native.Mathlib.Nat.{mod-add-mod}
use ovn_scale_test.Prelude.{
  ℕ, zero, suc, ◌+◌, ◌%◌, ◌≡◌, refl, sym, ap, ◌∙◌, inl, inr, List, [], ◌∷◌, ◌++◌, map, Option, none,
  some, ◌==◌, Bool-cases, length, get_elem?, replicate, range, range_from, flat_map, append_assoc,
  append-nil, arith,
}
use ovn_scale_test.Python.Dict.{Dict, lookup}
use ovn_scale_test.Python.Exec.{Result, ok, err}
use ovn_scale_test.Topology.{Lport, Lswitch}
use ovn_scale_test.Scenario.Igmp.{
  Iteration, Testers, add_group, close_full, lport_idx_inc, add_receiver, add_receivers,
  add_switches, receivers,
}
use ovn_scale_test.Scenario.Igmp.Members.{
  Member, name_at, members_from, groups_of, of_switches, Held, Held-more, close_full-Held,
}

-- One receiver has been started after `ms`, and it is the next port's turn.
abbrev Next : List Lport → ℕ → List Member → Testers → Testers → Type 0
Next lports g ms t t' =
    Held (ms ++ (name_at lports t.lport_idx, g) ∷ []) t'
    × (t'.lport_idx ≡ (t.lport_idx + 1) % length lports)

name_at-found :
    (ps : List Lport) (i : ℕ) (p : Lport) → get_elem? ps i ≡ some p → name_at ps i ≡ p.name
name_at-found ps i p h = ground (arith, h)

close_full-idx :
    (ports : List Lport) (batch : ℕ) (t : Testers)
    → (close_full ports batch t).lport_idx ≡ t.lport_idx
unfolding close_full
close_full-idx ports batch t = elim (Bool-cases (t.total == batch)) [
  | inl same ↦ rw same
  | inr differ ↦ rw differ
]

module _ (ports lports : List Lport) (batch : ℕ) where
  add_receiver-Next :
      (g : ℕ) (ms : List Member) (t t' : Testers)
      → add_receiver ports lports batch g t ≡ ok t'
      → Held ms t
      → Next lports g ms t t'
  unfolding add_receiver lport_idx_inc
  add_receiver-Next g ms t t' runs h = found (get_elem? lports t.lport_idx) refl
    where
      added :
          (lport : Lport) (r : Result Iteration)
          → get_elem? lports t.lport_idx ≡ some lport
          → add_group lport.name g t.current ≡ r
          → Next lports g ms t t'
      added lport (err e) at q = absurd (ground (arith, runs, at, q))
      added lport (ok d) at q =
          let more : Testers = record t {
            current = d;
            total = t.total + 1;
            lport_idx = (t.lport_idx + 1) % length lports;
          } in
          let is : close_full ports batch more ≡ t' = ground (arith, runs, at, q) in
          subst (λ u. Next lports g ms t u) is
            (
              subst (λ name. Held (ms ++ (name, g) ∷ []) (close_full ports batch more))
                  (sym (name_at-found lports t.lport_idx lport at))
                  (close_full-Held ports batch (ms ++ (lport.name, g) ∷ []) more
                    (Held-more ms t lport.name g more.lport_idx d q h)),
              close_full-idx ports batch more,
            )

      found : (o : Option Lport) → get_elem? lports t.lport_idx ≡ o → Next lports g ms t t'
      found none at = absurd (ground (arith, runs, at))
      found (some lport) at = added lport (add_group lport.name g t.current) at refl

  -- The receivers of a switch, from the k-th on.
  add_receivers-Held :
      (gs : List ℕ) (k : ℕ) (ms : List Member) (t t' : Testers)
      → add_receivers ports lports batch gs t ≡ ok t'
      → t.lport_idx ≡ k % length lports
      → Held ms t
      → Held (ms ++ members_from lports k gs) t'
  unfolding add_receivers
  add_receivers-Held [] k ms t t' runs at h =
      let same : t ≡ t' = cc in subst (λ u. Held (ms ++ []) u) same (rw (append-nil ms) h)
  add_receivers-Held (g ∷ gs) k ms t t' runs at h =
      go (add_receiver ports lports batch g t) refl (λ u.
        add_receivers-Held gs (k + 1) (ms ++ (name_at lports (k % length lports), g) ∷ []) u t')
    where
      go :
          (r : Result Testers)
          → add_receiver ports lports batch g t ≡ r
          → ((u : Testers)
              → add_receivers ports lports batch gs u ≡ ok t'
              → u.lport_idx ≡ (k + 1) % length lports
              → Held (ms ++ (name_at lports (k % length lports), g) ∷ []) u
              → Held
                  ((ms ++ (name_at lports (k % length lports), g) ∷ [])
                    ++ members_from lports (k + 1) gs)
                  t')
          → Held (ms ++ (name_at lports (k % length lports), g) ∷ members_from lports (k + 1) gs) t'
      go (err e) q ih = absurd (ground (arith, runs, q))
      go (ok u) q ih =
          let after = add_receiver-Next g ms t u q h in
          subst (λ l. Held l t')
            (append_assoc ms ((name_at lports (k % length lports), g) ∷ [])
              (members_from lports (k + 1) gs))
            (ih u (rw (q, add_receivers) at runs)
              (after.1
                ∙ ap (λ (i : ℕ). (i + 1) % length lports) at
                ∙ mod-add-mod k (length lports) 1)
              (subst (λ (i : ℕ). Held (ms ++ (name_at lports i, g) ∷ []) u) at after.0))

-- The loop over the switches.
pub add_switches-Held :
    (ports : List Lport) (d : Dict (List Lport)) (batch : ℕ) (gs : List ℕ) (ws : List Lswitch)
    (ms : List Member) (t t' : Testers)
    → add_switches ports d batch gs ws t ≡ ok t'
    → Held ms t
    → Held (ms ++ of_switches d gs ws) t'
unfolding add_switches
add_switches-Held ports d batch gs [] ms t t' runs h =
    let same : t ≡ t' = cc in subst (λ u. Held (ms ++ []) u) same (rw (append-nil ms) h)
add_switches-Held ports d batch gs (w ∷ ws) ms t t' runs h =
    go (lookup w.name d) refl (λ ms' u. add_switches-Held ports d batch gs ws ms' u t')
  where
    Rest : Type 0
    Rest =
        (ms' : List Member) (u : Testers)
        → add_switches ports d batch gs ws u ≡ ok t'
        → Held ms' u
        → Held (ms' ++ of_switches d gs ws) t'

    some_ports :
        (p : Lport) (ps : List Lport) (r : Result Testers)
        → lookup w.name d ≡ some (p ∷ ps)
        → add_receivers ports (p ∷ ps) batch gs (record t { lport_idx = 0 }) ≡ r
        → Rest
        → Held (ms ++ (members_from (p ∷ ps) 0 gs ++ of_switches d gs ws)) t'
    some_ports p ps (err e) found q ih = absurd (ground (arith, runs, found, q))
    some_ports p ps (ok u) found q ih =
        subst (λ l. Held l t') (append_assoc ms (members_from (p ∷ ps) 0 gs) (of_switches d gs ws))
          (ih (ms ++ members_from (p ∷ ps) 0 gs) u (rw (found, q, add_switches) at runs) (
            add_receivers-Held ports (p ∷ ps) batch gs 0 ms (record t { lport_idx = 0 }) u q
              (omega arith)
              (record {
                parts = h.parts;
                open_part = h.open_part;
                order = h.order;
                rounds = h.rounds;
                now = h.now;
              })))

    go :
        (o : Option (List Lport))
        → lookup w.name d ≡ o
        → Rest
        → Held (ms ++ of_switches d gs (w ∷ ws)) t'
    go none found ih = absurd (ground (arith, runs, found))
    go (some []) found ih = rw found (ih ms t (rw (found, add_switches) at runs) h)
    go (some (p ∷ ps)) found ih = rw found (
        some_ports p ps (add_receivers ports (p ∷ ps) batch gs (record t { lport_idx = 0 })) found
          refl ih)

-- The two inner loops go through each group as often as it has receivers.
pub receivers-groups :
    (dest_count group_count : ℕ)
    → receivers dest_count (range group_count) ≡ groups_of group_count dest_count
unfolding receivers
receivers-groups dest_count group_count = each (range group_count)
  where
    same : (g i n : ℕ) → map (λ k. g) (range_from i n) ≡ replicate n g
    same g i zero = refl
    same g i (suc n) = ap (λ l. g ∷ l) (same g (i + 1) n)

    each : (gs : List ℕ) → receivers dest_count gs ≡ flat_map (replicate dest_count) gs
    each [] = refl
    each (g ∷ gs) = rw (same g 0 dest_count, each gs)
