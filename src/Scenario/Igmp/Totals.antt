-- ===== src/Scenario/Igmp/Totals.antt =====
-- The multicast test as a whole: its switches, and its last round.
use mathlib.Core.Path.{subst}
use ovn_scale_test.Prelude.{
  ℕ, suc, ◌+◌, ◌*◌, ◌<◌, ◌≤◌, ◌≡◌, refl, ◌∙◌, inl, inr, List, [], ◌∷◌, map, Option, some, ◌==◌,
  true, false, Bool-cases, length, sum, arith, range, length-append, length-map, length-range_from,
  All, All-append,
}
use ovn_scale_test.Python.Dict.{Dict, lookup}
use ovn_scale_test.Python.Exec.{ok}
use ovn_scale_test.Topology.{Lport, Lswitch}
use ovn_scale_test.Scenario.Igmp.{
  Iteration, Testers, init_iteration, add_receivers, add_switches, receivers, close_last,
  build_config_testers,
}
use ovn_scale_test.Scenario.Igmp.Members.{groups_of, of_switches, init-groups, Held}
use ovn_scale_test.Scenario.Igmp.Loops.{add_switches-Held, receivers-groups}
use ovn_scale_test.Scenario.Igmp.Last.{
  FullButLast, close_last-FullButLast, StartsParts, close_last-StartsParts,
}
use ovn_scale_test.Scenario.Igmp.Rounds.{
  Known, Counted, add_receivers-Counted, totals, totals-append, memberships, init-memberships,
  init-keys,
}

-- The switches that have a port.
abbrev pub has_port : Option (List Lport) → ℕ
has_port (some (p ∷ ps)) = 1
has_port _ = 0

abbrev pub with_ports : Dict (List Lport) → List Lswitch → ℕ
with_ports d [] = 0
with_ports d (w ∷ ws) = has_port (lookup w.name d) + with_ports d ws

-- The dict has an entry for the switch, and each of its ports is among `ports`.
abbrev pub HasPorts : List Lport → Dict (List Lport) → Lswitch → Type 0
HasPorts ports d w =
    (lports : List Lport) × (lookup w.name d ≡ some lports)
    × All (λ p. Known p.name (map (λ q. q.name) ports)) lports

length-receivers : (dest : ℕ) (gs : List ℕ) → length (receivers dest gs) ≡ length gs * dest
unfolding receivers
length-receivers dest [] = omega arith
length-receivers dest (g ∷ gs) =
    length-append (map (λ i. g) (range dest)) (receivers dest gs)
    ∙ rw (length-map (range dest) (λ i. g), length-range_from 0 dest, length-receivers dest gs)
        (suc_times dest (length gs))
  where
    suc_times : (d n : ℕ) → d + n * d ≡ suc n * d
    suc_times d n = grind arith

module _ (ports : List Lport) (per_switch : Dict (List Lport)) (batch : ℕ) (pos : 0 < batch)
    (gs : List ℕ) where
  SwitchEnds : List Lswitch → ℕ → Testers → Type 0
  SwitchEnds ws n t =
      (t' : Testers) × (add_switches ports per_switch batch gs ws t ≡ ok t')
      × Counted ports batch (n + with_ports per_switch ws * length gs) t'

  SwitchEnds-skip :
      (w : Lswitch) (ws : List Lswitch) (n : ℕ) (t : Testers)
      → lookup w.name per_switch ≡ some []
      → SwitchEnds ws n t
      → SwitchEnds (w ∷ ws) n t
  unfolding SwitchEnds add_switches
  SwitchEnds-skip w ws n t found (t', runs, c) = (
    t',
    rw (found, runs, add_switches),
    subst (λ m. Counted ports batch m t')
        (rw found (add_zero n (with_ports per_switch ws) (length gs))) c,
  )
    where
      add_zero : (n k l : ℕ) → n + k * l ≡ n + (0 + k) * l
      add_zero n k l = grind arith

  SwitchEnds-cons :
      (w : Lswitch) (ws : List Lswitch) (n : ℕ) (t t' : Testers) (p : Lport) (ps : List Lport)
      → lookup w.name per_switch ≡ some (p ∷ ps)
      → add_receivers ports (p ∷ ps) batch gs (record t { lport_idx = 0 }) ≡ ok t'
      → SwitchEnds ws (n + length gs) t'
      → SwitchEnds (w ∷ ws) n t
  unfolding SwitchEnds add_switches
  SwitchEnds-cons w ws n t t' p ps found adds (t'', runs, c) = (
    t'',
    rw (found, adds, runs, add_switches),
    subst (λ m. Counted ports batch m t'')
        (rw found (add_one n (with_ports per_switch ws) (length gs))) c,
  )
    where
      add_one : (n k l : ℕ) → n + l + k * l ≡ n + (1 + k) * l
      add_one n k l = grind arith

  reset :
      (n : ℕ) (t : Testers)
      → Counted ports batch n t
      → Counted ports batch n (record t { lport_idx = 0 })
  reset n t c = record {
    full = c.full;
    small = c.small;
    weight = c.weight;
    ports_known = c.ports_known;
    all = c.all;
  }

  one_switch :
      (w : Lswitch) (ws : List Lswitch) (n : ℕ) (t : Testers) (lports : List Lport)
      → lookup w.name per_switch ≡ some lports
      → All (λ p. Known p.name (map (λ q. q.name) ports)) lports
      → ((k : ℕ) (t' : Testers) → Counted ports batch k t' → SwitchEnds ws k t')
      → Counted ports batch n t
      → SwitchEnds (w ∷ ws) n t
  one_switch w ws n t [] found known ih c = SwitchEnds-skip w ws n t found (ih n t c)
  one_switch w ws n t (p ∷ ps) found known ih c =
      let done =
        add_receivers-Counted ports batch pos (p ∷ ps) known gs n (record t { lport_idx = 0 })
          (omega arith) (reset n t c) in
      SwitchEnds-cons w ws n t done.0 p ps found done.1 (ih (n + length gs) done.0 done.2)

  add_switches-Counted :
      (ws : List Lswitch) (n : ℕ) (t : Testers)
      → All (HasPorts ports per_switch) ws
      → Counted ports batch n t
      → SwitchEnds ws n t
  unfolding SwitchEnds add_switches
  add_switches-Counted [] n t h c =
      (t, refl, subst (λ m. Counted ports batch m t) (no_more n (length gs)) c)
    where
      no_more : (n l : ℕ) → n ≡ n + 0 * l
      no_more n l = grind arith
  add_switches-Counted (w ∷ ws) n t h c =
      one_switch w ws n t h.0.0 h.0.1 h.0.2 (λ k t' c'. add_switches-Counted ws k t' h.1 c') c

-- A round that is run: not empty, not over the batch, and its number is that of its memberships.
abbrev pub Round : ℕ → ℕ × Iteration → Type 0
Round batch r = (0 < r.0) × (r.0 ≤ batch) × (memberships r.1 ≡ r.0)

Rounds-full :
    (batch : ℕ) (rs : List (ℕ × Iteration))
    → 0 < batch
    → All (λ r. (r.0 ≡ batch) × (memberships r.1 ≡ r.0)) rs
    → All (Round batch) rs
Rounds-full batch [] pos h = tt
Rounds-full batch (r ∷ rs) pos h =
    ((omega (arith, pos, h.0.0), omega (arith, h.0.0), h.0.1), Rounds-full batch rs pos h.1)

close_last-Round :
    (ports : List Lport) (batch n : ℕ) (t : Testers)
    → 0 < batch
    → Counted ports batch n t
    → (sum (totals (close_last t)) ≡ n) × All (Round batch) (close_last t)
unfolding close_last
close_last-Round ports batch n t pos c = elim (Bool-cases (t.total == 0)) [
  | inl none_left ↦
      rw none_left
        (omega (arith, zero_total none_left, c.all), Rounds-full batch t.iterations pos c.full)
  | inr left ↦ rw left (
    omega (arith, totals-append t.iterations ((t.total, t.current) ∷ []), c.all),
    All-append (Round batch) t.iterations ((t.total, t.current) ∷ [])
        (Rounds-full batch t.iterations pos c.full)
        ((positive left, omega (arith, c.small), c.weight), tt),
  )
]
  where
    zero_total : (t.total == 0) ≡ true → t.total ≡ 0
    zero_total h = ground (arith, h)

    positive : (t.total == 0) ≡ false → 0 < t.total
    positive h = ground (arith, h)

-- What `_build_config_testers` ends in: the rounds that it returns start the receivers that are to be
-- started, in this order, cut into parts; every round but the last has a batch of them.
pub record BuiltFor (ws : List Lswitch) (ports : List Lport) (per_switch : Dict (List Lport))
    (group_count dest_count batch : ℕ) : Type 0 where
  pub rounds : List (ℕ × Iteration)
  pub returns : build_config_testers ws ports per_switch group_count dest_count batch ≡ ok rounds
  pub begins : StartsParts rounds (of_switches per_switch (groups_of group_count dest_count) ws)
  pub full : FullButLast batch rounds
  pub bounded : All (Round batch) rounds
  pub number : sum (totals rounds) ≡ with_ports per_switch ws * (group_count * dest_count)

first_testers : List Lport → Testers
first_testers ports = record {
  iterations = [];
  current = init_iteration ports;
  total = 0;
  lport_idx = 0;
}

Held-first : (ports : List Lport) → Held [] (first_testers ports)
unfolding first_testers
Held-first ports = record {
  parts = [];
  open_part = [];
  order = refl;
  rounds = tt;
  now = (refl, init-groups ports);
}

close_built :
    (ws : List Lswitch) (ports : List Lport) (per_switch : Dict (List Lport))
    (group_count dest_count batch : ℕ) (pos : 0 < batch)
    → SwitchEnds ports per_switch batch pos
        (receivers dest_count (range group_count))
        ws
        0
        (first_testers ports)
    → BuiltFor ws ports per_switch group_count dest_count batch
unfolding SwitchEnds build_config_testers first_testers
close_built ws ports per_switch group_count dest_count batch pos (t, runs, c) =
    let gs = receivers dest_count (range group_count) in
    let number = 0 + with_ports per_switch ws * length gs in
    let closed = close_last-Round ports batch number t pos c in
    record {
      rounds = close_last t;
      returns = rw (runs, build_config_testers);
      begins = rw (← receivers-groups dest_count group_count) (
          close_last-StartsParts (of_switches per_switch gs ws) t (
            add_switches-Held ports per_switch batch gs ws [] (first_testers ports) t runs
              (Held-first ports)));
      full = close_last-FullButLast ports batch number t c;
      bounded = closed.1;
      number =
          closed.0
          ∙ rw (length-receivers dest_count (range group_count), length-range_from 0 group_count)
              (zero_add (with_ports per_switch ws * (group_count * dest_count)));
    }
  where
    zero_add : (n : ℕ) → 0 + n ≡ n
    zero_add n = omega arith

-- With a positive batch, an entry for each switch, and the ports of the switches among those of
-- the test, `_build_config_testers` returns; its rounds, cut one after the other, start these
-- receivers in this order: for each switch that has a port, each group as often as it has
-- receivers, and the ports of the switch take turns; the number of a round is that of its
-- receivers, and each port has in it the groups that it joins there; every round but the last has
-- a batch, no round is empty or over the batch, and the numbers add up to the switches with a
-- port, times the groups, times the receivers of a group.
pub build_config_testers_counts :
    (ws : List Lswitch) (ports : List Lport) (per_switch : Dict (List Lport))
    (group_count dest_count batch : ℕ)
    → 0 < batch
    → All (HasPorts ports per_switch) ws
    → BuiltFor ws ports per_switch group_count dest_count batch
unfolding first_testers
build_config_testers_counts ws ports per_switch group_count dest_count batch pos h =
    close_built ws ports per_switch group_count dest_count batch pos (
      add_switches-Counted ports per_switch batch pos (receivers dest_count (range group_count)) ws
        0 (first_testers ports) h
        (record {
          full = tt;
          small = pos;
          weight = init-memberships ports;
          ports_known = init-keys ports;
          all = omega arith;
        }))
