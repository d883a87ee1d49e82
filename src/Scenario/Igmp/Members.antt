-- ===== src/Scenario/Igmp/Members.antt =====
-- The multicast test: which port joins which group, in which round.
use ovn_scale_test.Prelude.{
  ℕ, ◌+◌, ◌%◌, ◌≡◌, refl, sym, ap, ◌∙◌, inl, inr, List, [], ◌∷◌, ◌++◌, Option, none, some, String,
  str_eq, eq_iff, ◌==◌, true, false, Bool-cases, length, get_elem?, replicate, range, flat_map,
  flatten, flatten-append, length-append, append_assoc, append-nil, if◌then◌else◌, arith,
}
use ovn_scale_test.Python.Dict.{Dict, default, lookup}
use ovn_scale_test.Python.Exec.{Result, ok, err}
use ovn_scale_test.Topology.{Lport, Lswitch}
use ovn_scale_test.Scenario.Igmp.{Iteration, Testers, init_iteration, add_group, close_full}

-- A port joins a group.
abbrev pub Member : Type 0
Member = String × ℕ

abbrev pub name_at : List Lport → ℕ → String
name_at ps i = elim (get_elem? ps i) [ none ↦ "" | some p ↦ p.name ]

-- The receivers of a switch from the k-th on, with their groups: the ports take turns.
abbrev pub members_from : List Lport → ℕ → List ℕ → List Member
members_from ps k [] = []
members_from ps k (g ∷ gs) = (name_at ps (k % length ps), g) ∷ members_from ps (k + 1) gs

-- The groups of a switch, each as often as it has receivers.
abbrev pub groups_of : ℕ → ℕ → List ℕ
groups_of group_count dest_count = flat_map (replicate dest_count) (range group_count)

abbrev pub of_switch : Option (List Lport) → List ℕ → List Member
of_switch none gs = []
of_switch (some []) gs = []
of_switch (some (p ∷ ps)) gs = members_from (p ∷ ps) 0 gs

-- What is to be started, in order.
abbrev pub of_switches : Dict (List Lport) → List ℕ → List Lswitch → List Member
of_switches d gs [] = []
of_switches d gs (w ∷ ws) = of_switch (lookup w.name d) gs ++ of_switches d gs ws

-- The groups that a port joins, in order.
abbrev pub joined : String → List Member → List ℕ
joined name [] = []
joined name ((port, g) ∷ ms) =
    let rest = joined name ms in if str_eq port name then g ∷ rest else rest

abbrev pub groups_at : String → Iteration → List ℕ
groups_at name d = default [] (lookup name d)

-- A round starts these receivers: its number is theirs, and each port has its groups.
abbrev pub Starts : ℕ × Iteration → List Member → Type 0
Starts r ms = (r.0 ≡ length ms) × ((name : String) → groups_at name r.1 ≡ joined name ms)

abbrev pub StartsAll : List (ℕ × Iteration) → List (List Member) → Type 0
StartsAll [] [] = Unit
StartsAll [] (ms ∷ mss) = ⊥
StartsAll (r ∷ rs) [] = ⊥
StartsAll (r ∷ rs) (ms ∷ mss) = Starts r ms × StartsAll rs mss

-- The loops after these receivers.
pub record Held (ms : List Member) (t : Testers) : Type 0 where
  pub parts : List (List Member)
  pub open_part : List Member
  pub order : flatten parts ++ open_part ≡ ms
  pub rounds : StartsAll t.iterations parts
  pub now : Starts (t.total, t.current) open_part

joined-append :
    (name : String) (xs ys : List Member)
    → joined name (xs ++ ys) ≡ joined name xs ++ joined name ys
joined-append name [] ys = refl
joined-append name ((p, g) ∷ xs) ys = ground (arith, joined-append name xs ys)

pub StartsAll-append :
    (rs : List (ℕ × Iteration)) (mss : List (List Member)) (r : ℕ × Iteration) (ms : List Member)
    → StartsAll rs mss
    → Starts r ms
    → StartsAll (rs ++ r ∷ []) (mss ++ ms ∷ [])
StartsAll-append [] [] r ms h s = (s, tt)
StartsAll-append [] (m ∷ mss) r ms h s = elim h [ ]
StartsAll-append (r' ∷ rs) [] r ms h s = elim h [ ]
StartsAll-append (r' ∷ rs) (m ∷ mss) r ms h s = (h.0, StartsAll-append rs mss r ms h.1 s)

pub init-groups : (ports : List Lport) (name : String) → groups_at name (init_iteration ports) ≡ []
unfolding init_iteration lookup
init-groups [] name = refl
init-groups (p ∷ ps) name = ground (arith, init-groups ps name)

-- `add_group` at an entry of the port, and at one of another port.
add_group-here :
    (port k : String) (g : ℕ) (groups : List ℕ) (d d' : Iteration)
    → str_eq k port ≡ true
    → add_group port g ((k, groups) ∷ d) ≡ ok d'
    → d' ≡ (k, groups ++ g ∷ []) ∷ d
unfolding add_group
add_group-here port k g groups d d' same h = ground arith

add_group-later :
    (port k : String) (g : ℕ) (groups : List ℕ) (d d' : Iteration)
    → str_eq k port ≡ false
    → add_group port g ((k, groups) ∷ d) ≡ ok d'
    → (rest : Iteration) × (add_group port g d ≡ ok rest) × (d' ≡ (k, groups) ∷ rest)
unfolding add_group
add_group-later port k g groups d d' differ h = go (add_group port g d) refl
  where
    go :
        (r : Result Iteration)
        → add_group port g d ≡ r
        → (rest : Iteration) × (add_group port g d ≡ ok rest) × (d' ≡ (k, groups) ∷ rest)
    go (err e) q = absurd (ground (arith, h, q))
    go (ok rest) q = (rest, q, ground (arith, h, q))

groups-here :
    (name port k : String) (g : ℕ) (groups : List ℕ) (d : Iteration)
    → str_eq k port ≡ true
    → groups_at name ((k, groups ++ g ∷ []) ∷ d)
      ≡ groups_at name ((k, groups) ∷ d) ++ joined name ((port, g) ∷ [])
unfolding lookup
groups-here name port k g groups d same =
    let e : k ≡ port = (eq_iff k port).0 same in
    rw e (elim (Bool-cases (str_eq port name)) [
      | inl yours ↦ rw yours
      | inr others ↦ rw (others, append-nil (groups_at name d))
    ])

groups-later :
    (name port k : String) (g : ℕ) (groups : List ℕ) (d rest : Iteration)
    → str_eq k port ≡ false
    → groups_at name rest ≡ groups_at name d ++ joined name ((port, g) ∷ [])
    → groups_at name ((k, groups) ∷ rest)
      ≡ groups_at name ((k, groups) ∷ d) ++ joined name ((port, g) ∷ [])
unfolding lookup
groups-later name port k g groups d rest differ h = elim (Bool-cases (str_eq k name)) [
  | inl yours ↦ rw (yours, other (eq_lem yours), append-nil groups)
  | inr others ↦ rw others h
]
  where
    eq_lem : str_eq k name ≡ true → k ≡ name
    eq_lem = (eq_iff k name).0

    other : k ≡ name → str_eq port name ≡ false
    other e = elim (Bool-cases (str_eq port name)) [
      | inl both ↦ absurd (cc ((eq_iff k port).1 (e ∙ sym ((eq_iff port name).0 both))))
      | inr no_match ↦ no_match
    ]

-- A port that joins a group has this group after those that it had; the others keep theirs.
add_group-groups :
    (name port : String) (g : ℕ) (d d' : Iteration)
    → add_group port g d ≡ ok d'
    → groups_at name d' ≡ groups_at name d ++ joined name ((port, g) ∷ [])
unfolding add_group
add_group-groups name port g [] d' h = cc
add_group-groups name port g ((k, groups) ∷ d) d' h = elim (Bool-cases (str_eq k port)) [
  | inl same ↦
      rw (add_group-here port k g groups d d' same h) (groups-here name port k g groups d same)
  | inr differ ↦
      let (rest, adds, is) = add_group-later port k g groups d d' differ h in
      rw is
        (groups-later name port k g groups d rest differ (add_group-groups name port g d rest adds))
]

pub close_full-Held :
    (ports : List Lport) (batch : ℕ) (ms : List Member) (t : Testers)
    → Held ms t
    → Held ms (close_full ports batch t)
unfolding close_full
close_full-Held ports batch ms t h = elim (Bool-cases (t.total == batch)) [
  | inl same ↦ rw same (record {
    parts = h.parts ++ h.open_part ∷ [];
    open_part = [];
    order =
        append-nil (flatten (h.parts ++ h.open_part ∷ []))
        ∙ flatten-append h.parts (h.open_part ∷ [])
        ∙ ap (λ l. flatten h.parts ++ l) (append-nil h.open_part)
        ∙ h.order;
    rounds = StartsAll-append t.iterations h.parts (t.total, t.current) h.open_part h.rounds h.now;
    now = (refl, init-groups ports);
  })
  | inr differ ↦ rw differ h
]

-- One receiver more.
pub Held-more :
    (ms : List Member) (t : Testers) (port : String) (g idx : ℕ) (d : Iteration)
    → add_group port g t.current ≡ ok d
    → Held ms t
    → Held (ms ++ (port, g) ∷ []) (record t { current = d; total = t.total + 1; lport_idx = idx })
Held-more ms t port g idx d added h = record {
  parts = h.parts;
  open_part = h.open_part ++ (port, g) ∷ [];
  order =
      sym (append_assoc (flatten h.parts) h.open_part ((port, g) ∷ []))
      ∙ ap (λ l. l ++ (port, g) ∷ []) h.order;
  rounds = h.rounds;
  now = (
    omega (arith, h.now.0, length-append h.open_part ((port, g) ∷ [])),
    λ name.
        add_group-groups name port g t.current d added
        ∙ ap (λ l. l ++ joined name ((port, g) ∷ [])) (h.now.1 name)
        ∙ sym (joined-append name h.open_part ((port, g) ∷ [])),
  );
}
