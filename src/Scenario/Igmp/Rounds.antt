-- ===== src/Scenario/Igmp/Rounds.antt =====
-- The rounds of the multicast test: the invariant of the loops that build them.
use mathlib.Core.Path.{subst}
use native.Mathlib.Nat.{mod-lt}
use ovn_scale_test.Prelude.{
  ℕ, zero, suc, ◌+◌, ◌<◌, ◌≤◌, ◌≡◌, refl, ap, ◌∙◌, ◌⊎◌, inl, inr, List, [], ◌∷◌, ◌++◌, map, some,
  String, str_eq, ◌==◌, true, false, Bool-cases, length, get_elem?, sum, arith, All, All-append,
  length-append,
}
use ovn_scale_test.Python.Exec.{ok}
use ovn_scale_test.Topology.{Lport}
use ovn_scale_test.Scenario.Igmp.{
  Iteration, Testers, init_iteration, add_group, close_full, lport_idx_inc, add_receiver,
  add_receivers,
}

abbrev pub keys : Iteration → List String
keys = map (λ e. e.0)

-- How many memberships a round has.
abbrev pub memberships : Iteration → ℕ
memberships [] = 0
memberships ((k, groups) ∷ d) = length groups + memberships d

-- A name that a list has.
abbrev pub Known : String → List String → Type 0
Known name [] = ⊥
Known name (k ∷ ks) = (str_eq k name ≡ true) ⊎ Known name ks

abbrev pub totals : List (ℕ × Iteration) → List ℕ
totals = map (λ r. r.0)

-- The invariant of the loops after `n` receivers: each round that is put aside has `batch` receivers,
-- the current one has fewer, and the numbers are those of the memberships.
pub record Counted (ports : List Lport) (batch n : ℕ) (t : Testers) : Type 0 where
  pub full : All (λ r. (r.0 ≡ batch) × (memberships r.1 ≡ r.0)) t.iterations
  pub small : t.total < batch
  pub weight : memberships t.current ≡ t.total
  pub ports_known : keys t.current ≡ map (λ p. p.name) ports
  pub all : sum (totals t.iterations) + t.total ≡ n

Added : String → ℕ → Iteration → Type 0
Added name group d =
    (d' : Iteration) × (add_group name group d ≡ ok d')
    × (memberships d' ≡ memberships d + 1)
    × (keys d' ≡ keys d)

Added-there :
    (name k : String) (group : ℕ) (groups : List ℕ) (d : Iteration)
    → str_eq k name ≡ true
    → Added name group ((k, groups) ∷ d)
unfolding Added add_group
Added-there name k group groups d same =
    ((k, groups ++ group ∷ []) ∷ d, rw same, omega (arith, length-append groups (group ∷ [])), refl)

Added-later :
    (name k : String) (group : ℕ) (groups : List ℕ) (d : Iteration)
    → str_eq k name ≡ false
    → Added name group d
    → Added name group ((k, groups) ∷ d)
unfolding Added add_group
Added-later name k group groups d differ (d', runs, weight, same) =
    ((k, groups) ∷ d', rw (differ, runs), omega (arith, weight), ap (λ l. k ∷ l) same)

add_group-Added :
    (name : String) (group : ℕ) (d : Iteration) → Known name (keys d) → Added name group d
add_group-Added name group [] h = elim h [ ]
add_group-Added name group ((k, groups) ∷ d) h = elim (Bool-cases (str_eq k name)) [
  | inl same ↦ Added-there name k group groups d same
  | inr differ ↦
      Added-later name k group groups d differ (add_group-Added name group d (later h differ))
]
  where
    later :
        (str_eq k name ≡ true) ⊎ Known name (keys d) → str_eq k name ≡ false → Known name (keys d)
    later (inl same) differ = absurd (cc)
    later (inr h) differ = h

pub init-memberships : (ports : List Lport) → memberships (init_iteration ports) ≡ 0
unfolding init_iteration
init-memberships [] = refl
init-memberships (p ∷ ps) = omega (arith, init-memberships ps)

pub init-keys : (ports : List Lport) → keys (init_iteration ports) ≡ map (λ p. p.name) ports
unfolding init_iteration
init-keys [] = refl
init-keys (p ∷ ps) = ap (λ l. p.name ∷ l) (init-keys ps)

pub totals-append :
    (xs ys : List (ℕ × Iteration)) → sum (totals (xs ++ ys)) ≡ sum (totals xs) + sum (totals ys)
totals-append [] ys = omega arith
totals-append (x ∷ xs) ys = omega (arith, totals-append xs ys)

module _ (ports : List Lport) (batch : ℕ) (pos : 0 < batch) where
  abbrev Full : List (ℕ × Iteration) → Type 0
  Full = All (λ r. (r.0 ≡ batch) × (memberships r.1 ≡ r.0))

  close_full-Counted :
      (n : ℕ) (t : Testers)
      → Full t.iterations
      → t.total ≤ batch
      → memberships t.current ≡ t.total
      → keys t.current ≡ map (λ p. p.name) ports
      → sum (totals t.iterations) + t.total ≡ n
      → Counted ports batch n (close_full ports batch t)
  unfolding close_full
  close_full-Counted n t full le weight known all = elim (Bool-cases (t.total == batch)) [
    | inl same ↦ rw same (record {
      full =
          All-append (λ r. (r.0 ≡ batch) × (memberships r.1 ≡ r.0)) t.iterations
            ((t.total, t.current) ∷ []) full (((equal same), weight), tt);
      small = pos;
      weight = init-memberships ports;
      ports_known = init-keys ports;
      all = omega (arith, totals-append t.iterations ((t.total, t.current) ∷ []), all);
    })
    | inr differ ↦ rw differ (record {
      full = full;
      small = less differ;
      weight = weight;
      ports_known = known;
      all = all;
    })
  ]
    where
      equal : (t.total == batch) ≡ true → t.total ≡ batch
      equal h = ground (arith, h)

      less : (t.total == batch) ≡ false → t.total < batch
      less h = ground (arith, h, le)

  close_full-lport_idx : (t : Testers) → (close_full ports batch t).lport_idx ≡ t.lport_idx
  unfolding close_full
  close_full-lport_idx t = elim (Bool-cases (t.total == batch)) [
    | inl same ↦ rw same
    | inr differ ↦ rw differ
  ]

  module _ (lports : List Lport)
      (known : All (λ p. Known p.name (map (λ q. q.name) ports)) lports) where
    -- Where the loop over the receivers of a network ends.
    abbrev pub Ends : List ℕ → ℕ → Testers → Type 0
    Ends gs n t =
        (t' : Testers) × (add_receivers ports lports batch gs t ≡ ok t')
        × Counted ports batch (n + length gs) t'

    Known-at :
        (ps : List Lport) (i : ℕ)
        → All (λ p. Known p.name (map (λ q. q.name) ports)) ps
        → i < length ps
        → (p : Lport) × (get_elem? ps i ≡ some p) × Known p.name (map (λ q. q.name) ports)
    Known-at [] i h lt = elim lt [ ]
    Known-at (p ∷ ps) zero h lt = (p, refl, h.0)
    Known-at (p ∷ ps) (suc i) h lt = Known-at ps i h.1 (omega arith)

    -- The state after one receiver.
    abbrev received : Iteration → Testers → Testers
    received current t = close_full ports batch (record t {
      current = current;
      total = t.total + 1;
      lport_idx = lport_idx_inc t.lport_idx (length lports);
    })

    received-runs :
        (lport : Lport) (group : ℕ) (current : Iteration) (t : Testers)
        → get_elem? lports t.lport_idx ≡ some lport
        → add_group lport.name group t.current ≡ ok current
        → add_receiver ports lports batch group t ≡ ok (received current t)
    unfolding add_receiver
    received-runs lport group current t found adds = rw (found, adds, add_receiver)

    received-idx :
        (current : Iteration) (t : Testers)
        → 0 < length lports
        → (received current t).lport_idx < length lports
    unfolding lport_idx_inc
    received-idx current t some_port =
        rw
          (close_full-lport_idx (record t {
            current = current;
            total = t.total + 1;
            lport_idx = lport_idx_inc t.lport_idx (length lports);
          }))
          (mod-lt (t.lport_idx + 1) some_port)

    received-Counted :
        (n group : ℕ) (lport : Lport) (t : Testers) (d : Iteration)
        → Counted ports batch n t
        → memberships d ≡ memberships t.current + 1
        → keys d ≡ keys t.current
        → Counted ports batch (n + 1) (received d t)
    received-Counted n group lport t d c weight same =
        close_full-Counted (n + 1)
          (record t {
            current = d;
            total = t.total + 1;
            lport_idx = lport_idx_inc t.lport_idx (length lports);
          })
          c.full (omega (arith, c.small)) (omega (arith, weight, c.weight)) (same ∙ c.ports_known)
          (omega (arith, c.all))

    Ends-cons :
        (g : ℕ) (gs : List ℕ) (n : ℕ) (t t' : Testers)
        → add_receiver ports lports batch g t ≡ ok t'
        → Ends gs (n + 1) t'
        → Ends (g ∷ gs) n t
    unfolding add_receivers
    Ends-cons g gs n t t' runs (t'', more, c) = (
      t'',
      rw (runs, more, add_receivers),
      subst (λ m. Counted ports batch m t'') (omega arith) c,
    )

    pub add_receivers-Counted :
        (gs : List ℕ) (n : ℕ) (t : Testers)
        → t.lport_idx < length lports
        → Counted ports batch n t
        → Ends gs n t
    unfolding add_receivers Added
    add_receivers-Counted [] n t lt c =
        (t, refl, subst (λ m. Counted ports batch m t) (omega arith) c)
    add_receivers-Counted (g ∷ gs) n t lt c =
        let at = Known-at lports t.lport_idx known lt in
        let added = add_group-Added at.0.name g t.current (rw c.ports_known at.2) in
        Ends-cons g gs n t (received added.0 t) (received-runs at.0 g added.0 t at.1 added.1) (
          add_receivers-Counted gs (n + 1) (received added.0 t)
            (received-idx added.0 t (omega (arith, lt)))
            (received-Counted n g at.0 t added.0 c added.2 added.3))
