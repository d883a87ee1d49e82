-- ===== src/Scenario/Bind/Spread.antt =====
-- Where `_bind_ports` puts the ports, by slices or at random.
use mathlib.Core.List.{Perm, perm_middle, perm_append_comm}
use mathlib.Core.Path.{subst}
use native.Mathlib.Nat.{lt-mul-div-succ, le-div_iff_mul-le}
use mathlib.Core.List.Perm
use ovn_scale_test.Prelude.{
  ℕ, zero, suc, ◌+◌, ◌-◌, ◌*◌, ◌≤◌, ◌<◌, ◌≡◌, refl, sym, ap, ◌∙◌, List, [], ◌∷◌, ◌++◌, some, arith,
  length, take, drop, get_elem?, flatten, append_assoc, append-nil, take-append-drop, length-drop,
  Bool-cases, ltb, tests, inl, inr,
}
use ovn_scale_test.Python.Exec.{ok}
use ovn_scale_test.Topology.{Lport, Sandbox}
use ovn_scale_test.Scenario.Bind.{
  LportSbs, bind_to, bind_all, bind_slices, slices, lport_per_sandbox, spread, bind_random,
}
use ovn_scale_test.World.{World}
use ovn_scale_test.Env.{Env, draw}
use ovn_scale_test.Scenario.Bind.Bound.{bound, bound-bind_to, bound-bind_all}

-- The slices hold the ports in order.
flatten-slices :
    {A : Type 0} (fuel per : ℕ) (xs : List A)
    → 0 < per
    → length xs ≤ fuel
    → flatten (slices fuel per xs) ≡ xs
unfolding slices
flatten-slices zero per [] pos le = refl
flatten-slices zero per (x ∷ xs) pos le = absurd (omega arith)
flatten-slices (suc fuel) per [] pos le = refl
flatten-slices (suc fuel) per (x ∷ xs) pos le =
    ap (λ l. take per (x ∷ xs) ++ l)
      (flatten-slices fuel per (drop per (x ∷ xs)) pos
        (omega (arith, length-drop per (x ∷ xs), le)))
    ∙ take-append-drop per (x ∷ xs)

-- There are no more slices than sandboxes.
length-slices :
    {A : Type 0} (fuel per k : ℕ) (xs : List A)
    → 0 < per
    → length xs ≤ per * k
    → length (slices fuel per xs) ≤ k
unfolding slices
length-slices zero per k xs pos le = omega arith
length-slices (suc fuel) per k [] pos le = omega arith
length-slices (suc fuel) per zero (x ∷ xs) pos le = absurd (omega arith)
length-slices (suc fuel) per (suc k) (x ∷ xs) pos le = omega (
  arith,
  length-slices fuel per k (drop per (x ∷ xs)) pos (omega (arith, length-drop per (x ∷ xs), le)),
)

get_elem?-lt :
    {A : Type 0} (xs : List A) (i : ℕ) → i < length xs → (x : A) × (get_elem? xs i ≡ some x)
get_elem?-lt [] i h = elim h [ ]
get_elem?-lt (x ∷ xs) zero h = (x, refl)
get_elem?-lt (x ∷ xs) (suc i) h = get_elem?-lt xs i (omega arith)

Perm-front : {A : Type 0} (xs ys zs : List A) → Perm (xs ++ (ys ++ zs)) ((ys ++ xs) ++ zs)
Perm-front xs ys zs =
    rw (sym (append_assoc xs ys zs)) (Perm.append_right zs (perm_append_comm xs ys))

-- The quotient rounded up is large enough.
ceil-enough : (n k : ℕ) → 0 < k → n ≤ lport_per_sandbox n k * k
unfolding lport_per_sandbox
ceil-enough n k pos = grind (arith, lt-mul-div-succ (n + k - 1) pos)

ceil-pos : (n k : ℕ) → 0 < k → 0 < n → 0 < lport_per_sandbox n k
unfolding lport_per_sandbox
ceil-pos n k pos some_n = (le-div_iff_mul-le pos).1 (omega arith)

-- Where the slices end, from number `j` on.
Ends : List Sandbox → ℕ → List (List Lport) → LportSbs → Type 0
Ends sandboxes j pss sbs =
    (result : LportSbs) × (bind_slices sandboxes j pss sbs ≡ ok result)
    × Perm (bound result) (flatten pss ++ bound sbs)

Ends-cons :
    (sandboxes : List Sandbox) (sandbox : Sandbox) (j : ℕ) (ps : List Lport)
    (pss : List (List Lport)) (sbs : LportSbs)
    → get_elem? sandboxes j ≡ some sandbox
    → Ends sandboxes (j + 1) pss (bind_all sandbox ps sbs)
    → Ends sandboxes j (ps ∷ pss) sbs
unfolding Ends bind_slices
Ends-cons sandboxes sandbox j ps pss sbs found (result, runs, perm) = (
  result,
  rw (found, bind_slices) runs,
  Perm.trans perm (
      Perm.trans (Perm.append_left (flatten pss) (bound-bind_all sandbox ps sbs))
        (Perm-front (flatten pss) ps (bound sbs))),
)

bind_slices-ok :
    (sandboxes : List Sandbox) (j : ℕ) (pss : List (List Lport)) (sbs : LportSbs)
    → j + length pss ≤ length sandboxes
    → Ends sandboxes j pss sbs
unfolding Ends bind_slices
bind_slices-ok sandboxes j [] sbs le = (sbs, refl, Perm.refl (bound sbs))
bind_slices-ok sandboxes j (ps ∷ pss) sbs le =
    let found = get_elem?-lt sandboxes j (omega (arith, le)) in
    Ends-cons sandboxes found.0 j ps pss sbs found.1
      (bind_slices-ok sandboxes (j + 1) pss (bind_all found.0 ps sbs) (omega (arith, le)))

slices-Ends :
    (lports : List Lport) (sandboxes : List Sandbox)
    → 0 < length sandboxes
    → length sandboxes ≤ length lports
    → Ends sandboxes 0
        (slices (length lports) (lport_per_sandbox (length lports) (length sandboxes)) lports)
        []
slices-Ends lports sandboxes some_sandbox enough =
    let n = length lports in
    let k = length sandboxes in
    let per = lport_per_sandbox n k in
    let pos = ceil-pos n k some_sandbox (omega (arith, some_sandbox, enough)) in
    let short = length-slices n per k lports pos (ceil-enough n k some_sandbox) in
    bind_slices-ok sandboxes 0 (slices n per lports) [] (omega (arith, short))

-- A run of `spread` that returns, does nothing but draw, and binds the given ports once each.
abbrev pub SpreadsAll : List Lport → List Sandbox → World → Type 0
SpreadsAll lports sandboxes w =
    (result : LportSbs) × (draws : ℕ) × (spread lports sandboxes w
      ≡ (ok result, record w { net = record (w.net) { draws = draws } }))
    × Perm (bound result) lports

add_one : (d n : ℕ) → d + 1 + n ≡ d + suc n
add_one d n = omega arith

add_zero : (d : ℕ) → d + 0 ≡ d
add_zero d = omega arith

Ends-spread :
    (lports : List Lport) (sandboxes : List Sandbox) (w : World)
    → 0 < length sandboxes
    → length sandboxes ≤ length lports
    → Ends sandboxes 0
        (slices (length lports) (lport_per_sandbox (length lports) (length sandboxes)) lports)
        []
    → SpreadsAll lports sandboxes w
unfolding Ends spread
Ends-spread lports sandboxes w some_sandbox enough (result, runs, perm) =
    let per = lport_per_sandbox (length lports) (length sandboxes) in
    let pos =
      ceil-pos (length lports) (length sandboxes) some_sandbox
        (omega (arith, some_sandbox, enough)) in
    (
      result,
      w.net.draws,
      ground (arith, runs),
      subst (λ l. Perm (bound result) l)
          (append-nil (flatten (slices (length lports) per lports))
            ∙ flatten-slices (length lports) per lports pos (omega arith))
          perm,
    )

-- `random.choice` gives one of the elements.
abbrev pub Picks : Env → Type 0
Picks env = (n k : ℕ) → 0 < k → env.random_index n k < k

-- Each port of the list draws a sandbox.
RandomEnds : List Sandbox → List Lport → LportSbs → World → Type 0
RandomEnds sandboxes ps sbs w =
    (result : LportSbs) × (bind_random sandboxes ps sbs w
      ≡ (ok result, record w { net = record (w.net) { draws = w.net.draws + length ps } }))
    × Perm (bound result) (ps ++ bound sbs)

RandomEnds-cons :
    (sandboxes : List Sandbox) (sandbox : Sandbox) (p : Lport) (ps : List Lport) (sbs : LportSbs)
    (w : World)
    → get_elem? sandboxes (w.net.env.random_index w.net.draws (length sandboxes)) ≡ some sandbox
    → RandomEnds sandboxes ps (bind_to sandbox p sbs) (record w { net = draw w.net })
    → RandomEnds sandboxes (p ∷ ps) sbs w
unfolding RandomEnds bind_random draw
RandomEnds-cons sandboxes sandbox p ps sbs w found (result, runs, perm) = (
  result,
  rw (found, runs, add_one w.net.draws (length ps)),
  Perm.trans perm
      (Perm.trans (Perm.append_left ps (bound-bind_to sandbox p sbs)) (perm_middle ps (bound sbs))),
)

bind_random-ok :
    (sandboxes : List Sandbox) (ps : List Lport) (sbs : LportSbs) (w : World)
    → 0 < length sandboxes
    → Picks w.net.env
    → RandomEnds sandboxes ps sbs w
unfolding RandomEnds bind_random draw
bind_random-ok sandboxes [] sbs w pos picks =
    (sbs, rw (add_zero w.net.draws), Perm.refl (bound sbs))
bind_random-ok sandboxes (p ∷ ps) sbs w pos picks =
    let found =
      get_elem?-lt sandboxes (w.net.env.random_index w.net.draws (length sandboxes))
        (picks w.net.draws (length sandboxes) pos) in
    RandomEnds-cons sandboxes found.0 p ps sbs w found.1 (
      bind_random-ok sandboxes ps (bind_to found.0 p sbs) (record w { net = draw w.net }) pos picks)

RandomEnds-spread :
    (lports : List Lport) (sandboxes : List Sandbox) (w : World)
    → 0 < length sandboxes
    → length lports < length sandboxes
    → RandomEnds sandboxes lports [] w
    → SpreadsAll lports sandboxes w
unfolding RandomEnds spread
RandomEnds-spread lports sandboxes w some_sandbox few (result, runs, perm) = (
  result,
  w.net.draws + length lports,
  ground (arith, runs),
  subst (λ l. Perm (bound result) l) (append-nil lports) perm,
)

-- With a sandbox to bind to, and a random choice that is one of the sandboxes, `spread` returns
-- without an exception, does nothing but draw, and the ports that it has bound to sandboxes are the
-- given ones, once each, in some order, whether there are fewer ports than sandboxes or not.
pub spread_complete :
    (lports : List Lport) (sandboxes : List Sandbox) (w : World)
    → 0 < length sandboxes
    → Picks w.net.env
    → SpreadsAll lports sandboxes w
spread_complete lports sandboxes w some_sandbox picks =
    elim (Bool-cases (ltb (length lports) (length sandboxes))) [
      | inl few ↦
          RandomEnds-spread lports sandboxes w some_sandbox (omega (tests, few))
            (bind_random-ok sandboxes lports [] w some_sandbox picks)
      | inr enough ↦
          Ends-spread lports sandboxes w some_sandbox (ground (arith, enough))
            (slices-Ends lports sandboxes some_sandbox (ground (arith, enough)))
    ]
