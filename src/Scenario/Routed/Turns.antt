-- ===== src/Scenario/Routed/Turns.antt =====
-- Which sandboxes the iterations use.
use native.Mathlib.Nat.{mod-lt}
use ovn_scale_test.Prelude.{
  ℕ, zero, suc, ◌+◌, ◌-◌, ◌*◌, ◌%◌, ◌<◌, ◌≡◌, refl, sym, ap, ◌∙◌, List, [], ◌∷◌, ◌++◌, ◌==◌, false,
  none, some, map, length, get_elem?, flatten, range_from, range_from-append, arith,
}
use ovn_scale_test.Python.Exec.{ok}
use ovn_scale_test.Topology.{Sandbox}
use ovn_scale_test.Scenario.Routed.{turns, sandboxes_at}

abbrev pub nth_or : {A : Type 0} → A → List A → ℕ → A
nth_or a xs i = elim (get_elem? xs i) [ none ↦ a | some x ↦ x ]

-- The sandbox at a position, where the sandboxes `s ∷ ss` are gone through again and again.
abbrev pub turn_of : Sandbox → List Sandbox → ℕ → Sandbox
turn_of s ss position = nth_or s (s ∷ ss) (position % length (s ∷ ss))

within :
    {A : Type 0} (a : A) (xs : List A) (i : ℕ)
    → i < length xs
    → get_elem? xs i ≡ some (nth_or a xs i)
within a [] i h = elim h [ ]
within a (x ∷ xs) zero h = refl
within a (x ∷ xs) (suc i) h = within a xs i (omega arith)

sandboxes_at-turn_of :
    (s : Sandbox) (ss : List Sandbox) (positions : List ℕ)
    → sandboxes_at (s ∷ ss) positions ≡ ok (map (turn_of s ss) positions)
unfolding sandboxes_at
sandboxes_at-turn_of s ss [] = refl
sandboxes_at-turn_of s ss (i ∷ is) =
    rw
      (
        within s (s ∷ ss) (i % length (s ∷ ss)) (mod-lt i (omega arith)),
        sandboxes_at-turn_of s ss is,
        nonzero (length ss),
      )
      refl
  where
    nonzero : (n : ℕ) → (suc n == 0) ≡ false
    nonzero n = ground arith

turns-range :
    (iteration amount : ℕ) → turns iteration amount ≡ range_from (iteration * amount) amount
unfolding turns
turns-range iteration amount = ap (range_from (iteration * amount)) (all iteration amount)
  where
    all : (n a : ℕ) → (n + 1) * a - n * a ≡ a
    all n a = let e : (n + 1) * a ≡ n * a + a = grind arith in omega (arith, e)

positions-flatten :
    (k n amount : ℕ)
    → flatten (map (λ i. range_from (i * amount) amount) (range_from k n))
      ≡ range_from (k * amount) (n * amount)
positions-flatten k zero amount = rw (mul_zero amount)
  where
    mul_zero : (a : ℕ) → 0 * a ≡ 0
    mul_zero a = omega arith
positions-flatten k (suc n) amount =
    ap (λ l. range_from (k * amount) amount ++ l) (positions-flatten (k + 1) n amount)
    ∙ rw (next k amount, all n amount) (range_from-append (k * amount) amount (n * amount))
  where
    next : (k a : ℕ) → (k + 1) * a ≡ k * a + a
    next k a = grind arith

    all : (n a : ℕ) → suc n * a ≡ a + n * a
    all n a = grind arith

map-append : {A B : Type 0} (f : A → B) (xs ys : List A) → map f (xs ++ ys) ≡ map f xs ++ map f ys
map-append f [] ys = refl
map-append f (x ∷ xs) ys = ap (λ l. f x ∷ l) (map-append f xs ys)

flatten-map :
    {A B : Type 0} (f : A → B) (parts : ℕ → List A) (is : List ℕ)
    → flatten (map (λ i. map f (parts i)) is) ≡ map f (flatten (map parts is))
flatten-map f parts [] = refl
flatten-map f parts (i ∷ is) =
    ap (λ l. map f (parts i) ++ l) (flatten-map f parts is)
    ∙ sym (map-append f (parts i) (flatten (map parts is)))

-- What the iterations of `_create_routed_network` take.
pub record TakesTurns (s : Sandbox) (ss : List Sandbox) (amount : ℕ) : Type 0 where
  pub taken : ℕ → List Sandbox
  pub returns : (i : ℕ) → sandboxes_at (s ∷ ss) (turns i amount) ≡ ok (taken i)
  pub order :
      (k n : ℕ)
      → flatten (map taken (range_from k n))
        ≡ map (turn_of s ss) (range_from (k * amount) (n * amount))

-- With a sandbox to take, every iteration of `_create_routed_network` finds its sandboxes, as
-- many as the amount of switches; those of consecutive iterations, one after the other, are the
-- sandboxes in turn, each at its position modulo their number, with no position left out or taken
-- twice.
pub turns-flatten : (s : Sandbox) (ss : List Sandbox) (amount : ℕ) → TakesTurns s ss amount
turns-flatten s ss amount = record {
  taken = λ i. map (turn_of s ss) (range_from (i * amount) amount);
  returns = λ i.
      ap (sandboxes_at (s ∷ ss)) (turns-range i amount)
      ∙ sandboxes_at-turn_of s ss (range_from (i * amount) amount);
  order = λ k n.
      flatten-map (turn_of s ss) (λ i. range_from (i * amount) amount) (range_from k n)
      ∙ ap (map (turn_of s ss)) (positions-flatten k n amount);
}
