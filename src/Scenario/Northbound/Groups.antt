-- ===== src/Scenario/Northbound/Groups.antt =====
-- scenarios/ovn_nb.py: which port creates a network policy or a name space.
use native.Mathlib.Nat.{mul-le-mul_left}
use ovn_scale_test.Prelude.{
  ℕ, zero, suc, ◌+◌, ◌*◌, ◌-◌, ◌/◌, ◌%◌, ◌<◌, ◌≤◌, true, Bool-cases, ◌⊎◌, inl, inr, ◌≡◌, ◌≢◌, refl,
  ap, ◌∙◌, ◌==◌, ◌↔◌, ==_iff, arith,
}
use ovn_scale_test.Scenario.Northbound.{group_of, creates_group, policy_index}

first_of : (size index j : ℕ) → 0 < size → index % size ≡ 0 → j < index → j / size ≢ index / size
first_of size index j pos h less e = grind arith

later_of : (size index : ℕ) → 0 < size → index % size ≢ 0 → (index - 1) / size ≡ index / size
later_of size index pos h = grind arith

-- One port comes before another: in an earlier iteration, or earlier in the same one.
abbrev pub Earlier : ℕ → ℕ → ℕ → ℕ → Type 0
Earlier iteration' i' iteration i = (iteration' < iteration) ⊎ ((iteration' ≡ iteration) × (i' < i))

index_grows :
    (batch iteration' i' iteration i : ℕ)
    → i' < batch
    → Earlier iteration' i' iteration i
    → policy_index batch iteration' i' < policy_index batch iteration i
unfolding policy_index
index_grows batch iteration' i' iteration i bound (inl less) =
    let gap : batch * (iteration' + 1) ≤ batch * iteration =
      mul-le-mul_left batch (omega (arith, less)) in
    omega (arith, gap, mul_suc batch iteration', bound)
  where
    mul_suc : (b n : ℕ) → b * (n + 1) ≡ b * n + b
    mul_suc b n = grind arith
index_grows batch iteration' i' iteration i bound (inr (same, less)) = rw same (omega (arith, less))

-- The port before a port that is not the first of all.
record Before (batch iteration i : ℕ) : Type 0 where
  iteration' : ℕ
  i' : ℕ
  within : i' < batch
  earlier : Earlier iteration' i' iteration i
  index : policy_index batch iteration' i' ≡ policy_index batch iteration i - 1

before :
    (batch iteration i : ℕ)
    → i < batch
    → policy_index batch iteration i ≢ 0
    → Before batch iteration i
unfolding policy_index
before batch iteration (suc i) bound h = record {
  iteration' = iteration;
  i' = i;
  within = omega (arith, bound);
  earlier = inr (refl, omega arith);
  index = omega arith;
}
before batch zero zero bound h = absurd (h (grind arith))
before batch (suc n) zero bound h = record {
  iteration' = n;
  i' = batch - 1;
  within = omega (arith, bound);
  earlier = inl (omega arith);
  index = omega (arith, bound, mul_suc batch n);
}
  where
    mul_suc : (b n : ℕ) → b * suc n ≡ b * n + b
    mul_suc b n = grind arith

zero_first : (size : ℕ) → 0 < size → 0 % size ≡ 0
zero_first size pos = grind arith

-- With a positive size and iterations of `batch` ports each, the index of a port, which counts
-- the ports of all iterations, creates its group exactly where no index of a port that comes
-- before it, in its own iteration or an earlier one, is in this group.
pub creates_group_first :
    (size batch iteration i : ℕ)
    → 0 < size
    → i < batch
    → (creates_group size (policy_index batch iteration i) ≡ true) ↔ (
        (iteration' i' : ℕ)
        → i' < batch
        → Earlier iteration' i' iteration i
        → group_of size (policy_index batch iteration' i')
          ≢ group_of size (policy_index batch iteration i))
unfolding creates_group group_of
creates_group_first size batch iteration i pos bound =
    let index = policy_index batch iteration i in
    (
      λ e iteration' i' bound' earlier.
          first_of size index (policy_index batch iteration' i') pos ((==_iff (index % size) 0).0 e)
            (index_grows batch iteration' i' iteration i bound' earlier),
      λ h. elim (Bool-cases (index % size == 0)) [
        | inl e ↦ e
        | inr e ↦
            let rest : index % size ≢ 0 = λ z. cc ((==_iff (index % size) 0).1 z) in
            let some_before : index ≢ 0 = λ z. rest (rw z (zero_first size pos)) in
            let b = before batch iteration i bound some_before in
            absurd (
              h b.iteration' b.i' b.within b.earlier
                (ap (λ (j : ℕ). j / size) b.index ∙ later_of size index pos rest))
      ],
    )
