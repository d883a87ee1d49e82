-- ===== src/Scenario/Sandboxes/Plan.antt =====
-- The batches in which sandboxes are started.
use ovn_scale_test.Prelude.{
  ℕ, zero, suc, ◌+◌, ◌-◌, ◌<◌, ◌≤◌, min, ◌≡◌, refl, ap, ◌∙◌, ◌++◌, ltb, ◌==◌, Bool-cases, inl, inr,
  true, false, range, range_from, flatten, length, length-range_from, range_from-append, All,
  append-nil, arith,
}
use ovn_scale_test.Scenario.Sandboxes.{host_plan, plan}

host_plan-covers :
    (amount batch fuel i left : ℕ)
    → 0 < batch
    → left ≡ min batch (amount - i)
    → amount ≤ i + fuel
    → flatten (host_plan amount batch fuel i left) ≡ range_from i (amount - i)
unfolding host_plan
host_plan-covers amount batch zero i left pos e le = rw (nothing_left) refl
  where
    nothing_left : amount - i ≡ 0
    nothing_left = omega (arith, le)
host_plan-covers amount batch (suc fuel) i left pos e le = elim (Bool-cases (ltb i amount)) [
  | inr done ↦ rw (done, over done) refl
  | inl more ↦ elim (Bool-cases (min batch (amount - (i + left)) == 0)) [
    | inl last ↦
        rw (more, last) (append-nil (range_from i left) ∙ ap (range_from i) (exact last more))
    | inr going ↦
        rw (more, going)
          (ap (λ l. range_from i left ++ l)
              (host_plan-covers amount batch fuel (i + left) (min batch (amount - (i + left))) pos
                refl (enough more))
            ∙ range_from-append i left (amount - (i + left))
            ∙ ap (range_from i) (whole more))
  ]
]
  where
    over : ltb i amount ≡ false → amount - i ≡ 0
    over h = ground (arith, h)

    exact : (min batch (amount - (i + left)) == 0) ≡ true → ltb i amount ≡ true → left ≡ amount - i
    exact h g = ground (arith, h, g, e, pos)

    enough : ltb i amount ≡ true → amount ≤ i + left + fuel
    enough h = ground (arith, h, e, pos, le)

    whole : ltb i amount ≡ true → left + (amount - (i + left)) ≡ amount - i
    whole h = ground (arith, h, e, pos)

host_plan-small :
    (amount batch fuel i left : ℕ)
    → left ≤ batch
    → All (λ r. length r ≤ batch) (host_plan amount batch fuel i left)
unfolding host_plan
host_plan-small amount batch zero i left le = tt
host_plan-small amount batch (suc fuel) i left le = elim (Bool-cases (ltb i amount)) [
  | inr done ↦ rw done tt
  | inl more ↦ elim (Bool-cases (min batch (amount - (i + left)) == 0)) [
    | inl last ↦ rw (more, last) (rw (length-range_from i left) le, tt)
    | inr going ↦
        rw (more, going)
          (
            rw (length-range_from i left) le,
            host_plan-small amount batch fuel (i + left) (min batch (amount - (i + left)))
                (omega arith),
          )
  ]
]

-- With a positive batch the rounds of `_create_sandbox` take every position of the range from the
-- first to the one before `amount`, once each and in order, and no round takes more than a batch.
pub plan_covers :
    (amount batch : ℕ)
    → 0 < batch
    → (flatten (plan amount batch) ≡ range amount) × All (λ r. length r ≤ batch) (plan amount batch)
unfolding plan
plan_covers amount batch pos = (
  host_plan-covers amount batch amount 0 (min batch amount) pos (omega arith) (omega arith)
      ∙ ap (range_from 0) (sub_zero amount),
  host_plan-small amount batch amount 0 (min batch amount) (omega arith),
)
  where
    sub_zero : (n : ℕ) → n - 0 ≡ n
    sub_zero n = omega arith
