-- ===== src/Deploy/Chassis/Counts.antt =====
-- The numbers that generate_chassis_ip_pairs.py reports.
use native.Mathlib.Nat.{le-div_iff_mul-le, mul-div-le, mul-le-mul_right, le_trans}
use ovn_scale_test.Prelude.{
  ℕ, zero, suc, ◌+◌, ◌-◌, ◌*◌, ◌/◌, ◌≤◌, ◌<◌, min, ◌≡◌, ◌∙◌, ◌⊎◌, sym, ap, List, [], ◌∷◌, map, sum,
  range, range_from, leb, ◌==◌, if◌then◌else◌, arith, leb→le, Bool-cases, inl, inr, true, false,
}
use ovn_scale_test.Deploy.Chassis.{chassis_index, overflow, num_sandbox}

-- How often a number is in a list.
abbrev pub times : ℕ → List ℕ → ℕ
times k [] = 0
times k (x ∷ xs) = (if x == k then 1 else 0) + times k xs

suc_times : (a b : ℕ) → suc a * b ≡ b + a * b
suc_times a b = grind arith

module _ (hosts per : ℕ) (pos : 0 < per) where
  index-cases : (k i : ℕ) → ((k ≤ i / per) × (k * per ≤ i)) ⊎ ((i / per < k) × (i < k * per))
  index-cases k i = elim (Bool-cases (leb k (i / per))) [
    | inl le ↦ let h = leb→le k (i / per) le in inl (h, (le-div_iff_mul-le {x = k} {y = i} pos).0 h)
    | inr lt ↦ inr (
      below lt,
      lt_of_not_le (k * per) i (λ h. not_both lt ((le-div_iff_mul-le {x = k} {y = i} pos).1 h)),
    )
  ]
    where
      below : leb k (i / per) ≡ false → i / per < k
      below h = ground (arith, h)

      lt_of_not_le : (a b : ℕ) → (a ≤ b → ⊥) → b < a
      lt_of_not_le a b h = ground (arith, h)

      not_both : leb k (i / per) ≡ false → k ≤ i / per → ⊥
      not_both h g = ground (arith, h, g)

  -- The addresses that are left over among `n` from the i-th on.
  overflow-range :
      (i n : ℕ) → overflow hosts per (range_from i n) ≡ (i + n - hosts * per) - (i - hosts * per)
  unfolding overflow
  overflow-range i zero = omega arith
  overflow-range i (suc n) =
      go (hosts * per) (i / per) (index-cases hosts i) (overflow-range (i + 1) n)
    where
      go :
          (t q : ℕ)
          → ((hosts ≤ q) × (t ≤ i)) ⊎ ((q < hosts) × (i < t))
          → overflow hosts per (range_from (i + 1) n) ≡ (i + 1 + n - t) - (i + 1 - t)
          → (if leb hosts q then 1 else 0) + overflow hosts per (range_from (i + 1) n)
            ≡ (i + suc n - t) - (i - t)
      go t q h e = ground (arith, h, e)

  -- The last host takes what is left over.
  sum-num_sandbox :
      (over i n : ℕ)
      → i + suc n ≡ hosts
      → sum (map (num_sandbox hosts per over) (range_from i (suc n))) ≡ suc n * per + over
  unfolding num_sandbox
  sum-num_sandbox over i zero e = ground (arith, e)
  sum-num_sandbox over i (suc n) e =
      step (sum (map (num_sandbox hosts per over) (range_from (i + 1) (suc n)))) (suc n * per)
        (suc (suc n) * per) (sum-num_sandbox over (i + 1) n (omega (arith, e))) (grind arith)
    where
      step :
          (rest m t : ℕ)
          → rest ≡ m + over
          → t ≡ per + m
          → (if i == hosts - 1 then per + over else per) + rest ≡ t + over
      step rest m t h g = ground (arith, e, h, g)

  -- How many of `n` addresses from the i-th on go to a host before the last.
  times-range :
      (k i n : ℕ)
      → suc k < hosts
      → times k (map (chassis_index hosts per) (range_from i n))
        ≡ (min (i + n) (suc k * per) - k * per) - (min i (suc k * per) - k * per)
  unfolding chassis_index
  times-range k i zero lt = ap2 (i + 0) i (omega arith)
    where
      ap2 :
          (j i : ℕ) → j ≡ i → 0 ≡ (min j (suc k * per) - k * per) - (min i (suc k * per) - k * per)
      ap2 j i e = rw e (omega arith)
  times-range k i (suc n) lt =
      step (i / per) (k * per) (suc k * per)
        (times k (map (chassis_index hosts per) (range_from (i + 1) n))) (index-cases k i)
        (index-cases (suc k) i) (grind arith) (times-range k (i + 1) n lt)
    where
      step :
          (q a b rest : ℕ)
          → ((k ≤ q) × (a ≤ i)) ⊎ ((q < k) × (i < a))
          → ((suc k ≤ q) × (b ≤ i)) ⊎ ((q < suc k) × (i < b))
          → b ≡ per + a
          → rest ≡ (min (i + 1 + n) b - a) - (min (i + 1) b - a)
          → (if (if leb hosts q then hosts - 1 else q) == k then 1 else 0) + rest
            ≡ (min (i + suc n) b - a) - (min i b - a)
      step q a b rest h1 h2 h3 h4 = ground (arith, h1, h2, h3, h4)

  -- The last host has the rest.
  times_last-range :
      (k i n : ℕ)
      → suc k ≡ hosts
      → times k (map (chassis_index hosts per) (range_from i n)) ≡ (i + n - k * per) - (i - k * per)
  unfolding chassis_index
  times_last-range k i zero lt = omega arith
  times_last-range k i (suc n) lt =
      step (i / per) (k * per) (times k (map (chassis_index hosts per) (range_from (i + 1) n)))
        (index-cases k i) (times_last-range k (i + 1) n lt)
    where
      step :
          (q a rest : ℕ)
          → ((k ≤ q) × (a ≤ i)) ⊎ ((q < k) × (i < a))
          → rest ≡ (i + 1 + n - a) - (i + 1 - a)
          → (if (if leb hosts q then hosts - 1 else q) == k then 1 else 0) + rest
            ≡ (i + suc n - a) - (i - a)
      step q a rest h1 h4 = ground (arith, lt, h1, h4)

-- With at least one host and at least one chassis per host, the numbers of chassis that the hosts are
-- told to run add up to the number of addresses.
pub num_sandbox-sum :
    (hosts num_ip : ℕ)
    → 0 < hosts
    → 0 < num_ip / hosts
    → sum (
        map
          (num_sandbox hosts (num_ip / hosts) (overflow hosts (num_ip / hosts) (range num_ip)))
          (range hosts))
      ≡ num_ip
num_sandbox-sum zero num_ip some_host pos = elim some_host [ ]
num_sandbox-sum (suc h) num_ip some_host pos =
    let per = num_ip / suc h in
    let over = overflow (suc h) per (range num_ip) in
    sum-num_sandbox (suc h) per pos over 0 h (omega arith)
    ∙ fits (suc h * per) over (mul-div-le num_ip (suc h)) (overflow-range (suc h) per pos 0 num_ip)
  where
    fits : (t over : ℕ) → t ≤ num_ip → over ≡ (0 + num_ip - t) - (0 - t) → t + over ≡ num_ip
    fits t over le e = omega (arith, le, e)

-- With at least one chassis per host, the number of chassis that a host is told to run is the number
-- of the addresses that are assigned to it, for the last host, which takes what is left over, too.
pub num_sandbox-times :
    (hosts num_ip k : ℕ)
    → 0 < num_ip / hosts
    → k < hosts
    → times k (map (chassis_index hosts (num_ip / hosts)) (range num_ip))
      ≡ num_sandbox hosts (num_ip / hosts) (overflow hosts (num_ip / hosts) (range num_ip)) k
unfolding num_sandbox
num_sandbox-times hosts num_ip k pos lt =
    let per = num_ip / hosts in
    elim (Bool-cases (k == hosts - 1)) [
      | inl last ↦
          let e : suc k ≡ hosts = last_one last in
          times_last-range hosts per pos k 0 num_ip e
          ∙ rw last (
              rest (k * per) (hosts * per) per (overflow hosts per (range num_ip)) (mul_last e)
                (mul-div-le num_ip hosts) (overflow-range hosts per pos 0 num_ip))
      | inr before ↦
          times-range hosts per pos k 0 num_ip (not_last before)
          ∙ rw before (middle (k * per) (suc k * per) per (grind arith) (fits before))
    ]
  where
    last_one : (k == hosts - 1) ≡ true → suc k ≡ hosts
    last_one h = ground (arith, lt, h)

    not_last : (k == hosts - 1) ≡ false → suc k < hosts
    not_last h = ground (arith, lt, h)

    mul_last : suc k ≡ hosts → hosts * (num_ip / hosts) ≡ num_ip / hosts + k * (num_ip / hosts)
    mul_last e = ap (λ h. h * (num_ip / hosts)) (sym e) ∙ suc_times k (num_ip / hosts)

    fits : (k == hosts - 1) ≡ false → suc k * (num_ip / hosts) ≤ num_ip
    fits h = le_trans (mul-le-mul_right (num_ip / hosts) lt) (mul-div-le num_ip hosts)

    middle :
        (a b per : ℕ) → b ≡ per + a → b ≤ num_ip → (min (0 + num_ip) b - a) - (min 0 b - a) ≡ per
    middle a b per e le = omega (arith, e, le)

    rest :
        (a t per over : ℕ)
        → t ≡ per + a
        → t ≤ num_ip
        → over ≡ (0 + num_ip - t) - (0 - t)
        → (0 + num_ip - a) - (0 - a) ≡ per + over
    rest a t per over e le o = omega (arith, e, le, o)
