-- ===== src/Scenario/Igmp/Last.antt =====
-- The multicast test: the last round, which may hold less than a batch.
use ovn_scale_test.Prelude.{
  ℕ, ◌≡◌, refl, sym, ap, ◌∙◌, inl, inr, List, [], ◌∷◌, ◌++◌, ◌==◌, true, Bool-cases, length,
  flatten, flatten-append, append-nil, All, arith,
}
use ovn_scale_test.Topology.{Lport}
use ovn_scale_test.Scenario.Igmp.{Iteration, Testers, close_last}
use ovn_scale_test.Scenario.Igmp.Members.{Member, StartsAll, StartsAll-append, Held}
use ovn_scale_test.Scenario.Igmp.Rounds.{memberships, Counted}

-- Every round but the last starts a batch of receivers.
abbrev pub FullButLast : ℕ → List (ℕ × Iteration) → Type 0
FullButLast batch [] = Unit
FullButLast batch (r ∷ []) = Unit
FullButLast batch (r ∷ r' ∷ rs) = (r.0 ≡ batch) × FullButLast batch (r' ∷ rs)

abbrev Full : ℕ → ℕ × Iteration → Type 0
Full batch r = (r.0 ≡ batch) × (memberships r.1 ≡ r.0)

FullButLast-every :
    (batch : ℕ) (rs : List (ℕ × Iteration)) → All (Full batch) rs → FullButLast batch rs
FullButLast-every batch [] h = tt
FullButLast-every batch (r ∷ []) h = tt
FullButLast-every batch (r ∷ r' ∷ rs) h = (h.0.0, FullButLast-every batch (r' ∷ rs) h.1)

FullButLast-append :
    (batch : ℕ) (rs : List (ℕ × Iteration)) (last : ℕ × Iteration)
    → All (Full batch) rs
    → FullButLast batch (rs ++ last ∷ [])
FullButLast-append batch [] last h = tt
FullButLast-append batch (r ∷ []) last h = (h.0.0, tt)
FullButLast-append batch (r ∷ r' ∷ rs) last h = (h.0.0, FullButLast-append batch (r' ∷ rs) last h.1)

pub close_last-FullButLast :
    (ports : List Lport) (batch n : ℕ) (t : Testers)
    → Counted ports batch n t
    → FullButLast batch (close_last t)
unfolding close_last
close_last-FullButLast ports batch n t c = elim (Bool-cases (t.total == 0)) [
  | inl empty ↦ rw empty (FullButLast-every batch t.iterations c.full)
  | inr more ↦ rw more (FullButLast-append batch t.iterations (t.total, t.current) c.full)
]

-- The rounds start these receivers, part by part.
pub record StartsParts (rounds : List (ℕ × Iteration)) (ms : List Member) : Type 0 where
  pub parts : List (List Member)
  pub order : flatten parts ≡ ms
  pub begins : StartsAll rounds parts

no_members : (ms : List Member) → length ms ≡ 0 → ms ≡ []
no_members [] h = refl
no_members (m ∷ ms) h = absurd (omega arith)

pub close_last-StartsParts :
    (ms : List Member) (t : Testers) → Held ms t → StartsParts (close_last t) ms
unfolding close_last
close_last-StartsParts ms t h = elim (Bool-cases (t.total == 0)) [
  | inl empty ↦
      let none_open : h.open_part ≡ [] = no_members h.open_part (sym h.now.0 ∙ zero_total empty) in
      rw empty (record {
        parts = h.parts;
        order =
            sym (append-nil (flatten h.parts))
            ∙ ap (λ l. flatten h.parts ++ l) (sym none_open)
            ∙ h.order;
        begins = h.rounds;
      })
  | inr more ↦ rw more (record {
    parts = h.parts ++ h.open_part ∷ [];
    order =
        flatten-append h.parts (h.open_part ∷ [])
        ∙ ap (λ l. flatten h.parts ++ l) (append-nil h.open_part)
        ∙ h.order;
    begins = StartsAll-append t.iterations h.parts (t.total, t.current) h.open_part h.rounds h.now;
  })
]
  where
    zero_total : (t.total == 0) ≡ true → t.total ≡ 0
    zero_total e = ground (arith, e)
