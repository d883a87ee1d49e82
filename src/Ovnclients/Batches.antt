-- ===== src/Ovnclients/Batches.antt =====
-- The loop that ovnclients.py and scenarios/ovn.py write out four times: a body for each item, and a
-- flush after every `batch` of them.
mod Rounds
pub mod Laws
pub mod Delivery
use ovn_scale_test.Prelude.{ℕ, ◌-◌, List, [], ◌∷◌, false, ltb, if◌then◌else◌}
use ovn_scale_test.Python.Exec.{Exec, pure, ◌>>=◌, ◌>>◌}
use ovn_scale_test.Client.{Session, enable_batch_mode}
use ovn_scale_test.Client.Nbctl.{flush}

-- `flush_count` after an item.
abbrev pub next_count : ℕ → ℕ → ℕ
next_count batch flush_count = if ltb (flush_count - 1) 1 then batch else flush_count - 1

-- `flush_count -= 1; if flush_count < 1: ovn_nbctl.flush(); flush_count = batch`
unfoldable pub flush_at : ℕ → Exec Session (Unit {0})
flush_at flush_count = if ltb (flush_count - 1) 1 then flush else pure tt

unfoldable pub each_batched :
    {A B : Type 0} → ℕ → ℕ → List A → (A → Exec Session B) → Exec Session (List B)
each_batched batch flush_count [] body = pure []
each_batched batch flush_count (x ∷ xs) body = do
  y ← body x
  flush_at flush_count
  ys ← each_batched batch (next_count batch flush_count) xs body
  pure (y ∷ ys)

-- The loop and the lines after it: `ovn_nbctl.flush()`, `ovn_nbctl.enable_batch_mode(False)`.
unfoldable pub in_batches :
    {A B : Type 0} → ℕ → List A → (A → Exec Session B) → Exec Session (List B)
in_batches batch xs body = do
  ys ← each_batched batch batch xs body
  flush
  enable_batch_mode false
  pure ys
