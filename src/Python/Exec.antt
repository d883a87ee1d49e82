-- ===== src/Python/Exec.antt =====
-- Methods that mutate an object and may raise: a function from the object to the result and the
-- object after it. What was done before an exception stays done.
use ovn_scale_test.Prelude.{List, [], ◌∷◌, Option, none, some, String, ℕ}

-- The exceptions that the modelled code raises, or lets through.
pub data Error : Type 0 where
  ssh_error : Error
  invalid_config : String → Error
  no_such_config_field : String → Error
  resource_not_found : String → Error
  thread_timeout : Error
  attribute_error key_error index_error type_error name_error value_error : Error
  stop_iteration address_error zero_division : Error
  system_exit : ℕ → Error

pub data Result {ℓ} (A : Type ℓ) : Type ℓ where
  ok : A → Result A
  err : Error → Result A

abbrev pub Exec : Type 0 → Type 0 → Type 0
Exec S A = S → Result A × S

abbrev pub pure : {S A : Type 0} → A → Exec S A
pure a s = (ok a, s)

abbrev pub raise : {S A : Type 0} → Error → Exec S A
raise e s = (err e, s)

abbrev pub next : {S A B : Type 0} → Result A × S → (A → Exec S B) → Result B × S
next (ok a, s) f = f a s
next (err e, s) f = (err e, s)

infixl 5 ◌>>=◌ ◌>>◌
abbrev pub ◌>>=◌ : {S A B : Type 0} → Exec S A → (A → Exec S B) → Exec S B
◌>>=◌ m f s = next (m s) f

abbrev pub ◌>>◌ : {S B : Type 0} → Exec S (Unit {0}) → Exec S B → Exec S B
m >> k = m >>= λ _. k

abbrev pub get_state : {S : Type 0} → Exec S S
get_state s = (ok s, s)

abbrev pub modify : {S : Type 0} → (S → S) → Exec S (Unit {0})
modify f s = (ok tt, f s)

-- `for x in xs: body(x)`
unfoldable pub for_each : {S A : Type 0} → List A → (A → Exec S (Unit {0})) → Exec S (Unit {0})
for_each [] body = pure tt
for_each (x ∷ xs) body = body x >> for_each xs body

-- `[body(x) for x in xs]`
unfoldable pub collect : {S A B : Type 0} → List A → (A → Exec S B) → Exec S (List B)
collect [] body = pure []
collect (x ∷ xs) body = do y ← body x; ys ← collect xs body; pure (y ∷ ys)

-- A lookup that raises on a missing key.
abbrev pub require : {S A : Type 0} → Error → Option A → Exec S A
require e none = raise e
require e (some a) = pure a

-- A pure computation that may raise.
abbrev pub lift : {S A : Type 0} → Result A → Exec S A
lift r s = (r, s)
