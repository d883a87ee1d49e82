-- ===== src/Mac.antt =====
-- utils.py `get_random_mac`, and the base that ovnclients.py and scenarios/ovn.py take from the uuid
-- of the task.
use Prim.Native.Nat.{bit_and}
use Prim.Native.Char.{code}
use Prim.Native.String.{◌++◌ as ◌append◌}
use ovn_scale_test.Prelude.{
  ℕ, suc, ◌+◌, ◌-◌, ◌*◌, ◌≡◌, refl, ◌&&◌, List, [], ◌∷◌, ◌++◌, map, Option, none, some, String,
  ◌==◌, str_eq, leb, if◌then◌else◌, get_elem?, take,
}
use ovn_scale_test.Python.Text.{join, hex2, print_base}
use ovn_scale_test.Python.Split.{Text, chars, string, split}
use ovn_scale_test.Python.Exec.{
  Exec, Result, ok, err, value_error, index_error, require, get_state, modify, pure, lift, ◌>>=◌,
  ◌>>◌,
}
use ovn_scale_test.Env.{draw}
use ovn_scale_test.Client.{Session}

-- The value of a hexadecimal digit.
unfoldable pub hex_digit : ℕ → Option ℕ
hex_digit c =
    if leb b'0' c && leb c b'9'
    then some (c - b'0')
    else if leb b'a' c && leb c b'f'
    then some (c - b'a' + 10)
    else if leb b'A' c && leb c b'F'
    then some (c - b'A' + 10)
    else none

unfoldable pub hex_digits : ℕ → Text → Option ℕ
unfolding hex_digit
hex_digits acc [] = some acc
hex_digits acc (c ∷ s) = elim (hex_digit (code c)) [
  | none ↦ none
  | some d ↦ hex_digits (acc * 16 + d) s
]

-- The digits of a text for `int(text, 16)`: a leading `0x` is passed over.
unfoldable pub without_prefix : Text → Text
without_prefix (z ∷ x ∷ s) = if code z == b'0' && code x == b'x' then s else z ∷ x ∷ s
without_prefix s = s

-- `int(text, 16)`, for texts with neither sign nor blanks.
unfoldable pub int16 : String → Result ℕ
unfolding hex_digits without_prefix chars
int16 s = value (without_prefix (chars s))
  where
    value : Text → Result ℕ
    value [] = err value_error
    value (c ∷ r) = elim (hex_digits 0 (c ∷ r)) [ none ↦ err value_error | some n ↦ ok n ]

-- `hex(n)`
unfoldable pub hex : ℕ → String
unfolding print_base
hex n = ◌append◌ "0x" (print_base 16 (suc n) n)

-- `[i[:2] for i in uuid.split('-')]`
unfoldable pub uuid_parts : String → List String
unfolding split chars string
uuid_parts uuid = map (λ i. string (take 2 i)) (split b'-' (chars uuid))

-- `base_mac`: the first part with its lowest bit cleared, and three zeros for the fourth and on.
unfoldable pub base_mac : String → Result (List String)
unfolding uuid_parts int16 hex
base_mac uuid = start (uuid_parts uuid)
  where
    start : List String → Result (List String)
    start [] = err index_error
    start (p ∷ ps) = elim (int16 p) [
      | err e ↦ err e
      | ok n ↦ ok (hex (bit_and n 254) ∷ take 2 ps ++ ("00" ∷ "00" ∷ "00" ∷ []))
    ]

-- `int(base_mac[i], 16)`
unfoldable pub mac_byte : List String → ℕ → Exec Session ℕ
unfolding int16
mac_byte base i = do text ← require index_error (get_elem? base i); lift (int16 text)

-- `random.randint(0x00, 0xff)`
unfoldable pub random_byte : Exec Session ℕ
unfolding draw
random_byte = do
  s ← get_state
  modify (λ t. record t { net = draw t.net })
  pure (s.net.env.random_byte s.net.draws)

-- The fourth byte: the base's, if that is not "00".
unfoldable pub fourth_byte : List String → ℕ → Exec Session ℕ
unfolding mac_byte
fourth_byte base drawn = do
  text ← require index_error (get_elem? base 3)
  if str_eq text "00" then pure drawn else mac_byte base 3

unfoldable pub get_random_mac : List String → Exec Session String
unfolding mac_byte random_byte fourth_byte
get_random_mac base = do
  a ← mac_byte base 0
  b ← mac_byte base 1
  c ← mac_byte base 2
  d ← random_byte
  e ← random_byte
  f ← random_byte
  d' ← fourth_byte base d
  pure (join ":" (map hex2 (a ∷ b ∷ c ∷ d' ∷ e ∷ f ∷ [])))

base_mac_example :
    base_mac "c52f4c01-9fea-4bad-a1b6-8dbc762f4126"
    ≡ ok ("0xc4" ∷ "9f" ∷ "4b" ∷ "00" ∷ "00" ∷ "00" ∷ [])
unfolding base_mac
base_mac_example = refl
