-- ===== src/Python/Text.antt =====
-- Python's `str.join`, `%` and `format`, the truth of an optional text, and printed numbers.
use Prim.Native.String.{◌++◌ as ◌append◌}
use ovn_scale_test.Prelude.{
  ℕ, zero, suc, ◌/◌, ◌%◌, ◌≡◌, refl, Bool, true, false, not, Option, none, some, List, [], ◌∷◌,
  String, str_eq, if◌then◌else◌, ltb, get_elem?,
}

-- A formatted text is the list of its pieces.
unfoldable pub concat : List String → String
concat [] = ""
concat (s ∷ ss) = ◌append◌ s (concat ss)

-- `sep.join(words)`
unfoldable pub join : String → List String → String
join sep [] = ""
join sep (s ∷ []) = s
join sep (s ∷ t ∷ ss) = ◌append◌ s (◌append◌ sep (join sep (t ∷ ss)))

-- The truth of a value that is a text or `None`.
abbrev pub given : Option String → Bool
given none = false
given (some s) = not (str_eq s "")

-- `"%s" % value`
abbrev pub text_of : Option String → String
text_of none = "None"
text_of (some s) = s

-- The digit `d` of a number printed in a base up to 16.
unfoldable pub digit : ℕ → String
digit d = elim (get_elem? digits d) [ none ↦ "" | some s ↦ s ]
  where
    digits : List String
    digits =
        "0" ∷ "1" ∷ "2" ∷ "3" ∷ "4" ∷ "5" ∷ "6" ∷ "7" ∷ "8" ∷ "9" ∷ "a" ∷ "b" ∷ "c" ∷ "d" ∷ "e"
        ∷ "f" ∷ []

-- On fuel: a number has at most as many digits as its value and one more.
unfoldable pub print_base : ℕ → ℕ → ℕ → String
unfolding digit
print_base base zero n = ""
print_base base (suc fuel) n = elim (ltb n base) [
  | true ↦ digit n
  | false ↦ ◌append◌ (print_base base fuel (n / base)) (digit (n % base))
]

-- `str(n)` and `"%d" % n`
unfoldable pub str : ℕ → String
unfolding print_base
str n = print_base 10 (suc n) n

-- `"%02x" % n`
unfoldable pub hex2 : ℕ → String
unfolding print_base
hex2 n = if ltb n 16 then ◌append◌ "0" (print_base 16 (suc n) n) else print_base 16 (suc n) n

str_example : str 2048 ≡ "2048"
unfolding str
str_example = refl

hex2_example : concat (hex2 10 ∷ ":" ∷ hex2 254 ∷ []) ≡ "0a:fe"
unfolding hex2 concat
hex2_example = refl

join_example : join " " ("ls-add" ∷ "sw0" ∷ []) ≡ "ls-add sw0"
unfolding join
join_example = refl
