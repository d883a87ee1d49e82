-- ===== src/Python/Split.antt =====
-- Python's `split`, `strip`, `rstrip`, `splitlines`, `startswith` and slices, over lists of characters.
use Prim.Native.Char.{Char, code}
use text.Mathlib.TextBridge.{of_list}
use ovn_scale_test.Prelude.{
  ℕ, ◌+◌, ◌-◌, ◌*◌, Option, none, some, ◌≡◌, refl, Bool, true, false, ◌&&◌, ◌||◌, List, [], ◌∷◌,
  ◌++◌, map, String, ◌==◌, leb, if◌then◌else◌,
}
use mathlib.Core.List.{reverse}

abbrev pub Text : Type 0
Text = List Char

-- The characters of a text.
unfoldable pub chars : String → Text
chars String.[] = []
chars (String.◌∷◌ c s) = c ∷ chars s

unfoldable pub string : Text → String
string = of_list

-- The whitespace of `str.strip`: blank, tab, newline, vertical tab, form feed and return.
unfoldable pub is_space : Char → Bool
is_space c = code c == 32 || (leb 9 (code c) && leb (code c) 13)

-- What `extend` puts before the first of the pieces.
abbrev pub extend : Char → List Text → List Text
extend c [] = (c ∷ []) ∷ []
extend c (w ∷ ws) = (c ∷ w) ∷ ws

-- `text.split(sep)` at a separator of one character: n separators make n + 1 pieces.
unfoldable pub split : ℕ → Text → List Text
split sep [] = [] ∷ []
split sep (c ∷ s) = if code c == sep then [] ∷ split sep s else extend c (split sep s)

-- The characters that end a line: newline, vertical tab, form feed, return, the separators U+001C to
-- U+001E, and U+0085, U+2028 and U+2029.
unfoldable pub is_break : Char → Bool
is_break c =
    (leb 10 (code c) && leb (code c) 13)
    || ((leb 28 (code c) && leb (code c) 30)
        || (code c == 133 || (code c == 8232 || code c == 8233)))

-- The lines of a text; a newline right after a return ends no line of its own.
unfoldable pub lines_from : Bool → Text → List Text
unfolding is_break
lines_from returned [] = []
lines_from returned (c ∷ s) =
    let rest = lines_from (code c == 13) s in
    if returned && code c == 10 then rest else if is_break c then [] ∷ rest else extend c rest

-- `text.splitlines()`: no piece after the last break.
unfoldable pub splitlines : Text → List Text
unfolding lines_from
splitlines s = lines_from false s

splitlines_example : map string (splitlines (chars "a\r\n\nb\n")) ≡ "a" ∷ "" ∷ "b" ∷ []
unfolding splitlines chars string
splitlines_example = refl

unfoldable pub lstrip : Text → Text
lstrip [] = []
lstrip (c ∷ s) = if is_space c then lstrip s else c ∷ s

unfoldable pub rstrip : Text → Text
unfolding lstrip
rstrip s = reverse (lstrip (reverse s))

unfoldable pub strip : Text → Text
unfolding lstrip rstrip
strip s = rstrip (lstrip s)

-- `text.startswith(prefix)`
unfoldable pub starts_with : Text → Text → Bool
starts_with s [] = true
starts_with [] (p ∷ ps) = false
starts_with (c ∷ s) (p ∷ ps) = code c == code p && starts_with s ps

-- Equality of texts.
unfoldable pub same : Text → Text → Bool
same [] [] = true
same [] (d ∷ t) = false
same (c ∷ s) [] = false
same (c ∷ s) (d ∷ t) = code c == code d && same s t

-- `"a\\ b"` of Python's `"\ "`.join
abbrev pub backslash_blank : String
backslash_blank = "\\ "

split_example : map string (split 45 (chars "10.0.0.1-10.0.0.2")) ≡ "10.0.0.1" ∷ "10.0.0.2" ∷ []
unfolding split chars string
split_example = refl

-- Python's `pipes.quote`: a text with a character that is not safe stands in single quotes, and a
-- single quote in it becomes `'"'"'`.
unfoldable pub is_safe : Char → Bool
is_safe c =
    (leb b'a' (code c) && leb (code c) b'z')
    || ((leb b'A' (code c) && leb (code c) b'Z')
        || ((leb b'0' (code c) && leb (code c) b'9')
            || member (code c) (64 ∷ 37 ∷ 95 ∷ 45 ∷ 43 ∷ 61 ∷ 58 ∷ 44 ∷ 46 ∷ 47 ∷ [])))
  where
    member : ℕ → List ℕ → Bool
    member n [] = false
    member n (k ∷ ks) = n == k || member n ks

unfoldable pub all_safe : Text → Bool
unfolding is_safe
all_safe [] = true
all_safe (c ∷ s) = is_safe c && all_safe s

unfoldable pub escape_quotes : Text → Text
unfolding chars
escape_quotes [] = []
escape_quotes (c ∷ s) = (if code c == 39 then chars "'\"'\"'" else c ∷ []) ++ escape_quotes s

unfoldable pub quote : String → String
unfolding all_safe escape_quotes chars string
quote file =
    if all_safe (chars file)
    then (if file_is_empty (chars file) then "''" else file)
    else string (chars "'" ++ (escape_quotes (chars file) ++ chars "'"))
  where
    file_is_empty : Text → Bool
    file_is_empty [] = true
    file_is_empty _ = false

quote_example : quote "ip4 && 'a'" ≡ "'ip4 && '\"'\"'a'\"'\"''"
unfolding quote
quote_example = refl

-- `int(text)`, for texts of digits between blanks.
unfoldable pub digits10 : ℕ → Text → Option ℕ
digits10 acc [] = some acc
digits10 acc (c ∷ s) = elim (leb b'0' (code c) && leb (code c) b'9') [
  | true ↦ digits10 (acc * 10 + (code c - b'0')) s
  | false ↦ none
]

unfoldable pub int10 : Text → Option ℕ
unfolding digits10 strip
int10 s = value (strip s)
  where
    value : Text → Option ℕ
    value [] = none
    value (c ∷ t) = digits10 0 (c ∷ t)
