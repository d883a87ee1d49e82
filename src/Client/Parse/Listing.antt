-- ===== src/Client/Parse/Listing.antt =====
-- ovsclients.py `parse_lswitch_list`: it reads back the listing that `ls-list` and `lr-list` print.
use Prim.Native.Char.{Char, code}
use mathlib.Core.List.{reverse, reverse-cons, reverse-append, reverse-reverse}
use ovn_scale_test.Prelude.{
  ℕ, false, arith, List, [], ◌∷◌, ◌++◌, map, String, ◌==◌, ◌≡◌, refl, ap, ◌∙◌, All, All-append,
}
use ovn_scale_test.Python.Split.{Text, chars, string, split, is_break, lines_from, splitlines}
use ovn_scale_test.Python.Exec.{ok}
use ovn_scale_test.Client.Parse.{lstrip_parens, strip_parens, parse_lines, parse_lswitch_list}

-- A text without the character of this code.
abbrev pub Free : ℕ → Text → Type 0
Free k = All (λ c. (code c == k) ≡ false)

-- A text of one line.
abbrev pub OneLine : Text → Type 0
OneLine = All (λ c. is_break c ≡ false)

-- An entry: an identifier and a name.
pub record Entry : Type 0 where
  pub uuid : Text
  pub name : Text

-- Neither has a blank or a character that ends a line, and the name has no parenthesis.
abbrev pub Clean : Entry → Type 0
Clean e =
    OneLine e.uuid
    × Free 32 e.uuid
    × OneLine e.name
    × Free 32 e.name
    × Free 40 e.name
    × Free 41 e.name

-- The line of an entry, without its newline, and the listing.
abbrev pub line_of : Entry → Text
line_of e = e.uuid ++ (chars " (" ++ (e.name ++ chars ")"))

abbrev pub listing : List Entry → Text
listing [] = []
listing (e ∷ es) = line_of e ++ (chars "\n" ++ listing es)

no_return : (c : Char) → is_break c ≡ false → (code c == 13) ≡ false
unfolding is_break
no_return c h = ground (arith, h)

lines_from-line :
    (w rest : Text)
    → OneLine w
    → lines_from false (w ++ (chars "\n" ++ rest)) ≡ w ∷ lines_from false rest
unfolding lines_from chars is_break
lines_from-line [] rest free = refl
lines_from-line (c ∷ w) rest (h, free) = rw (no_return c h, lines_from-line w rest free, h) refl

splitlines-line :
    (w rest : Text) → OneLine w → splitlines (w ++ (chars "\n" ++ rest)) ≡ w ∷ splitlines rest
unfolding splitlines
splitlines-line = lines_from-line

split-word : (w rest : Text) → Free 32 w → split 32 (w ++ (chars " " ++ rest)) ≡ w ∷ split 32 rest
unfolding split chars
split-word [] rest free = refl
split-word (c ∷ w) rest (h, free) = rw (h, split-word w rest free) refl

split-last : (w : Text) → Free 32 w → split 32 w ≡ w ∷ []
unfolding split
split-last [] free = refl
split-last (c ∷ w) (h, free) = rw (h, split-last w free) refl

lstrip-Free : (w : Text) → Free 40 w → Free 41 w → lstrip_parens w ≡ w
unfolding lstrip_parens
lstrip-Free [] f g = refl
lstrip-Free (c ∷ w) f g = rw (f.0, g.0) refl

Free-reverse : (k : ℕ) (w : Text) → Free k w → Free k (reverse w)
Free-reverse k [] free = tt
Free-reverse k (c ∷ w) (h, free) =
    rw (reverse-cons c w)
      (All-append (λ c. (code c == k) ≡ false) (reverse w) (c ∷ []) (Free-reverse k w free) (h, tt))

-- From the right: the closing parenthesis goes, and nothing more.
strip-right :
    (w : Text) → Free 40 w → Free 41 w → reverse (lstrip_parens (reverse (w ++ chars ")"))) ≡ w
unfolding lstrip_parens chars
strip-right w f g =
    rw
      (
        reverse-append w (chars ")"),
        lstrip-Free (reverse w) (Free-reverse 40 w f) (Free-reverse 41 w g),
      )
      (reverse-reverse w)

strip-parens : (w : Text) → Free 40 w → Free 41 w → strip_parens (chars "(" ++ (w ++ chars ")")) ≡ w
unfolding strip_parens lstrip_parens chars
strip-parens [] f g = refl
strip-parens (c ∷ w) f g = rw (f.0, g.0) (strip-right (c ∷ w) f g)

OneLine-line : (e : Entry) → Clean e → OneLine (line_of e)
unfolding chars is_break
OneLine-line e (u, v, n, p, q, r) =
    All-append (λ c. is_break c ≡ false) e.uuid (chars " (" ++ (e.name ++ chars ")")) u
      (refl, (refl, All-append (λ c. is_break c ≡ false) e.name (chars ")") n (refl, tt)))

Free-name : (e : Entry) → Clean e → Free 32 (chars "(" ++ (e.name ++ chars ")"))
unfolding chars
Free-name e (u, v, n, p, q, r) =
    (refl, All-append (λ c. (code c == 32) ≡ false) e.name (chars ")") p (refl, tt))

split-line :
    (e : Entry)
    → Clean e
    → split 32 (line_of e) ≡ e.uuid ∷ (chars "(" ++ (e.name ++ chars ")")) ∷ []
unfolding chars
split-line e clean =
    split-word e.uuid (chars "(" ++ (e.name ++ chars ")")) clean.1
    ∙ ap (λ l. e.uuid ∷ l) (split-last (chars "(" ++ (e.name ++ chars ")")) (Free-name e clean))

parse_lines-cons :
    (e : Entry) (ls : List Text) (names : List String)
    → Clean e
    → parse_lines ls ≡ ok names
    → parse_lines (line_of e ∷ ls) ≡ ok (string e.name ∷ names)
unfolding parse_lines
parse_lines-cons e ls names clean h =
    rw (split-line e clean, parse_lines, h, strip-parens e.name clean.4 clean.5) refl

parse-listing :
    (es : List Entry)
    → All Clean es
    → parse_lines (splitlines (listing es)) ≡ ok (map (λ (e : Entry). string e.name) es)
unfolding parse_lines splitlines
parse-listing [] clean = refl
parse-listing (e ∷ es) (c, clean) =
    rw (splitlines-line (line_of e) (listing es) (OneLine-line e c)) (
      parse_lines-cons e (splitlines (listing es)) (map (λ (e : Entry). string e.name) es) c
        (parse-listing es clean))

-- A listing of entries whose identifiers and names have no blank and none of the characters at
-- which `splitlines` ends a line, and whose names have no parenthesis, one line `uuid (name)` for
-- each, is parsed to the names, in order.
pub parse_lswitch_list-listing :
    (es : List Entry) (lswitch_data : String)
    → All Clean es
    → chars lswitch_data ≡ listing es
    → parse_lswitch_list lswitch_data ≡ ok (map (λ (e : Entry). string e.name) es)
unfolding parse_lswitch_list
parse_lswitch_list-listing es lswitch_data clean h = rw h (parse-listing es clean)
