-- ===== src/Client/Parse.antt =====
-- ovsclients.py: what the output of `ovn-nbctl show`, `ls-list` and `lr-list` says.
pub mod Listing
use Prim.Native.Char.{code}
use ovn_scale_test.Prelude.{
  ℕ, Bool, true, false, List, [], ◌∷◌, ◌++◌, Option, none, some, String, ◌==◌, get_elem?,
  if◌then◌else◌, ◌||◌,
}
use mathlib.Core.List.{reverse}
use ovn_scale_test.Python.Split.{Text, chars, string, split, splitlines, strip, starts_with, same}
use ovn_scale_test.Python.Exec.{Result, ok, err, index_error, address_error}
use ovn_scale_test.Env.{IpNetwork}

-- `{"name", "uuid", "lports", "cidr"}`; no CIDR is `""` in the source.
pub record ShownSwitch : Type 0 where
  pub name : Text
  pub uuid : Text
  pub lports : List Text
  pub cidr : Option IpNetwork

-- `text[1:-1]`
unfoldable pub inner : Text → Text
inner [] = []
inner (c ∷ s) = reverse (without_first (reverse s))
  where
    without_first : Text → Text
    without_first [] = []
    without_first (d ∷ t) = t

-- `re.sub("\(lswitch_|\)", "", text)`: every `(lswitch_` and every `)` goes. `skip` characters of a
-- match are still to be passed over.
unfoldable pub erase_marks : ℕ → Text → Text
unfolding starts_with chars
erase_marks skip [] = []
erase_marks (ℕ.suc skip) (c ∷ s) = erase_marks skip s
erase_marks ℕ.zero (c ∷ s) =
    if starts_with (c ∷ s) (chars "(lswitch_")
    then erase_marks 8 s
    else (let rest = erase_marks 0 s in if code c == 41 then rest else c ∷ rest)

-- The CIDR in a switch's name: netaddr raises where it is none.
unfoldable pub cidr_of : (String → Option IpNetwork) → Text → Result (Option IpNetwork)
unfolding erase_marks string
cidr_of parse_network token = parsed (erase_marks 0 token)
  where
    parsed : Text → Result (Option IpNetwork)
    parsed [] = ok none
    parsed (c ∷ s) = elim (parse_network (string (c ∷ s))) [
      | none ↦ err address_error
      | some n ↦ ok (some n)
    ]

-- The list of switches so far, the newest first, and whether `lswitch` is that newest one.
pub record ShowState : Type 0 where
  pub found : List ShownSwitch
  pub current : Bool

-- `lswitch["lports"].append({"name": name})`
unfoldable pub add_lport : Text → List ShownSwitch → List ShownSwitch
add_lport name [] = []
add_lport name (w ∷ ws) = record w { lports = w.lports ++ name ∷ [] } ∷ ws

-- The branch for a line that begins with `switch`.
unfoldable pub show_switch : (String → Option IpNetwork) → List Text → ShowState → Result ShowState
unfolding starts_with chars cidr_of inner
show_switch parse_network tokens st = elim (get_elem? tokens 2) [
  | none ↦ err index_error
  | some token ↦
      (if starts_with token (chars "(lswitch_")
        then elim (cidr_of parse_network token) [
          | err e ↦ err e
          | ok cidr ↦ elim (get_elem? tokens 1) [
            | none ↦ err index_error
            | some uuid ↦ ok (record {
              found =
                  record { name = inner token; uuid = uuid; lports = []; cidr = cidr } ∷ st.found;
              current = true;
            })
          ]
        ]
        else ok (record st { current = false }))
]

-- The branch for a line that begins with `port`, below a switch.
unfoldable pub show_port : List Text → ShowState → Result ShowState
unfolding inner add_lport
show_port tokens st = elim (get_elem? tokens 1) [
  | none ↦ err index_error
  | some token ↦ ok (record st { found = add_lport (inner token) st.found })
]

-- One round of the loop over the lines.
unfoldable pub show_line : (String → Option IpNetwork) → Text → ShowState → Result ShowState
unfolding strip split same chars show_switch show_port
show_line parse_network line st = by_token (split 32 (strip line))
  where
    by_token : List Text → Result ShowState
    by_token [] = err index_error
    by_token (t ∷ ts) =
        if same t (chars "switch")
        then show_switch parse_network (t ∷ ts) st
        else if same t (chars "port")
        then (if st.current then show_port (t ∷ ts) st else ok st)
        else ok st

unfoldable pub show_lines : (String → Option IpNetwork) → List Text → ShowState → Result ShowState
unfolding show_line
show_lines parse_network [] st = ok st
show_lines parse_network (l ∷ ls) st = elim (show_line parse_network l st) [
  | err e ↦ err e
  | ok st' ↦ show_lines parse_network ls st'
]

unfoldable pub get_lswitch_info : (String → Option IpNetwork) → Text → Result (List ShownSwitch)
unfolding show_lines splitlines
get_lswitch_info parse_network info =
    elim (show_lines parse_network (splitlines info) (record { found = []; current = false })) [
      | err e ↦ err e
      | ok st ↦ ok (reverse st.found)
    ]

-- `text.strip('()')`
unfoldable pub lstrip_parens : Text → Text
lstrip_parens [] = []
lstrip_parens (c ∷ s) = if code c == 40 || code c == 41 then lstrip_parens s else c ∷ s

unfoldable pub strip_parens : Text → Text
unfolding lstrip_parens
strip_parens s = reverse (lstrip_parens (reverse (lstrip_parens s)))

unfoldable pub parse_lines : List Text → Result (List String)
unfolding split strip_parens string
parse_lines [] = ok []
parse_lines (l ∷ ls) =
    let rest = parse_lines ls in
    elim (get_elem? (split 32 l) 1) [
      | none ↦ err index_error
      | some t ↦ elim rest [ err e ↦ err e | ok names ↦ ok (string (strip_parens t) ∷ names) ]
    ]

-- `parse_lswitch_list`: the names.
unfoldable pub parse_lswitch_list : String → Result (List String)
unfolding parse_lines splitlines chars
parse_lswitch_list lswitch_data = parse_lines (splitlines (chars lswitch_data))
