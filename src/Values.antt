-- ===== src/Values.antt =====
-- utils.py `py_to_val` and ovsclients.py `set_colval_args`: column values as arguments of a command.
use ovn_scale_test.Prelude.{
  ℕ, Bool, true, List, [], ◌∷◌, ◌++◌, map, String, str_eq, if◌then◌else◌, ◌≡◌, refl,
}
use ovn_scale_test.Python.Text.{concat, join, str}
use ovn_scale_test.Python.Exec.{Result, ok, err, type_error}

-- The values that a column takes: Python's `bool`, `str` and `int`.
pub data Scalar : Type 0 where
  truth : Bool → Scalar
  text : String → Scalar
  number : ℕ → Scalar

pub data Value : Type 0 where
  scalar : Scalar → Value
  mapping : List (String × Scalar) → Value
  sequence : List Scalar → Value

-- An entry `(col, op, val)`; `(col, val)` has the operator `=`.
pub record Column : Type 0 where
  pub col : String
  pub op : String
  pub val : Value

abbrev pub column : String → Value → Column
column col val = record { col = col; op = "="; val = val }

unfoldable pub py_to_val : Scalar → Scalar
py_to_val (truth b) = text (if b then "true" else "false")
py_to_val (text s) = if str_eq s "" then text "\"\"" else text s
py_to_val (number n) = number n

-- `"%s" % value`
unfoldable pub show_scalar : Scalar → String
show_scalar (truth b) = if b then "True" else "False"
show_scalar (text s) = s
show_scalar (number n) = str n

-- An element for `",".join`, which raises on a number.
unfoldable pub need_text : Scalar → Result String
need_text (text s) = ok s
need_text _ = err type_error

unfoldable pub need_texts : List Scalar → Result (List String)
unfolding need_text
need_texts [] = ok []
need_texts (v ∷ vs) = add (need_text v) (need_texts vs)
  where
    add : Result String → Result (List String) → Result (List String)
    add (ok s) (ok ss) = ok (s ∷ ss)
    add (err e) r = err e
    add (ok s) (err e) = err e

unfoldable pub pair_args : String → String → List (String × Scalar) → List String
unfolding show_scalar py_to_val concat
pair_args col op [] = []
pair_args col op ((k, v) ∷ kvs) =
    concat (col ∷ ":" ∷ k ∷ op ∷ show_scalar (py_to_val v) ∷ []) ∷ pair_args col op kvs

unfoldable pub column_args : String → String → Value → Result (List String)
unfolding pair_args need_texts
column_args col op (mapping kvs) = ok (pair_args col op kvs)
column_args col op (sequence []) = ok (concat (col ∷ op ∷ "[]" ∷ []) ∷ [])
column_args col op (sequence (v ∷ vs)) = elim (need_texts (map py_to_val (v ∷ vs))) [
  | ok ss ↦ ok (concat (col ∷ op ∷ join "," ss ∷ []) ∷ [])
  | err e ↦ err e
]
column_args col op (scalar v) = ok (concat (col ∷ op ∷ show_scalar (py_to_val v) ∷ []) ∷ [])

abbrev pub append_result : Result (List String) → Result (List String) → Result (List String)
append_result (ok xs) (ok ys) = ok (xs ++ ys)
append_result (err e) r = err e
append_result (ok xs) (err e) = err e

unfoldable pub set_colval_args : List Column → Result (List String)
unfolding column_args
set_colval_args [] = ok []
set_colval_args (c ∷ cs) = append_result (column_args c.col c.op c.val) (set_colval_args cs)

options_example :
    set_colval_args (
      column "options" (mapping (("router-port", text "sw0") ∷ []))
      ∷ column "up" (scalar (truth true))
      ∷ column "ports" (sequence [])
      ∷ [])
    ≡ ok ("options:router-port=sw0" ∷ "up=true" ∷ "ports=[]" ∷ [])
unfolding set_colval_args concat
options_example = refl
