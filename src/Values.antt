-- ===== src/Values.antt =====
-- The values that YAML and JSON documents hold, and what Python's `str`, `bool`, `int` and `dict.get`
-- make of them. The parsers and printers themselves are libraries: see `Yaml`.
use veillee.Base.{
  ℕ, Bool, true, false, not, Option, none, some, List, [], ◌∷◌, if◌then◌else◌, all, ◌==◌, nat_eq,
  list_eq,
}
use veillee.Base.Text.{Text, codes, is_digit}
use veillee.Base.Decimal.{decimal, value_from}

mutual
  pub data Value : Type 0 where
    null : Value
    flag : Bool → Value
    num : ℕ → Value
    str : Text → Value
    seq : Items → Value
    mapping : Fields → Value

  pub data Items : Type 0 where
    nil : Items
    cons : Value → Items → Items

  pub data Fields : Type 0 where
    end : Fields
    field : Text → Value → Fields → Fields

-- document.get(key), and `none` for a key that is not there
unfoldable pub get_field : Text → Fields → Option Value
get_field k end = none
get_field k (field j v rest) = if j == k then some v else get_field k rest

-- document[key] = value
unfoldable pub set_field : Text → Value → Fields → Fields
set_field k v end = field k v end
set_field k v (field j w rest) = if j == k then field k v rest else field j w (set_field k v rest)

-- `raw.get(key)`, which is None for a key that is not there
abbrev pub get_or_null : Text → Fields → Value
get_or_null k fs = elim (get_field k fs) [ none ↦ null | some v ↦ v ]

-- bool(value)
abbrev pub truthy : Value → Bool
truthy null = false
truthy (flag b) = b
truthy (num n) = not (n == 0)
truthy (str []) = false
truthy (str (c ∷ s)) = true
truthy (seq nil) = false
truthy (seq (cons v vs)) = true
truthy (mapping end) = false
truthy (mapping (field k v fs)) = true

-- str(value); of a container it is the library's `repr`, which the program only prints.
unfoldable pub text_of : (Value → Text) → Value → Text
text_of repr null = codes "None"
text_of repr (flag true) = codes "True"
text_of repr (flag false) = codes "False"
text_of repr (num n) = decimal n
text_of repr (str s) = s
text_of repr (seq vs) = repr (seq vs)
text_of repr (mapping fs) = repr (mapping fs)

-- int(value) of a number, a flag or a text of digits; `none` is the ValueError or TypeError.
unfoldable pub int_of : Value → Option ℕ
int_of (num n) = some n
int_of (flag true) = some 1
int_of (flag false) = some 0
int_of (str (c ∷ s)) = if all is_digit (c ∷ s) then some (value_from 0 (c ∷ s)) else none
int_of _ = none

abbrev pub to_list : Items → List Value
to_list nil = []
to_list (cons v vs) = v ∷ to_list vs

abbrev pub of_list : List Value → Items
of_list [] = nil
of_list (v ∷ vs) = cons v (of_list vs)

-- PyYAML: `safe_load` may fail, and `safe_dump` prints in block style, keys in the order given.
pub record Yaml : Type 0 where
  pub safe_load : Text → Option Value
  pub safe_dump : Fields → Text
  pub repr : Value → Text
