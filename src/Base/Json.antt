-- ===== src/Base/Json.antt =====
-- JSON values as Python reads them, and the builtins that the program applies to them: `dict.get`,
-- truth, `str`, and the `isinstance` tests.
use Prim.Native.Nat.{ℕ, zero, suc, ◌+◌, ◌/◌, ◌%◌}
use mathlib.Core.Bool.{Bool, true, false, ◌||◌}
use mathlib.Core.Option.{Option, none, some}
use mathlib.Core.List.{[], ◌∷◌, ◌++◌}
use machine_manager.Base.Tests.{ltb, if◌then◌else◌}
use machine_manager.Base.Text.{Text, text, text_eq}

mutual
  -- `negative n` is the integer -(n + 1); a float is the text that `repr` gives for it.
  pub data Json : Type 0 where
    null : Json
    boolean : Bool → Json
    integer : ℕ → Json
    negative : ℕ → Json
    float : Text → Json
    string : Text → Json
    array : Items → Json
    object : Fields → Json

  pub data Items : Type 0 where
    nil : Items
    item : Json → Items → Items

  -- A dictionary, in the order of insertion.
  pub data Fields : Type 0 where
    empty : Fields
    field : Text → Json → Fields → Fields

-- `d.get(key)`
unfoldable pub get : Text → Fields → Option Json
get key empty = none
get key (field k v rest) = if text_eq k key then some v else get key rest

-- `d.get(key, default)`
unfoldable pub get_or : Text → Json → Fields → Json
unfolding get
get_or key default d = elim (get key d) [ none ↦ default | some v ↦ v ]

-- `d[key] = value`
unfoldable pub put : Text → Json → Fields → Fields
put key value empty = field key value empty
put key value (field k v rest) =
    let later = put key value rest in if text_eq k key then field k value rest else field k v later

-- `bool(value)`
unfoldable pub truthy : Json → Bool
unfolding text text_eq
truthy null = false
truthy (boolean b) = b
truthy (integer zero) = false
truthy (integer (suc n)) = true
truthy (negative n) = true
truthy (float x) = elim (text_eq x (text "0.0") || text_eq x (text "-0.0")) [
  | true ↦ false
  | false ↦ true
]
truthy (string []) = false
truthy (string (c ∷ s)) = true
truthy (array nil) = false
truthy (array (item x xs)) = true
truthy (object empty) = false
truthy (object (field k v rest)) = true

-- `value or other`
unfoldable pub or_else : Json → Json → Json
unfolding truthy
or_else value other = if truthy value then value else other

-- A number in decimal digits, by as many rounds as the first argument.
unfoldable pub decimal : ℕ → ℕ → Text
decimal zero n = (n % 10 + 48) ∷ []
decimal (suc fuel) n =
    let rest = decimal fuel (n / 10) in
    if ltb n 10 then (n + 48) ∷ [] else rest ++ (n % 10 + 48) ∷ []

-- `str(value)`; of an array or an object it is what `repr` gives, a parameter.
unfoldable pub str : (Json → Text) → Json → Text
unfolding decimal text
str repr null = text "None"
str repr (boolean true) = text "True"
str repr (boolean false) = text "False"
str repr (integer n) = decimal n n
str repr (negative n) = text "-" ++ decimal (n + 1) (n + 1)
str repr (float x) = x
str repr (string s) = s
str repr (array xs) = repr (array xs)
str repr (object d) = repr (object d)

-- `d.get(key)` as a value, where None stands for a missing key.
abbrev pub or_null : Option Json → Json
or_null none = null
or_null (some v) = v
