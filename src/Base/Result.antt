-- ===== src/Base/Result.antt =====
-- Python's exceptions as values.
use mathlib.Core.Path.{◌≡◌, refl}
use machine_manager.Base.Text.{Text, text}

-- The exceptions that the modelled code raises, and one raised by code outside the model, which
-- carries the name of its class.
pub data Error : Type 0 where
  value_error key_error runtime_error blocked_error : Error
  foreign : Text → Error

-- `type(error).__name__`
unfoldable pub error_name : Error → Text
error_name value_error = text "ValueError"
error_name key_error = text "KeyError"
error_name runtime_error = text "RuntimeError"
error_name blocked_error = text "OutreachBlockedError"
error_name (foreign name) = name

pub data Result {ℓ} (A : Type ℓ) : Type ℓ where
  ok : A → Result A
  err : Error → Result A

abbrev pub map_result {ℓ κ} : {A : Type ℓ} {B : Type κ} → (A → B) → Result A → Result B
map_result f (ok a) = ok (f a)
map_result f (err e) = err e

pub ok_inj {ℓ} : {A : Type ℓ} {a b : A} → ok a ≡ ok b → a ≡ b
ok_inj h = cc

-- Go on with a value; an exception ends the chain.
unfoldable pub and_then {ℓ κ} : {A : Type ℓ} {B : Type κ} → Result A → (A → Result B) → Result B
and_then (ok a) f = f a
and_then (err e) f = err e

-- A chain that yields a value has yielded each value on the way.
pub and_then_ok {ℓ κ} :
    {A : Type ℓ} {B : Type κ} (r : Result A) (f : A → Result B) (b : B)
    → and_then r f ≡ ok b
    → (a : A) × (r ≡ ok a) × (f a ≡ ok b)
unfolding and_then
and_then_ok (ok a) f b h = (a, refl, h)
and_then_ok (err e) f b h = cc
