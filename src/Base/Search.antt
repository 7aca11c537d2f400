-- ===== src/Base/Search.antt =====
-- The regular expressions of the program that are simple enough to write out: literals without
-- regard to case, assignments, and character classes.
use Prim.Native.Nat.{ℕ, ◌+◌}
use mathlib.Core.Bool.{Bool, true, false, ◌&&◌, ◌||◌}
use mathlib.Core.Option.{Option, none, some}
use mathlib.Core.List.{[], ◌∷◌}
use machine_manager.Base.Tests.{leb, ◌==◌, if◌then◌else◌}
use machine_manager.Base.Text.{Text, lstrip}

abbrev pub is_letter : ℕ → Bool
is_letter c = (leb 65 c && leb c 90) || (leb 97 c && leb c 122)

abbrev pub is_alphanumeric : ℕ → Bool
is_alphanumeric c = is_letter c || (leb 48 c && leb c 57)

-- The letter that a code point matches without regard to case; U+017F and U+212A match s and k.
abbrev pub fold_case : ℕ → ℕ
fold_case c =
    if leb 65 c && leb c 90
    then c + 32
    else if c == 0x17f
    then 115
    else if c == 0x212a
    then 107
    else c

-- A literal at the start of a text, without regard to case, and what is behind it.
unfoldable pub after_literal : Text → Text → Option Text
after_literal [] s = some s
after_literal (p ∷ ps) [] = none
after_literal (p ∷ ps) (c ∷ s) =
    let rest = after_literal ps s in if fold_case c == p then rest else none

-- `[:=]`
abbrev starts_with_assign : Text → Bool
starts_with_assign [] = false
starts_with_assign (c ∷ s) = c == 58 || c == 61

-- `literal\s*[:=]` at the start of a text.
unfoldable pub assigns : Text → Text → Bool
unfolding after_literal
assigns literal s = elim (after_literal literal s) [
  | none ↦ false
  | some t ↦ starts_with_assign (lstrip t)
]

unfoldable pub starts_with : Text → Text → Bool
unfolding after_literal
starts_with literal s = elim (after_literal literal s) [ none ↦ false | some t ↦ true ]

unfoldable pub all_chars : (ℕ → Bool) → Text → Bool
all_chars p [] = true
all_chars p (c ∷ s) = p c && all_chars p s

-- `re.search` of a pattern that matches no empty text, given where it matches at the start.
unfoldable pub found_in : (Text → Bool) → Text → Bool
found_in here [] = false
found_in here (c ∷ s) = here (c ∷ s) || found_in here s
