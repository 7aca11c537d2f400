-- ===== src/Run/Environment.antt =====
-- Round trip of `load_env_file` of manager/run.py: an entry that is written between double quotes is
-- read back as it was.
use mathlib.Core.List.{append_assoc}
use machine_manager.Base.{
  ℕ, ◌≡◌, refl, ap, ◌∙◌, subst, inl, inr, true, false, not, some, List, [], ◌∷◌, ◌++◌, ◌==◌, Bool,
  All, arith, ltb, ◌&&◌, Bool-cases, eq_of_test,
}
use machine_manager.Base.Search.{all_chars}
use machine_manager.Base.Text.{Text, text, strip, lstrip, rstrip, is_space}
use machine_manager.Run.{
  Environ, has_prefix, split_equals, split_last, unquote, set_default, is_own_key, load_pair,
  load_line, load_lines, load_env_file, is_break, split_lines,
}

-- `KEY="value"`
abbrev pub render : Text × Text → Text
render (key, value) = (key ++ 61 ∷ 34 ∷ value) ++ 34 ∷ []

-- A visible ASCII character that is no equals sign.
abbrev pub is_key_char : ℕ → Bool
is_key_char c = ltb 32 c && (ltb c 127 && not (c == 61))

-- A key that the program reads, of such characters, and a value in one line.
abbrev pub IsLoadable : Text × Text → Type 0
IsLoadable (key, value) =
    (is_own_key key ≡ true)
    × (strip key ≡ key)
    × (all_chars is_key_char key ≡ true)
    × (all_chars (λ c. not (is_break c)) value ≡ true)

-- A file with a line for each entry.
abbrev pub written : List (Text × Text) → Text
written [] = []
written (entry ∷ entries) = render entry ++ 10 ∷ written entries

abbrev pub set_defaults : List (Text × Text) → Environ → Environ
set_defaults [] env = env
set_defaults ((key, value) ∷ entries) env = set_defaults entries (set_default key value env)

rstrip_quoted : (s : Text) → rstrip (s ++ 34 ∷ []) ≡ s ++ 34 ∷ []
unfolding rstrip is_space
rstrip_quoted [] = refl
rstrip_quoted (c ∷ []) = refl
rstrip_quoted (c ∷ d ∷ s) = rw (rstrip_quoted (d ∷ s)) refl

-- A text that starts with no blank and ends with a quote keeps its ends.
strip_quoted : (c : ℕ) (s : Text) → is_space c ≡ false → strip (c ∷ s ++ 34 ∷ []) ≡ c ∷ s ++ 34 ∷ []
unfolding strip lstrip
strip_quoted c s h = rw h (rstrip_quoted (c ∷ s))

split_last-append : (s : Text) (c : ℕ) → split_last (s ++ c ∷ []) ≡ some (s, c)
unfolding split_last
split_last-append [] c = refl
split_last-append (d ∷ s) c = rw (split_last-append s c) refl

unquote_quoted : (value : Text) → unquote (34 ∷ value ++ 34 ∷ []) ≡ value
unfolding unquote
unquote_quoted value = rw (unquote, split_last-append value 34) refl

split_equals-append :
    (key value : Text)
    → all_chars is_key_char key ≡ true
    → split_equals (key ++ 61 ∷ value) ≡ some (key, value)
unfolding split_equals all_chars
split_equals-append [] value h = refl
split_equals-append (c ∷ key) value h =
    let later = split_equals-append key value (ground arith) in
    let plain : (c == 61) ≡ false = ground arith in rw (plain, later) refl

-- The first letter of a key that the program reads is no blank and no number sign.
own_key_first :
    (c : ℕ) (key : Text) → is_own_key (c ∷ key) ≡ true → (is_space c ≡ false) × ((35 == c) ≡ false)
unfolding has_prefix text is_space
own_key_first c key h = elim (Bool-cases (77 == c)) [
  | inl m ↦ subst Starts (eq_of_test 77 c m) (refl, refl)
  | inr m ↦
      let g : (71 == c) ≡ true = ground (arith, h, m) in
      subst Starts (eq_of_test 71 c g) (refl, refl)
]
  where
    Starts : ℕ → Type 0
    Starts d = (is_space d ≡ false) × ((35 == d) ≡ false)

load_quoted_pair :
    (key value : Text) (env : Environ)
    → IsLoadable (key, value)
    → load_pair (some (key, 34 ∷ value ++ 34 ∷ [])) env ≡ set_default key value env
unfolding is_space
load_quoted_pair key value env (own, kept, plain, whole) =
    rw (kept, own, strip_quoted 34 value refl, unquote_quoted value) refl

load_rendered_line :
    (key value : Text) (env : Environ)
    → IsLoadable (key, value)
    → load_line (render (key, value)) env ≡ set_default key value env
unfolding load_line has_prefix text all_chars is_space
load_rendered_line [] value env (own, _, _, _) = cc own
load_rendered_line (c ∷ key) value env (own, kept, plain, whole) =
    let (letter, unmarked) = own_key_first c key own in
    let line = append_assoc (c ∷ key) (61 ∷ 34 ∷ value) (34 ∷ []) in
    rw (load_line, strip_quoted c (key ++ 61 ∷ 34 ∷ value) letter, unmarked)
      (ap (λ t. load_pair (split_equals t) env) line
        ∙ ap (λ o. load_pair o env) (split_equals-append (c ∷ key) (34 ∷ value ++ 34 ∷ []) plain)
        ∙ load_quoted_pair (c ∷ key) value env (own, kept, plain, whole))

abbrev IsLine : Text → Type 0
IsLine s = all_chars (λ c. not (is_break c)) s ≡ true

IsLine-append : (s t : Text) → IsLine s → IsLine t → IsLine (s ++ t)
unfolding all_chars
IsLine-append [] t h k = k
IsLine-append (c ∷ s) t h k = ground (arith, IsLine-append s t)

key-IsLine : (key : Text) → all_chars is_key_char key ≡ true → IsLine key
unfolding all_chars
key-IsLine [] h = refl
key-IsLine (c ∷ key) h = let later = key-IsLine key (ground arith) in ground (arith, later)

-- A line that is written is read as one line.
split_lines-line :
    (line rest : Text) → IsLine line → split_lines (line ++ 10 ∷ rest) ≡ line ∷ split_lines rest
unfolding split_lines all_chars
split_lines-line [] rest h = refl
split_lines-line (c ∷ line) rest h =
    let plain : is_break c ≡ false = ground arith in
    let later = split_lines-line line rest (ground arith) in rw (plain, later) refl

render-IsLine : (entry : Text × Text) → IsLoadable entry → IsLine (render entry)
unfolding all_chars
render-IsLine (key, value) (own, kept, plain, whole) =
    IsLine-append (key ++ 61 ∷ 34 ∷ value) (34 ∷ [])
      (IsLine-append key (61 ∷ 34 ∷ value) (key-IsLine key plain) whole) refl

load_written :
    (entries : List (Text × Text)) (env : Environ)
    → All IsLoadable entries
    → load_lines (split_lines (written entries)) env ≡ set_defaults entries env
unfolding load_lines split_lines
load_written [] env h = refl
load_written ((key, value) ∷ entries) env h =
    rw
      (
        split_lines-line (render (key, value)) (written entries) (render-IsLine (key, value) h.0),
        load_lines,
        load_rendered_line key value env h.0,
      )
      (load_written entries (set_default key value env) h.1)

-- A file of entries that are each written `KEY="value"` in a line is read back whole: the
-- environment gets each of them under its key, the value as it was with its blanks, quotes and
-- equals signs, if the value has no line break, and the key begins with MACHINE_MANAGER_ or GITHUB_
-- and consists of visible ASCII characters other than the equals sign. A key that is set already
-- keeps its value.
pub load_env_file-render :
    (entries : List (Text × Text)) (env : Environ)
    → All IsLoadable entries
    → load_env_file (some (written entries)) env ≡ set_defaults entries env
unfolding load_env_file
load_env_file-render entries env h = load_written entries env h
