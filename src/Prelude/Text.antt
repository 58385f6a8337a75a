-- ===== src/Prelude/Text.antt =====
-- Python and SQL tests on text.
use Prim.Native.Char.{Char, code}
use Prim.Native.String.{String, ◌++◌}
use Prim.Native.Nat.{ℕ, zero, suc, ◌/◌, ◌%◌}
use mathlib.Core.Bool.{Bool, true, false, ◌&&◌, ◌||◌}
use mathlib.Core.Option.{Option, none, some}
use policy_project_managemen.Prelude.Tests.{if◌then◌else◌, ◌==◌, ltb, leb}
unfoldable pub use text.Mathlib.Text.{◌==◌ as str_eq}
pub use text.Mathlib.TextEquality.{eq_iff}
pub use text.Mathlib.TextPositions.{eq_refl}

-- `bool(s)`
abbrev pub is_nonempty : String → Bool
is_nonempty String.[] = false
is_nonempty (String.◌∷◌ c s) = true

-- `bool(s)` for a text or None
abbrev pub is_truthy : Option String → Bool
is_truthy none = false
is_truthy (some s) = is_nonempty s

-- `length(trim(s)) > 0` in SQL: a character other than a space occurs
unfoldable pub has_text : String → Bool
has_text String.[] = false
has_text (String.◌∷◌ c s) = if code c == 32 then has_text s else true

-- `s[:n]`
unfoldable pub take_chars : ℕ → String → String
take_chars zero s = String.[]
take_chars (suc n) String.[] = String.[]
take_chars (suc n) (String.◌∷◌ c s) = String.◌∷◌ c (take_chars n s)

-- `c.isspace()`
abbrev is_space : ℕ → Bool
is_space c =
    leb 9 c && leb c 13
    || leb 28 c && leb c 32
    || c == 133
    || c == 160
    || c == 5760
    || leb 8192 c && leb c 8202
    || c == 8232
    || c == 8233
    || c == 8239
    || c == 8287
    || c == 12288

drop_spaces : String → String
drop_spaces String.[] = String.[]
drop_spaces (String.◌∷◌ c s) =
    let rest = drop_spaces s in if is_space (code c) then rest else String.◌∷◌ c s

cons_stripped : Bool → Char → String → String
cons_stripped true c String.[] = String.[]
cons_stripped _ c s = String.◌∷◌ c s

drop_last_spaces : String → String
unfolding cons_stripped
drop_last_spaces String.[] = String.[]
drop_last_spaces (String.◌∷◌ c s) = cons_stripped (is_space (code c)) c (drop_last_spaces s)

-- `s.strip()`
unfoldable pub strip : String → String
unfolding drop_spaces drop_last_spaces
strip s = drop_last_spaces (drop_spaces s)

-- `s <= t`, by code points
unfoldable pub text_leb : String → String → Bool
text_leb String.[] t = true
text_leb (String.◌∷◌ c s) String.[] = false
text_leb (String.◌∷◌ c s) (String.◌∷◌ d t) =
    let rest = text_leb s t in
    if ltb (code c) (code d) then true else if code c == code d then rest else false

-- The decimal digits of a number, as an f-string writes them, before `rest`.
digit : ℕ → String
digit n =
    if n == 0
    then "0"
    else if n == 1
    then "1"
    else if n == 2
    then "2"
    else if n == 3
    then "3"
    else if n == 4
    then "4"
    else if n == 5
    then "5"
    else if n == 6
    then "6"
    else if n == 7
    then "7"
    else if n == 8
    then "8"
    else "9"

digits_before : ℕ → ℕ → String → String
digits_before zero n rest = rest
digits_before (suc fuel) n rest =
    let more = digits_before fuel (n / 10) (digit (n % 10) ++ rest) in
    if ltb n 10 then digit n ++ rest else more

-- A number has fewer digits than its successor counts.
unfoldable pub decimal : ℕ → String
unfolding digit digits_before
decimal n = digits_before (suc n) n String.[]
