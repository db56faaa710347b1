-- ===== src/Base/Text.antt =====
-- Texts as the program uses them: equality tests, emptiness and `strings.TrimSpace`.
use Prim.Native.Nat.{ℕ, ◌+◌}
use Prim.Native.Char.{Char, code}
use Prim.Native.String
use Prim.Native.String.{String}
use mathlib.Core.Path.{◌≡◌, refl, ◌∙◌, ap}
use mathlib.Core.Bool.{Bool, true, false, not, ◌&&◌, ◌||◌}
use native.Mathlib.Omega.{arith}
use autostream_discord_bot.Base.Tests.{leb, ◌==◌, if◌then◌else◌}

abbrev pub is_empty : String → Bool
is_empty String.[] = true
is_empty (String.◌∷◌ c s) = false

-- `unicode.IsSpace`.
unfoldable pub is_space : Char → Bool
is_space c =
    let n = code c in
    (leb 9 n && leb n 13)
    || n == 32
    || n == 0x85
    || n == 0xa0
    || n == 0x1680
    || (leb 0x2000 n && leb n 0x200a)
    || n == 0x2028
    || n == 0x2029
    || n == 0x202f
    || n == 0x205f
    || n == 0x3000

unfoldable pub trim_left : String → String
unfolding is_space
trim_left String.[] = ""
trim_left (String.◌∷◌ c s) = if is_space c then trim_left s else String.◌∷◌ c s

-- A character is dropped when it is white space and nothing is left behind it.
abbrev pub drop_blank : Char → String → String
drop_blank c rest = if is_space c && is_empty rest then "" else String.◌∷◌ c rest

unfoldable pub trim_right : String → String
unfolding is_space
trim_right String.[] = ""
trim_right (String.◌∷◌ c s) = drop_blank c (trim_right s)

-- `strings.TrimSpace`.
unfoldable pub trim : String → String
unfolding trim_left trim_right
trim s = trim_right (trim_left s)

trim_test : trim " \t ab c \n" ≡ "ab c"
unfolding trim
trim_test = refl

drop_blank-trim :
    (c : Char) (s : String) → trim_right s ≡ s → trim_right (drop_blank c s) ≡ drop_blank c s
unfolding trim_right
drop_blank-trim c s h = ground (arith, h)

pub trim_right_idem : (s : String) → trim_right (trim_right s) ≡ trim_right s
unfolding trim_right
trim_right_idem String.[] = refl
trim_right_idem (String.◌∷◌ c s) = drop_blank-trim c (trim_right s) (trim_right_idem s)

unfoldable pub append : String → String → String
append s t = String.◌++◌ s t

-- The text is empty or begins with a character that is not white space.
abbrev starts_ink : String → Bool
starts_ink String.[] = true
starts_ink (String.◌∷◌ c s) = not (is_space c)

trim_left-ink : (s : String) → starts_ink (trim_left s) ≡ true
unfolding trim_left
trim_left-ink String.[] = refl
trim_left-ink (String.◌∷◌ c s) = ground (arith, trim_left-ink s)

trim_right-ink : (s : String) → starts_ink s ≡ true → starts_ink (trim_right s) ≡ true
unfolding trim_right
trim_right-ink String.[] h = refl
trim_right-ink (String.◌∷◌ c s) h = ground arith

trim_left_of_ink : (s : String) → starts_ink s ≡ true → trim_left s ≡ s
unfolding trim_left
trim_left_of_ink String.[] h = refl
trim_left_of_ink (String.◌∷◌ c s) h = ground arith

-- A trimmed text has nothing more to trim.
pub trim_idem : (s : String) → trim (trim s) ≡ trim s
unfolding trim
trim_idem s =
    ap trim_right
      (trim_left_of_ink (trim_right (trim_left s)) (trim_right-ink (trim_left s) (trim_left-ink s)))
    ∙ trim_right_idem (trim_left s)

unfoldable pub all_chars : (Char → Bool) → String → Bool
all_chars p String.[] = true
all_chars p (String.◌∷◌ c s) = p c && all_chars p s

-- `strings.Contains` for a text of one character.
unfoldable pub has_char : (Char → Bool) → String → Bool
has_char p String.[] = false
has_char p (String.◌∷◌ c s) = p c || has_char p s

-- `strings.TrimLeft`, `strings.TrimRight` and `strings.Trim` for a set of characters.
unfoldable pub trim_left_of : (Char → Bool) → String → String
trim_left_of p String.[] = ""
trim_left_of p (String.◌∷◌ c s) = if p c then trim_left_of p s else String.◌∷◌ c s

unfoldable pub trim_right_of : (Char → Bool) → String → String
trim_right_of p String.[] = ""
trim_right_of p (String.◌∷◌ c s) =
    let rest = trim_right_of p s in if p c && is_empty rest then "" else String.◌∷◌ c rest

unfoldable pub trim_of : (Char → Bool) → String → String
trim_of p s = trim_right_of p (trim_left_of p s)

-- The set "[]".
abbrev pub brackets : Char → Bool
brackets c = code c == 91 || code c == 93

-- The small form of a letter, by code: the letters A to Z, and the two others whose small form is
-- an ASCII letter. The other capitals are left, since the program compares with ASCII texts only.
unfoldable pub lower_code : ℕ → ℕ
lower_code n =
    if leb 65 n && leb n 90
    then n + 32
    else if n == 0x130
    then 105
    else if n == 0x212a
    then 107
    else n

-- `strings.ToLower(s) == t`.
unfoldable pub lower_eq : String → String → Bool
lower_eq String.[] String.[] = true
lower_eq String.[] (String.◌∷◌ d t) = false
lower_eq (String.◌∷◌ c s) String.[] = false
lower_eq (String.◌∷◌ c s) (String.◌∷◌ d t) = lower_code (code c) == code d && lower_eq s t

-- `strings.EqualFold(s, t)` for a small ASCII text `t`: the long s is an `s`, the Kelvin sign a `k`,
-- and the dotted capital I is no `i`.
unfoldable pub fold_code : ℕ → ℕ
fold_code n =
    if leb 65 n && leb n 90
    then n + 32
    else if n == 0x17f
    then 115
    else if n == 0x212a
    then 107
    else n

unfoldable pub equal_fold : String → String → Bool
equal_fold String.[] String.[] = true
equal_fold String.[] (String.◌∷◌ d t) = false
equal_fold (String.◌∷◌ c s) String.[] = false
equal_fold (String.◌∷◌ c s) (String.◌∷◌ d t) = fold_code (code c) == code d && equal_fold s t
