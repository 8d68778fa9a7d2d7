-- ===== src/Prelude/Text.antt =====
-- The functions of Go's `strings` that the gateway uses, over texts as sequences of code points.
use Prim.Native.Nat.{ℕ, zero, suc, ◌+◌, ◌-◌, ◌/◌, ◌%◌}
use Prim.Native.Char.{Char, code, nul}
use Prim.Native.String.{String, [], ◌∷◌}
use mathlib.Core.List
use mathlib.Core.List.{List}
use mathlib.Core.Bool.{Bool, true, false, ◌&&◌, ◌||◌}
use text.Mathlib.Text.{◌==◌ as str_eq}
use high_performance_llm_gat.Prelude.Tests.{leb, ltb, ◌==◌, if◌then◌else◌}

-- unicode.IsSpace
unfoldable pub is_space : ℕ → Bool
is_space n =
    leb 9 n && leb n 13
    || n == 32
    || n == 133
    || n == 160
    || n == 0x1680
    || leb 0x2000 n && leb n 0x200a
    || n == 0x2028
    || n == 0x2029
    || n == 0x202f
    || n == 0x205f
    || n == 0x3000

-- strings.TrimLeftFunc of white space
unfoldable pub trim_left : String → String
unfolding is_space
trim_left [] = []
trim_left (c ∷ s) = elim (is_space (code c)) [ true ↦ trim_left s | false ↦ c ∷ s ]

-- A character in front of a text that is already trimmed on the right.
unfoldable pub push_trimmed : Char → String → String
unfolding is_space
push_trimmed c [] = if is_space (code c) then [] else c ∷ []
push_trimmed c (d ∷ s) = c ∷ (d ∷ s)

-- strings.TrimRightFunc of white space
unfoldable pub trim_right : String → String
unfolding push_trimmed
trim_right [] = []
trim_right (c ∷ s) = push_trimmed c (trim_right s)

-- strings.TrimSpace
unfoldable pub trim_space : String → String
unfolding trim_left trim_right
trim_space s = trim_right (trim_left s)

unfoldable pub char_or : String → ℕ → Char → Char
char_or [] i d = d
char_or (c ∷ s) zero d = c
char_or (c ∷ s) (suc i) d = char_or s i d

-- unicode.ToLower on ASCII letters and on the two other letters whose lower case is ASCII
-- (U+0130 and U+212A); every other code point is kept.
unfoldable pub lower_char : Char → Char
unfolding char_or
lower_char c =
    let n = code c in
    if leb 65 n && leb n 90
    then char_or "abcdefghijklmnopqrstuvwxyz" (n - 65) c
    else if n == 0x130
    then char_or "i" 0 c
    else if n == 0x212a
    then char_or "k" 0 c
    else c

-- strings.ToLower
unfoldable pub to_lower : String → String
unfolding lower_char
to_lower [] = []
to_lower (c ∷ s) = lower_char c ∷ to_lower s

-- strings.HasPrefix
unfoldable pub has_prefix : String → String → Bool
has_prefix s [] = true
has_prefix [] (d ∷ t) = false
has_prefix (c ∷ s) (d ∷ t) = code c == code d && has_prefix s t

-- strings.Contains
unfoldable pub contains_text : String → String → Bool
unfolding has_prefix
contains_text [] t = has_prefix [] t
contains_text (c ∷ s) t = has_prefix (c ∷ s) t || contains_text s t

infixr 65 ◌++ₛ◌
abbrev pub ◌++ₛ◌ : String → String → String
[] ++ₛ t = t
(c ∷ s) ++ₛ t = c ∷ (s ++ₛ t)

-- strings.TrimSpace(s) == ""
abbrev pub is_blank : String → Bool
is_blank s = str_eq (trim_space s) ""

-- A slash in front of a text whose slashes at the end are gone.
unfoldable pub push_unslashed : Char → String → String
push_unslashed c [] = if code c == 47 then [] else c ∷ []
push_unslashed c (d ∷ s) = c ∷ (d ∷ s)

-- strings.TrimRight(s, "/")
unfoldable pub trim_slashes : String → String
unfolding push_unslashed
trim_slashes [] = []
trim_slashes (c ∷ s) = push_unslashed c (trim_slashes s)

-- The first `n` code points of a text. Go cuts at bytes: the two agree on ASCII.
unfoldable pub take_text : ℕ → String → String
take_text zero s = []
take_text (suc n) [] = []
take_text (suc n) (c ∷ s) = c ∷ take_text n s

abbrev zero_char : Char
unfolding char_or
zero_char = char_or "0" 0 nul

-- The decimal digits of a number in front of a text, on fuel: one round for each digit.
unfoldable pub show_from : ℕ → ℕ → String → String
unfolding char_or
show_from zero n acc = acc
show_from (suc fuel) n acc =
    let digits = char_or "0123456789" (n % 10) zero_char ∷ acc in
    let rest = show_from fuel (n / 10) digits in if leb n 9 then digits else rest

-- `%d` of a number; a number has at most as many digits as its successor says.
unfoldable pub show : ℕ → String
unfolding show_from
show n = show_from (suc n) n ""

infixr 67 ◌∷ₗ◌
abbrev ◌∷ₗ◌ : ℕ → List ℕ → List ℕ
n ∷ₗ l = List.◌∷◌ n l

infixr 65 ◌++ₗ◌
abbrev ◌++ₗ◌ : List ℕ → List ℕ → List ℕ
a ++ₗ b = List.◌++◌ a b

-- The bytes of a code point in UTF-8.
unfoldable pub utf8_char : ℕ → List ℕ
utf8_char n =
    if ltb n 128
    then n ∷ₗ List.[]
    else if ltb n 2048
    then (192 + n / 64) ∷ₗ ((128 + n % 64) ∷ₗ List.[])
    else if ltb n 65536
    then (224 + n / 4096) ∷ₗ ((128 + n / 64 % 64) ∷ₗ ((128 + n % 64) ∷ₗ List.[]))
    else (240 + n / 262144)
      ∷ₗ ((128 + n / 4096 % 64) ∷ₗ ((128 + n / 64 % 64) ∷ₗ ((128 + n % 64) ∷ₗ List.[])))

-- The bytes of a text.
unfoldable pub utf8 : String → List ℕ
unfolding utf8_char
utf8 [] = List.[]
utf8 (c ∷ s) = utf8_char (code c) ++ₗ utf8 s

-- `s > t` on texts. Go compares bytes in UTF-8, whose order is that of the code points.
unfoldable pub later_text : String → String → Bool
later_text [] t = false
later_text (c ∷ s) [] = true
later_text (c ∷ s) (d ∷ t) =
    let rest = later_text s t in
    if ltb (code d) (code c) then true else if code c == code d then rest else false
