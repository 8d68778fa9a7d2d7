-- ===== src/Prelude/Utf8.antt =====
-- What encoding/json makes of the bytes of a Go string: a byte that starts no character in UTF-8 is
-- replaced by U+FFFD, the bytes 239, 191 and 189. The escapes of JSON are undone by its reader, and
-- left out.
use Prim.Native.Nat.{ℕ, zero, suc, ◌-◌, ◌<◌}
use mathlib.Core.Path.{◌≡◌, refl}
use mathlib.Core.List.{List, [], ◌∷◌}
use mathlib.Core.Bool.{Bool, ◌&&◌}
use native.Mathlib.Omega.{arith}
use high_performance_llm_gat.Prelude.Tests.{leb, ltb, ◌==◌, if◌then◌else◌}
use high_performance_llm_gat.Prelude.Lists.{All}

abbrev between : ℕ → ℕ → ℕ → Bool
between lo hi b = leb lo b && leb b hi

-- A byte that continues a character.
abbrev continues : ℕ → Bool
continues b = between 128 191 b

-- The bytes that may follow the first of three, and of four.
abbrev second_of_three : ℕ → ℕ → Bool
second_of_three b c =
    if b == 224 then between 160 191 c else if b == 237 then between 128 159 c else continues c

abbrev second_of_four : ℕ → ℕ → Bool
second_of_four b c =
    if b == 240 then between 144 191 c else if b == 244 then between 128 143 c else continues c

abbrev two_bytes : ℕ → List ℕ → ℕ
two_bytes b [] = 0
two_bytes b (c ∷ bytes) = if continues c then 2 else 0

abbrev three_bytes : ℕ → List ℕ → ℕ
three_bytes b [] = 0
three_bytes b (c ∷ []) = 0
three_bytes b (c ∷ d ∷ bytes) = if second_of_three b c && continues d then 3 else 0

abbrev four_bytes : ℕ → List ℕ → ℕ
four_bytes b [] = 0
four_bytes b (c ∷ []) = 0
four_bytes b (c ∷ d ∷ []) = 0
four_bytes b (c ∷ d ∷ e ∷ bytes) =
    if second_of_four b c && (continues d && continues e) then 4 else 0

-- The number of bytes of the character that stands first, 0 if they are none: utf8.DecodeRune.
unfoldable pub rune_length : ℕ → List ℕ → ℕ
rune_length b bytes =
    if ltb b 128
    then 1
    else if between 194 223 b
    then two_bytes b bytes
    else if between 224 239 b
    then three_bytes b bytes
    else if between 240 244 b
    then four_bytes b bytes
    else 0

-- The bytes with those replaced, of which some belong to a character that was found already.
unfoldable pub coerced : ℕ → List ℕ → List ℕ
unfolding rune_length
coerced skip [] = []
coerced zero (b ∷ bytes) =
    let n = rune_length b bytes in
    let rest = coerced (n - 1) bytes in if n == 0 then 239 ∷ 191 ∷ 189 ∷ rest else b ∷ rest
coerced (suc skip) (b ∷ bytes) = b ∷ coerced skip bytes

unfoldable pub to_valid_utf8 : List ℕ → List ℕ
unfolding coerced
to_valid_utf8 bytes = coerced 0 bytes

abbrev pub IsAscii : List ℕ → Type 0
IsAscii bytes = All (λ b. b < 128) bytes

-- ASCII is kept.
pub to_valid_utf8-IsAscii : (bytes : List ℕ) → IsAscii bytes → to_valid_utf8 bytes ≡ bytes
unfolding to_valid_utf8
to_valid_utf8-IsAscii [] h = refl
to_valid_utf8-IsAscii (b ∷ bytes) h =
    let small = h.0 in
    let ih : coerced 0 bytes ≡ bytes = unfold to_valid_utf8 in to_valid_utf8-IsAscii bytes h.1 in
    ground (arith, ih)
