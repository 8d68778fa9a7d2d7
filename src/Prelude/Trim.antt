-- ===== src/Prelude/Trim.antt =====
-- `trim_space` on a text that is trimmed.
use Prim.Native.Char.{Char, code}
use Prim.Native.String.{String, [], ◌∷◌}
use mathlib.Core.Path.{◌≡◌, refl, ap, ◌∙◌}
use mathlib.Core.Bool.{false}
use mathlib.Core.Logic.{inl, inr}
use high_performance_llm_gat.Prelude.Tests.{Bool-cases}
use high_performance_llm_gat.Prelude.Text.{
  is_space, trim_left, trim_right, trim_space, push_trimmed,
}

-- The text is empty or starts with a character that is not white space.
abbrev Starts : String → Type 0
Starts [] = Unit
Starts (c ∷ s) = is_space (code c) ≡ false

trim_left-Starts : (s : String) → Starts (trim_left s)
unfolding trim_left
trim_left-Starts [] = tt
trim_left-Starts (c ∷ s) = elim (Bool-cases (is_space (code c))) [
  | inl space ↦ rw (trim_left, space) (trim_left-Starts s)
  | inr other ↦ rw (trim_left, other) other
]

push_trimmed-Starts :
    (c : Char) (s : String) → is_space (code c) ≡ false → Starts (push_trimmed c s)
unfolding push_trimmed
push_trimmed-Starts c [] h = rw h h
push_trimmed-Starts c (d ∷ s) h = h

trim_right-Starts : (s : String) → Starts s → Starts (trim_right s)
unfolding trim_right
trim_right-Starts [] h = tt
trim_right-Starts (c ∷ s) h = push_trimmed-Starts c (trim_right s) h

trim_left-id : (s : String) → Starts s → trim_left s ≡ s
unfolding trim_left
trim_left-id [] h = refl
trim_left-id (c ∷ s) h = rw (trim_left, h) refl

trim_right-push_trimmed :
    (c : Char) (s : String) → trim_right s ≡ s → trim_right (push_trimmed c s) ≡ push_trimmed c s
unfolding trim_right push_trimmed
trim_right-push_trimmed c [] h = elim (Bool-cases (is_space (code c))) [
  | inl space ↦ rw space refl
  | inr other ↦ rw other (rw other refl)
]
trim_right-push_trimmed c (d ∷ s) h = ap (push_trimmed c) h

trim_right_twice : (s : String) → trim_right (trim_right s) ≡ trim_right s
unfolding trim_right
trim_right_twice [] = refl
trim_right_twice (c ∷ s) = trim_right-push_trimmed c (trim_right s) (trim_right_twice s)

-- A text that is trimmed stays as it is.
pub trim_space_twice : (s : String) → trim_space (trim_space s) ≡ trim_space s
unfolding trim_space
trim_space_twice s =
    ap trim_right (trim_left-id _ (trim_right-Starts (trim_left s) (trim_left-Starts s)))
    ∙ trim_right_twice (trim_left s)
