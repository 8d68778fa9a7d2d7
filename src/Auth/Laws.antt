-- ===== src/Auth/Laws.antt =====
-- internal/middleware/auth.go: which requests pass.
use text.Mathlib.Text.{◌==◌ as str_eq}
use text.Mathlib.TextEquality.{eq_iff}
use Prim.Native.Char.{Char}
use Prim.Native.String.{String, [], ◌∷◌}
use mathlib.Core.Path.{subst}
use high_performance_llm_gat.Prelude.{
  ℕ, List, Option, none, some, Bool, true, ◌≡◌, ◌≢◌, refl, ap, sym, ◌∙◌, ◌⊎◌, inl, inr, ◌↔◌, arith,
  Bool-cases, if◌then◌else◌,
}
use high_performance_llm_gat.Prelude.Text.{◌++ₛ◌}
use high_performance_llm_gat.Cache.{Reply}
use high_performance_llm_gat.Errors.{
  http_status, code_status, new_error, missing_api_key_error, invalid_api_key_error,
}
use high_performance_llm_gat.Auth.{
  Verdict, passed, rejected, split_space, with_first, check_api_key, cached_info, check_parts,
  api_key_auth,
}

-- The status of the answer, none for a request that goes on.
abbrev pub status_of : Verdict → Option ℕ
status_of (passed info) = none
status_of (rejected e) = some (http_status e)

-- A scheme, a space and a key.
abbrev pub with_scheme : String → String → String
with_scheme scheme key = scheme ++ₛ (" " ++ₛ key)

with_first_lem :
    (c : Char) (o : Option (String × String)) (a b : String)
    → with_first c o ≡ some (a, b)
    → (a' : String) × (o ≡ some (a', b)) × (a ≡ c ∷ a')
with_first_lem c none a b h = absurd (ground (arith, h))
with_first_lem c (some (x, y)) a b h = (x, ground (arith, h), ground (arith, h))

-- The two parts are what stands around the first space.
split_space_sound : (s a b : String) → split_space s ≡ some (a, b) → s ≡ with_scheme a b
unfolding split_space
split_space_sound [] a b h = absurd (ground (arith, h))
split_space_sound (c ∷ s) a b h = elim (Bool-cases (str_eq (c ∷ []) " ")) [
  | inl space ↦
      at_space
        (subst (λ t. (if t then some ([], s) else with_first c (split_space s)) ≡ some (a, b)) space
          h)
        ((eq_iff (c ∷ []) " ").0 space)
  | inr other ↦
      let h' =
        subst (λ t. (if t then some ([], s) else with_first c (split_space s)) ≡ some (a, b)) other
          h in
      let (a', e, k) = with_first_lem c (split_space s) a b h' in
      ap (λ t. c ∷ t) (split_space_sound s a' b e) ∙ ap (λ t. with_scheme t b) (sym k)
]
  where
    at_space :
        Path (Option (String × String)) (some ([], s)) (some (a, b))
        → ((c ∷ []) ≡ " ")
        → c ∷ s ≡ with_scheme a b
    at_space e k =
        let ea : ◌≡◌ {A = String} [] a = ground (arith, e) in
        let eb : s ≡ b = ground (arith, e) in
        ap (λ t. t ++ₛ s) k ∙ ap (λ t. " " ++ₛ t) eb ∙ ap (λ t. t ++ₛ (" " ++ₛ b)) ea

split_space-empty : split_space "" ≡ none
unfolding split_space
split_space-empty = refl

not_both : (o : Option (String × String)) {p : String × String} → o ≡ none → o ≢ some p
not_both none e h = ground (arith, h)
not_both (some q) e h = ground (arith, e)

split_space-bearer : (key : String) → split_space (with_scheme "Bearer" key) ≡ some ("Bearer", key)
unfolding split_space
split_space-bearer key = refl

module _ {R : Type 0} (hash : String → String)
    (hgetall : String → R → Reply (List (String × String)) × R) where
  -- The header is `Bearer` with a key whose hash Redis has a record with fields for.
  abbrev pub IsKnown : String → R → Type 0
  IsKnown header r =
      (key : String) × (header ≡ with_scheme "Bearer" key)
      × (cached_info hash hgetall (hgetall ("api_key:" ++ₛ hash key) r).0 ≢ none)

  check_parts-passed :
      (o : Option (String × String)) (r : R)
      → status_of (check_parts hash hgetall o r).0 ≡ none
      → (key : String) × (o ≡ some ("Bearer", key))
        × (cached_info hash hgetall (hgetall ("api_key:" ++ₛ hash key) r).0 ≢ none)
  unfolding check_parts check_api_key
  check_parts-passed none r h = absurd (ground (arith, h))
  check_parts-passed (some (scheme, key)) r h =
      (key, ground (arith, h, eq_iff scheme "Bearer"), ground (arith, h))

  check_parts-known :
      (key : String) (r : R)
      → cached_info hash hgetall (hgetall ("api_key:" ++ₛ hash key) r).0 ≢ none
      → status_of (check_parts hash hgetall (some ("Bearer", key)) r).0 ≡ none
  unfolding check_parts check_api_key
  check_parts-known key r h = ground (arith, h, eq_iff "Bearer" "Bearer")

  -- With a Redis client a request goes on exactly if its header is `Bearer`, a space and a key for
  -- whose hash Redis has a record that is not empty.
  pub api_key_auth_iff :
      (header : String) (r : R)
      → (status_of (api_key_auth hash hgetall true header r).0 ≡ none) ↔ IsKnown header r
  api_key_auth_iff header r = (passed_known, known_passed)
    where
      passed_known : status_of (api_key_auth hash hgetall true header r).0 ≡ none → IsKnown header r
      passed_known h = elim (Bool-cases (str_eq header "")) [
        | inl blank ↦ absurd (unfold api_key_auth in ground (arith, h, blank))
        | inr text ↦
            let (key, parts, known) =
              check_parts-passed (split_space header) r
                (unfold api_key_auth in ground (arith, h, text)) in
            (key, split_space_sound header "Bearer" key parts, known)
      ]

      known_passed : IsKnown header r → status_of (api_key_auth hash hgetall true header r).0 ≡ none
      known_passed (key, e, known) =
          let parts : split_space header ≡ some ("Bearer", key) =
            ap split_space e ∙ split_space-bearer key in
          let passes = check_parts-known key r known in
          elim (Bool-cases (str_eq header "")) [
            | inl blank ↦ absurd (
                not_both (split_space header)
                  (ap split_space ((eq_iff header "").0 blank) ∙ split_space-empty) parts)
            | inr text ↦ unfold api_key_auth in rw (text, parts) passes
          ]

  -- A request that does not go on is answered with status 401, whatever Redis answers.
  pub api_key_auth-status :
      (client : Bool) (header : String) (r : R)
      → (status_of (api_key_auth hash hgetall client header r).0 ≡ none)
        ⊎ (status_of (api_key_auth hash hgetall client header r).0 ≡ some 401)
  unfolding api_key_auth check_parts check_api_key http_status code_status missing_api_key_error
      invalid_api_key_error new_error
  api_key_auth-status client header r = ground arith
