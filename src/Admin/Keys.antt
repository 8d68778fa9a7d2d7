-- ===== src/Admin/Keys.antt =====
-- admin.go: the keys that the administration creates.
use Prim.Native.Char.{Char, nul}
use Prim.Native.String as Text
use Prim.Native.String.{String}
use high_performance_llm_gat.Prelude.{
  ℕ, zero, suc, ◌/◌, ◌%◌, List, [], ◌∷◌, ◌≡◌, refl, ap, sym, ◌∙◌, Option, none, some,
}
use high_performance_llm_gat.Prelude.Text.{lower_char, to_lower, take_text, char_or, ◌++ₛ◌}
use high_performance_llm_gat.Prelude.Int.{ℤ}
use high_performance_llm_gat.Storage.{Postgres, ApiKey, Row, row, no_row, row_fault, row_or_fault}
use high_performance_llm_gat.Storage as Storage
use high_performance_llm_gat.Admin.{
  Answer, refused, created, keys, deleted, stored_stats, memory_stats, workflow_summary, not_found,
  workflow_summaries, models, panicked, CreatedKey, CreateKeyRequest, bound, created_reply,
  create_api_key, hex_digit, hex, generate_random_string, hash_key, new_key,
}

-- The text is its own lower case.
abbrev IsLower : String → Type 0
IsLower s = to_lower s ≡ s

first : String → Char → Char
first Text.[] d = d
first (Text.◌∷◌ c s) d = c

rest_of : String → String
rest_of Text.[] = Text.[]
rest_of (Text.◌∷◌ c s) = s

cons-IsLower : (c : Char) (s : String) → lower_char c ≡ c → IsLower s → IsLower (Text.◌∷◌ c s)
unfolding to_lower
cons-IsLower c s h k = rw (h, k) refl

first_lower : (c : Char) (s : String) → IsLower (Text.◌∷◌ c s) → lower_char c ≡ c
unfolding to_lower first
first_lower c s h = ap (λ t. first t c) h

rest-IsLower : (c : Char) (s : String) → IsLower (Text.◌∷◌ c s) → IsLower s
unfolding to_lower rest_of
rest-IsLower c s h = ap rest_of h

char_or-IsLower :
    (s : String) (i : ℕ) (d : Char)
    → IsLower s
    → lower_char d ≡ d
    → lower_char (char_or s i d) ≡ char_or s i d
unfolding char_or
char_or-IsLower Text.[] i d h k = k
char_or-IsLower (Text.◌∷◌ c s) zero d h k = first_lower c s h
char_or-IsLower (Text.◌∷◌ c s) (suc i) d h k = char_or-IsLower s i d (rest-IsLower c s h) k

hex_digit_lower : (n : ℕ) → lower_char (hex_digit n) ≡ hex_digit n
unfolding lower_char to_lower
hex_digit_lower n = char_or-IsLower "0123456789abcdef" n nul refl refl

hex-IsLower : (bytes : List ℕ) → IsLower (hex bytes)
unfolding hex to_lower
hex-IsLower [] = refl
hex-IsLower (b ∷ bytes) =
    cons-IsLower (hex_digit (b / 16)) _ (hex_digit_lower (b / 16))
      (cons-IsLower (hex_digit (b % 16)) _ (hex_digit_lower (b % 16)) (hex-IsLower bytes))

take_text-IsLower : (n : ℕ) (s : String) → IsLower s → IsLower (take_text n s)
unfolding take_text to_lower
take_text-IsLower zero s h = refl
take_text-IsLower (suc n) Text.[] h = refl
take_text-IsLower (suc n) (Text.◌∷◌ c s) h =
    cons-IsLower c (take_text n s) (first_lower c s h) (take_text-IsLower n s (rest-IsLower c s h))

hash_key-new_key : (bytes : List ℕ) → hash_key (new_key bytes) ≡ new_key bytes
unfolding hash_key new_key generate_random_string lower_char to_lower
hash_key-new_key bytes =
    ap (λ s. "sk-" ++ₛ s) (take_text-IsLower 32 (hex bytes) (hex-IsLower bytes))

-- The key that an answer gives to the client.
shown : {F : Type 0} → Answer F → Option String
shown (created key) = some key.key
shown (refused e) = none
shown (keys l) = none
shown deleted = none
shown (stored_stats s) = none
shown (memory_stats s) = none
shown (workflow_summary s) = none
shown not_found = none
shown (workflow_summaries l) = none
shown (models l) = none
shown panicked = none

created_reply-key :
    {F : Type 0} (api_key : String) (r : Row ApiKey) (key : CreatedKey)
    → created_reply {F = F} api_key (row_or_fault r) ≡ created key
    → some key.key ≡ some api_key
unfolding shown
created_reply-key api_key (row k) key h = sym (ap shown h)
created_reply-key api_key no_row key h = let e = ap shown h in absurd (cc)
created_reply-key api_key (row_fault m) key h = let e = ap shown h in absurd (cc)

module _ {F W : Type 0} where
  -- Whatever random bytes are read: if the request for a new key is answered with a key, then that
  -- key, in plain text, is the hash that the database was given for it. `stored` tells the hash of the
  -- last statement that adds a key.
  pub create_api_key-stored :
      (random : ℕ → W → List ℕ × W) (pg : Postgres F W) (stored : W → Option String)
      (req : CreateKeyRequest) (w : W) (key : CreatedKey)
      → ((hash name : String) (limit : ℤ) (w : W)
          → stored (pg.add_key hash name limit w).1 ≡ some hash)
      → (create_api_key random (some pg) (bound req) w).0 ≡ created key
      → stored (create_api_key random (some pg) (bound req) w).1 ≡ some key.key
  unfolding create_api_key Storage.create_api_key
  create_api_key-stored random pg stored req w key kept h =
      let (bytes, w1) = random 32 w in
      kept (hash_key (new_key bytes)) req.name req.rate_limit w1
      ∙ ap some (hash_key-new_key bytes)
      ∙ sym (created_reply-key (new_key bytes) _ key h)
