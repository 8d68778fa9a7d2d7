-- ===== src/Auth.antt =====
-- internal/middleware/auth.go: APIKeyAuth, the check of API keys against Redis. `hash` is SHA-256 in
-- hexadecimal, and `hgetall` the Redis command HGETALL on a state `R`.
pub mod Laws
pub mod Cors
use text.Mathlib.Text.{◌==◌ as str_eq}
use Prim.Native.Char.{Char, code}
use Prim.Native.String.{String, [], ◌∷◌}
use high_performance_llm_gat.Prelude.{
  List, Option, none, some, Bool, true, false, not, ◌||◌, ◌==◌, is_empty, if◌then◌else◌,
}
use high_performance_llm_gat.Prelude.Text.{◌++ₛ◌}
use high_performance_llm_gat.Prelude.Dict.{lookup}
use high_performance_llm_gat.Cache.{Reply, ok, fault}
use high_performance_llm_gat.Registry.{text_of}
use high_performance_llm_gat.Errors.{GatewayError, missing_api_key_error, invalid_api_key_error}

-- What the middleware does with a request: it goes on, with the metadata that it sets, or is
-- answered with an error.
pub record KeyMetadata : Type 0 where
  pub id : String
  pub name : String
  pub rate_limit : String

pub data Verdict : Type 0 where
  passed : Option KeyMetadata → Verdict
  rejected : GatewayError → Verdict

abbrev with_first : Char → Option (String × String) → Option (String × String)
with_first c none = none
with_first c (some (a, b)) = some (c ∷ a, b)

-- strings.SplitN(s, " ", 2); none for a single part.
unfoldable pub split_space : String → Option (String × String)
split_space [] = none
split_space (c ∷ s) =
    let rest = split_space s in if str_eq (c ∷ []) " " then some ([], s) else with_first c rest

module _ {R : Type 0} (hash : String → String)
    (hgetall : String → R → Reply (List (String × String)) × R) where
  abbrev pub cached_info : Reply (List (String × String)) → Option (List (String × String))
  cached_info (fault e) = none
  cached_info (ok cached) = if is_empty cached then none else some cached

  -- `checkAPIKey`, whose error is always nil.
  unfoldable pub check_api_key : String → R → Option (List (String × String)) × R
  check_api_key key_hash r =
      let (reply, r') = hgetall ("api_key:" ++ₛ key_hash) r in (cached_info reply, r')

  abbrev pub admit : Option (List (String × String)) → Verdict
  admit none = rejected (invalid_api_key_error "Invalid API key")
  admit (some info) = passed (
      some (record {
        id = text_of (lookup "id" info);
        name = text_of (lookup "name" info);
        rate_limit = text_of (lookup "rate_limit" info);
      }))

  -- The checks on the parts of the header.
  unfoldable pub check_parts : Option (String × String) → R → Verdict × R
  unfolding check_api_key
  check_parts none r = (rejected (invalid_api_key_error "Invalid authorization header format"), r)
  check_parts (some (scheme, api_key)) r =
      let (info, r') = check_api_key (hash api_key) r in
      if not (str_eq scheme "Bearer")
      then (rejected (invalid_api_key_error "Invalid authorization header format"), r)
      else (admit info, r')

  -- `APIKeyAuth` on the header Authorization; `client` says whether the Redis client is there.
  unfoldable pub api_key_auth : Bool → String → R → Verdict × R
  unfolding check_parts
  api_key_auth client header r =
      if not client
      then (passed none, r)
      else if str_eq header ""
      then (rejected (missing_api_key_error "Missing authorization header"), r)
      else check_parts (split_space header) r
