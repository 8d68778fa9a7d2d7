-- ===== src/Auth/Cors.antt =====
-- internal/middleware/auth.go: the middleware `CORS`.
use text.Mathlib.Text.{◌==◌ as str_eq}
use high_performance_llm_gat.Prelude.{ℕ, String, List, [], ◌∷◌, Option, none, some, if◌then◌else◌}

-- The headers that are set, and the status that ends a request of the method OPTIONS.
unfoldable pub cors : String → List (String × String) × Option ℕ
cors method = (
  ("Access-Control-Allow-Origin", "*")
      ∷ ("Access-Control-Allow-Methods", "GET, POST, PUT, DELETE, OPTIONS")
      ∷ ("Access-Control-Allow-Headers", "Content-Type, Authorization")
      ∷ [],
  if str_eq method "OPTIONS" then some 204 else none,
)
