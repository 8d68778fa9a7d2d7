-- ===== src/Chat/Prompt.antt =====
-- chat.go: the prompt of the semantic cache, and the vector that the worker gives for it.
use text.Mathlib.Text.{◌==◌ as str_eq}
use high_performance_llm_gat.Prelude.{
  String, List, [], ◌∷◌, Option, none, some, ◌&&◌, if◌then◌else◌,
}
use high_performance_llm_gat.Prelude.Text.{trim_space, is_blank, ◌++ₛ◌}
use high_performance_llm_gat.Chat.{ChatMessage}
use high_performance_llm_gat.Worker.{
  Transport, Client, DataEntry, Generated, done, failed, generate, worker_error_text,
}

abbrev line_of : String → String → String
line_of role content =
    (if str_eq role "" then "unknown" else role) ++ₛ (": " ++ₛ (content ++ₛ "\n"))

-- The loop over the messages, which writes a line for each.
unfoldable pub prompt_lines : List ChatMessage → String
prompt_lines [] = ""
prompt_lines (m ∷ ms) =
    let role = trim_space m.role in
    let content = trim_space m.content in
    (if str_eq role "" && str_eq content "" then "" else line_of role content) ++ₛ prompt_lines ms

unfoldable pub build_semantic_prompt : List ChatMessage → String
unfolding prompt_lines
build_semantic_prompt [] = ""
build_semantic_prompt (m ∷ ms) = trim_space (prompt_lines (m ∷ ms))

-- A Go result with an error.
pub data Fetched (A : Type 0) : Type 0 where
  vector : A → Fetched A
  failure : String → Fetched A

abbrev embedding_of : {F : Type 0} → List (DataEntry F) → Fetched (List F)
embedding_of [] = failure "embedding vector is empty"
embedding_of (d ∷ ds) = elim d.embedding [
  | [] ↦ failure "embedding vector is empty"
  | x ∷ xs ↦ vector (x ∷ xs)
]

abbrev fetched_of : {F : Type 0} → Option (Generated F) → Fetched (List F)
fetched_of none = failure "embedding vector is empty"
fetched_of (some (done resp)) = embedding_of resp.entries
fetched_of (some (failed e)) = failure (worker_error_text (some e))

unfoldable pub fetch_semantic_vector :
    {F W : Type 0}
    → Transport F String W
    → Option Client
    → List ChatMessage
    → W
    → Fetched (List F) × W
unfolding build_semantic_prompt
fetch_semantic_vector t none messages w = (failure "embedding worker is not configured", w)
fetch_semantic_vector t (some c) messages w =
    let prompt = build_semantic_prompt messages in
    let (out, w') =
      generate t (some c) (record { input = prompt; model = "text-embedding-ada-002" }) w in
    if is_blank prompt then (failure "semantic prompt is empty", w) else (fetched_of out, w')
