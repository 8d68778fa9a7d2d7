-- ===== src/Server/Requests.antt =====
-- How many HTTP requests a chat request sends to the providers.
use text.Mathlib.Text.{◌==◌ as str_eq}
use mathlib.Core.Path.{subst}
use high_performance_llm_gat.Prelude.{
  ℕ, ◌+◌, ◌≤◌, ◌≡◌, refl, ap, sym, ◌∙◌, String, List, [], ◌∷◌, some, arith, length, Bool-cases, inl,
  inr, if_both, not, leb,
}
use high_performance_llm_gat.Prelude.Text.{is_blank}
use high_performance_llm_gat.Prelude.Dict.{lookup}
use high_performance_llm_gat.Config.{Config, ModelConfig}
use high_performance_llm_gat.Provider.{ChatCompletionRequest}
use high_performance_llm_gat.Provider.Http.{
  OpenAiCompatibleProvider, Http, http_chat_completion, new_openai_provider, new_anthropic_provider,
  new_minimax_provider,
}
use high_performance_llm_gat.Provider.HttpLaws.{http_chat_completion-IsNamed}
use high_performance_llm_gat.Registry.{Registry, System, Client, add_model, add_models, now, rand}
use high_performance_llm_gat.Registry.Order.{build_route_queue}
use high_performance_llm_gat.Registry.Route.{chat_completion, model_or_default}
use high_performance_llm_gat.Registry.Calls.{IsMetered, chat_completion_calls}
use high_performance_llm_gat.Server.{registry_of}

module _ {F W : Type 0} where
  -- Adding models changes neither the clients nor the clock nor the random source.
  record IsSame (r r' : Registry F W) : Type 0 where
    providers : r'.providers ≡ r.providers
    now_func : r'.now_func ≡ r.now_func
    rand_intn : r'.rand_intn ≡ r.rand_intn

  add_model-IsSame : (r : Registry F W) (m : ModelConfig) → IsSame r (add_model r m)
  unfolding add_model
  add_model-IsSame r m =
      if_both (IsSame r) (is_blank m.name)
        (record { providers = refl; now_func = refl; rand_intn = refl })
        (if_both (IsSame r) (not m.is_active)
          (record { providers = refl; now_func = refl; rand_intn = refl })
          (record { providers = refl; now_func = refl; rand_intn = refl }))

  add_models-IsSame : (ms : List ModelConfig) (r : Registry F W) → IsSame r (add_models r ms)
  unfolding add_models
  add_models-IsSame [] r = record { providers = refl; now_func = refl; rand_intn = refl }
  add_models-IsSame (m ∷ ms) r =
      let one = add_model-IsSame r m in
      let rest = add_models-IsSame ms (add_model r m) in
      record {
        providers = rest.providers ∙ one.providers;
        now_func = rest.now_func ∙ one.now_func;
        rand_intn = rest.rand_intn ∙ one.rand_intn;
      }

module _ {F W : Type 0} (sys : System W) (http : Http F W) (calls : W → ℕ)
    (clock : (w : W) → calls (sys.now w).1 ≤ calls w)
    (draw : (n : ℕ) (w : W) → calls (sys.rand_intn n w).1 ≤ calls w)
    (exchange : (url key payload : String) (w : W)
      → calls (http.exchange url key payload w).1 ≤ calls w + 1) where
  client_calls :
      (p : OpenAiCompatibleProvider) (req : ChatCompletionRequest F) (w : W)
      → calls (http_chat_completion http p req w).1 ≤ calls w + 1
  client_calls p req w =
      let sent = (http_chat_completion-IsNamed http p calls req w exchange).1 in
      ground (arith, sent)

  -- The clients of the three providers.
  abbrev minimax_client : Config F → List (String × Client F W)
  minimax_client cfg =
      ("minimax", http_chat_completion http (new_minimax_provider cfg.providers.minimax)) ∷ []

  abbrev last_clients : Config F → List (String × Client F W)
  last_clients cfg =
      ("anthropic", http_chat_completion http (new_anthropic_provider cfg.providers.anthropic))
      ∷ minimax_client cfg

  abbrev clients : Config F → List (String × Client F W)
  clients cfg =
      ("openai", http_chat_completion http (new_openai_provider cfg.providers.openai))
      ∷ last_clients cfg

  -- A client sends one request at most, whatever it is asked.
  SendsOne : Client F W → Type 0
  SendsOne client = (req : ChatCompletionRequest F) (w : W) → calls (client req w).1 ≤ calls w + 1

  lookup-SendsOne :
      (key name : String) (p : OpenAiCompatibleProvider) (table : List (String × Client F W))
      (client : Client F W)
      → (lookup name table ≡ some client → SendsOne client)
      → lookup name ((key, http_chat_completion http p) ∷ table) ≡ some client
      → SendsOne client
  unfolding lookup SendsOne
  lookup-SendsOne key name p table client rest e = elim (Bool-cases (str_eq key name)) [
    | inl here ↦
        let is_p : http_chat_completion http p ≡ client = ground (arith, e, here) in
        λ req w.
          subst (λ (c : Client F W). calls (c req w).1 ≤ calls w + 1) is_p (client_calls p req w)
    | inr other ↦ rest (ground (arith, e, other))
  ]

  clients-SendsOne :
      (cfg : Config F) (name : String) (client : Client F W)
      → lookup name (clients cfg) ≡ some client
      → SendsOne client
  unfolding lookup
  clients-SendsOne cfg name client =
      lookup-SendsOne "openai" name (new_openai_provider cfg.providers.openai) (last_clients cfg)
        client
        (lookup-SendsOne "anthropic" name (new_anthropic_provider cfg.providers.anthropic)
          (minimax_client cfg) client
          (lookup-SendsOne "minimax" name (new_minimax_provider cfg.providers.minimax) [] client
            (λ e. absurd (ground (arith, e)))))

  registry_of-IsMetered : (cfg : Config F) → IsMetered sys (registry_of sys http cfg) calls
  unfolding SendsOne registry_of now rand
  registry_of-IsMetered cfg =
      let same = add_models-IsSame cfg.models (empty cfg) in
      record {
        clock = λ w. rw same.now_func (clock w);
        draw = λ n w.
            rw same.rand_intn
              (if_both (λ (o : ℕ × W). calls o.1 ≤ calls w) (leb n 1) (omega arith) (draw n w));
        client = λ name client req w e.
            clients-SendsOne cfg name client (sym (ap (lookup name) same.providers) ∙ e) req w;
      }
    where
      empty : Config F → Registry F W
      empty cfg = record {
        providers = clients cfg;
        model_routes = [];
        model_fallbacks = [];
        circuits = [];
        now_func = some sys.now;
        rand_intn = some sys.rand_intn;
      }

  -- Let `calls` count the HTTP requests that the world has seen, so that an exchange adds one at most
  -- and the clock and the random source add none. A chat request to the registry of any
  -- configuration sends at most as many as its queue has routes.
  pub chat_completion-registry_of_calls :
      (cfg : Config F) (req : ChatCompletionRequest F) (w : W)
      → let r = registry_of sys http cfg in
        calls (chat_completion sys r req w).2
        ≤ calls w + length (build_route_queue sys r (model_or_default req.model) w).0
  chat_completion-registry_of_calls cfg req w =
      chat_completion_calls sys (registry_of sys http cfg) calls (registry_of-IsMetered cfg) req w
