-- ===== src/Config/Laws.antt =====
-- internal/config/config.go: what the environment changes in the configuration.
use high_performance_llm_gat.Prelude.{String, ◌≡◌, refl, arith}
use high_performance_llm_gat.Config.{Config, override, apply_env_overrides}

override-override :
    (env : String → String) (name field : String)
    → override env name (override env name field) ≡ override env name field
unfolding override
override-override env name field = ground arith

-- To apply the environment a second time changes nothing.
pub apply_env_overrides-twice :
    {F : Type 0} (env : String → String) (c : Config F)
    → apply_env_overrides env (apply_env_overrides env c) ≡ apply_env_overrides env c
unfolding apply_env_overrides
apply_env_overrides-twice env c =
    rw
      (
        override-override env "DB_PASSWORD" c.database.password,
        override-override env "REDIS_PASSWORD" c.redis.password,
        override-override env "OPENAI_API_KEY" c.providers.openai.api_key,
        override-override env "ANTHROPIC_API_KEY" c.providers.anthropic.api_key,
        override-override env "MINIMAX_API_KEY" c.providers.minimax.api_key,
        override-override env "PYTHON_WORKER_URL" c.python_worker.address,
        override-override env "WORKFLOW_REPLAY_LOG_PATH" c.workflow.replay_log_path,
      )
      refl
