-- ===== src/Logging.antt =====
-- internal/middleware/logging.go: the logger that `Init` sets up. What is written by it is a
-- library's work.
use text.Mathlib.Text.{◌==◌ as str_eq}
use high_performance_llm_gat.Prelude.{String, Option, none, some, Bool, if◌then◌else◌}
use high_performance_llm_gat.Cache.{Reply, ok, fault}
use high_performance_llm_gat.Config.{LoggerConfig}

pub data Level : Type 0 where
  debug : Level
  info : Level
  warn : Level
  error : Level

pub data Sink : Type 0 where
  stdout : Sink
  stderr : Sink
  file : String → Sink

pub record Logger : Type 0 where
  pub as_json : Bool
  pub level : Level
  pub sink : Sink

unfoldable pub default_config : LoggerConfig
default_config = record { level = "info"; format = "console"; output_path = "stdout" }

-- The level of a name; a name that is not known is that of `info`.
unfoldable pub level_of : String → Level
level_of name =
    if str_eq name "debug"
    then debug
    else if str_eq name "warn"
    then warn
    else if str_eq name "error"
    then error
    else info

-- The sink of a path; `open_file` creates a file or opens it to append to it, and gives its error.
unfoldable pub sink_of :
    {W : Type 0} → (String → W → Option String × W) → String → W → Reply Sink × W
sink_of open_file path w =
    let (e, w') = open_file path w in
    if str_eq path "stdout"
    then (ok stdout, w)
    else if str_eq path "stderr"
    then (ok stderr, w)
    else (elim e [ none ↦ ok (file path) | some err ↦ fault err ], w')

abbrev logger_of : LoggerConfig → Reply Sink → Reply Logger
logger_of cfg (fault e) = fault e
logger_of cfg (ok sink) =
    ok (record { as_json = str_eq cfg.format "json"; level = level_of cfg.level; sink = sink })

-- `Init`: the logger that the package keeps, or the error.
unfoldable pub init :
    {W : Type 0} → (String → W → Option String × W) → LoggerConfig → W → Reply Logger × W
unfolding level_of sink_of
init open_file cfg w =
    let (sink, w') = sink_of open_file cfg.output_path w in (logger_of cfg sink, w')
