-- ===== src/Telemetry.antt =====
-- internal/telemetry/otel.go and internal/middleware/tracing.go: where traces are exported to, and
-- the span of a request. The exporter itself is a library's.
use text.Mathlib.Text.{◌==◌ as str_eq}
use mathlib.Core.Bool.{not, ◌||◌}
use high_performance_llm_gat.Prelude.{
  ℕ, String, Option, none, some, Bool, true, false, leb, if◌then◌else◌,
}
use high_performance_llm_gat.Prelude.Text.{
  trim_space, to_lower, is_blank, contains_text, show, ◌++ₛ◌,
}
use high_performance_llm_gat.Cache.{Reply, ok, fault}
use high_performance_llm_gat.Config.{MonitoringConfig}

-- The parts of a URL that `url.Parse` gives.
pub record Url : Type 0 where
  pub scheme : String
  pub host : String
  pub escaped_path : String

-- The options of the exporter.
pub record Exporter : Type 0 where
  pub endpoint : String
  pub url_path : Option String
  pub insecure : Bool

abbrev invalid : String → String → Reply (Option Exporter)
invalid endpoint why = fault ("invalid otlp endpoint \"" ++ₛ (endpoint ++ₛ ("\": " ++ₛ why)))

-- The path of a URL, if the exporter is given one.
abbrev path_option : String → Option String
path_option path = if str_eq path "" || str_eq path "/" then none else some path

-- The exporter of a full URL; the quotation of `%q` is left out.
unfoldable pub exporter_of_url : String → Reply Url → Reply (Option Exporter)
exporter_of_url endpoint (fault e) = invalid endpoint e
exporter_of_url endpoint (ok url) =
    let scheme = to_lower (trim_space url.scheme) in
    let exporter : Bool → Reply (Option Exporter) = λ insecure. ok (
      some (record {
        endpoint = url.host;
        url_path = path_option (trim_space url.escaped_path);
        insecure = insecure;
      })) in
    if is_blank url.host
    then invalid endpoint "host is empty"
    else if str_eq scheme "http"
    then exporter true
    else if str_eq scheme "https" || str_eq scheme ""
    then exporter false
    else invalid endpoint ("unsupported scheme \"" ++ₛ (url.scheme ++ₛ "\""))

-- The choice that `Init` makes: the exporter, none where tracing is off, or an error. `parse` is
-- `url.Parse`.
unfoldable pub exporter_of : (String → Reply Url) → MonitoringConfig → Reply (Option Exporter)
unfolding exporter_of_url
exporter_of parse cfg =
    let endpoint = trim_space cfg.otlp.endpoint in
    if not cfg.otlp.enabled || str_eq endpoint ""
    then ok none
    else if contains_text endpoint "://"
    then exporter_of_url endpoint (parse endpoint)
    else ok (some (record { endpoint = endpoint; url_path = none; insecure = cfg.otlp.insecure }))

-- The name of a request's span, from the method, the route's path and the request's path.
unfoldable pub span_name : String → String → String → String
span_name method full_path path =
    method ++ₛ (" " ++ₛ (if str_eq full_path "" then path else full_path))

-- The status of a span: the description of the error, none for codes.Ok.
unfoldable pub span_status : ℕ → Option String
span_status status = if leb 500 status then some ("http " ++ₛ show status) else none
