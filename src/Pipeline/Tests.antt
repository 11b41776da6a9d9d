-- ===== src/Pipeline/Tests.antt =====
-- A pipeline on the engine of internal/rbac, and instances of the pipeline's theorems on it.
use mcp_zero_trust_proxy.Config.{CorsConfig}
use mcp_zero_trust_proxy.Pipeline.Cors.{apply_cors, origin_allowed}
use mcp_zero_trust_proxy.Base.{
  String, ◌≡◌, refl, sym, ap, subst, true, false, none, some, [], ◌∷◌, All, Result, ok, pos,
}
use mcp_zero_trust_proxy.Protocol.{ClientIdentity}
use mcp_zero_trust_proxy.Protocol.Samples.{sample_codec, client_of}
use mcp_zero_trust_proxy.Protocol.Samples.{list_request, delete_call}
use mcp_zero_trust_proxy.Pipeline.{Event}
use mcp_zero_trust_proxy.Pipeline.Denials.{IsQuiet, accept_request-IsQuiet}
use mcp_zero_trust_proxy.Pipeline.Answers.{BatchRun, process_items-BatchRun}
use mcp_zero_trust_proxy.Pipeline.Batch.{process_items}
use mcp_zero_trust_proxy.Pipeline.Serve.{accept_request}
use mcp_zero_trust_proxy.Base.{◌++◌, List, contains, lookup}
use mcp_zero_trust_proxy.Http.{event_stream, HttpRequest, full}
use mcp_zero_trust_proxy.Rbac.{Engine, RoleConfig, ClassificationConfig, new_engine}
use mcp_zero_trust_proxy.Rbac.Floors.{Raised-refl}
use mcp_zero_trust_proxy.Pipeline.{Pipeline, Run}
use mcp_zero_trust_proxy.Pipeline.Mediation.{Yields, IsSafe, IsMediated}
use mcp_zero_trust_proxy.Pipeline.Guarded.{serve_http-IsSafe}
use mcp_zero_trust_proxy.Pipeline.Serve.{serve_http}
use mcp_zero_trust_proxy.Pipeline.ReadOnly.{
  rbac_engine, Others, IsReadOnly, NotCall, Configured, IsReadOnly-guards, read_only_sends_no_call,
}

abbrev reader_role : RoleConfig
reader_role = record {
  name = "readonly";
  allowed_tools = [];
  deny_tools = [];
  classification_level = "";
}

abbrev reader : ClientIdentity
reader = client_of "readonly" "s1"

abbrev unclassified : ClassificationConfig
unclassified = record { levels = []; tool_assignments = [] }

abbrev reader_engine : Engine
reader_engine = new_engine (reader_role ∷ []) unclassified

abbrev read_auth :
    HttpRequest → Engine × Unit {0} → Result String ClientIdentity × (Engine × Unit {0})
read_auth r s = (ok (reader), s)

-- Authentication gives the identity of one reader, and the upstream answers with nothing.
abbrev reader_pipeline : Pipeline (Engine × Unit {0})
reader_pipeline = record {
  upstream = λ f s. (record { status_code = 200; body = [] }, s);
  auth = some read_auth;
  rate_limiter = none;
  rbac = some (rbac_engine sample_codec (Unit {0}));
  pii_masker = none;
  audit_logger = true;
  auth_handler = none;
  tool_catalog = none;
  cache_tools_list = false;
  max_body_size = 0;
}

-- A batch of a tools/list and a tools/call.
abbrev batch_post : HttpRequest
batch_post = record {
  http_method = "POST";
  path = "/mcp";
  authorization = "";
  accept = [];
  forwarded_for = [];
  real_ip = [];
  remote_addr = [];
  content_length = pos 3;
  body = full (b'[' ∷ b'l' ∷ b'{' ∷ []);
  resolved_server = none;
}

abbrev at_rest : Run (Engine × Unit {0})
at_rest = record { state = (reader_engine, tt); trace = [] }

reader-Others : Others reader_pipeline
reader-Others = record {
  auth_engine = λ check r s there.
      let same : read_auth ≡ check = cc in subst (λ f. (f r s).1.0 ≡ s.0) same refl;
  route_engine = λ h r s there. cc;
  rate_engine = λ l key s there. cc;
  header_engine = λ l key s there. cc;
  upstream_engine = λ f s. refl;
}

reader-Yields : Yields reader_pipeline IsReadOnly batch_post (reader_engine, tt)
reader-Yields = λ check i there q.
    let same : read_auth ≡ check = cc in
    let answer : ok (reader) ≡ ok i =
      subst (λ f. (f batch_post (reader_engine, tt)).0 ≡ ok i) (sym same) q in
    let identity : reader ≡ i = cc in sym (ap (λ j. j.role) identity)

serve_http-IsSafe_example :
    IsSafe
      (Configured sample_codec reader_pipeline (reader_role ∷ []) unclassified)
      NotCall
      (serve_http sample_codec reader_pipeline batch_post "r1" at_rest).1
serve_http-IsSafe_example =
    serve_http-IsSafe sample_codec reader_pipeline
      (IsReadOnly-guards sample_codec reader_pipeline (reader_role ∷ []) unclassified refl
        reader-Others)
      batch_post "r1" at_rest reader-Yields
      (record { inv = Raised-refl reader_engine; mediated = tt })

read_only_sends_no_call_example :
    All
      (IsMediated NotCall)
      (serve_http sample_codec reader_pipeline batch_post "r1" at_rest).1.trace
read_only_sends_no_call_example =
    read_only_sends_no_call sample_codec reader_pipeline (reader_role ∷ []) unclassified batch_post
      "r1" at_rest refl reader-Others reader-Yields (Raised-refl reader_engine) tt

-- An SSE request of the reader is refused.
abbrev sse_request : HttpRequest
sse_request = record batch_post { accept = event_stream }

accept_request-IsQuiet_example :
    IsQuiet [] (accept_request sample_codec reader_pipeline sse_request "r1" at_rest)
accept_request-IsQuiet_example =
    accept_request-IsQuiet sample_codec reader_pipeline refl [] sse_request "r1" at_rest refl

process_items-BatchRun_example :
    (events : List Event) × ((process_items sample_codec reader_pipeline "r1"
        (some reader)
        (list_request ∷ delete_call ∷ [])
        at_rest).1.trace
      ≡ [] ++ events)
    × BatchRun sample_codec reader_pipeline "r1"
        (some reader)
        (reader_engine, tt)
        (list_request ∷ delete_call ∷ [])
        (process_items sample_codec reader_pipeline "r1"
          (some reader)
          (list_request ∷ delete_call ∷ [])
          at_rest).0
        events
        (process_items sample_codec reader_pipeline "r1"
          (some reader)
          (list_request ∷ delete_call ∷ [])
          at_rest).1.state
process_items-BatchRun_example =
    process_items-BatchRun sample_codec reader_pipeline "r1" (some reader) refl
      (list_request ∷ delete_call ∷ []) at_rest

abbrev one_origin : CorsConfig
one_origin = record {
  allowed_origins = "https://app" ∷ [];
  allowed_methods = "POST" ∷ [];
  allowed_headers = [];
  max_age = pos 60;
}

origin_allowed_example :
    lookup "Access-Control-Allow-Origin"
      (apply_cors (λ names. "POST") (λ n. "60") (some one_origin) "https://app" [])
    ≡ some "https://app"
unfolding contains
origin_allowed_example = origin_allowed (λ names. "POST") (λ n. "60") one_origin "https://app" []
