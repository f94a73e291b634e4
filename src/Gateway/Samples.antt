-- ===== src/Gateway/Samples.antt =====
-- A gateway with one service for the tests: libraries that are the identity where they can be, one
-- credential, one policy, and answers of the rest of the system that let a request through.
use forcefield.Base.{
  ◌==◌, bytes_eq, length, Bytes, bytes, ℕ, [], ◌∷◌, none, some, true, false, ok, err, ◌++◌,
  replicate,
}
use forcefield.Tokens.Types.{Claims, Grant, Limits}
use forcefield.Policy.Evaluate.{CompiledRule, BodyMatchers, allow}
use forcefield.Gateway.Handler.{
  Act, Answer, Trace, resolve_workload, validate, charge_request, charge_bytes, record_audit,
  fetch_secret, exchange, respond, hand_over, abort,
}
use forcefield.Gateway.Serve.{adapter_http, CompiledPolicy, RuntimeService, Gateway}
use forcefield.Gateway.Target.{Net}
use forcefield.Library.{Url, Http}
use forcefield.Gateway.Adapter.{HeaderAdapter}
use forcefield.Gateway.Header.{Header}
use forcefield.Gateway.Exchange.{HttpRequest}

abbrev pub sample_http : Http
sample_http = record {
  canonical_key = λ s. s;
  equal_fold = bytes_eq;
  to_lower = λ s. s;
  base64_standard = λ s. s;
}

abbrev pub sample_url : Url
sample_url = record {
  path_escape = λ s. s;
  path_unescape = λ s. some s;
  query_escape = λ s. s;
  parse_query = λ q. some [];
}

abbrev pub sample_net : Net
sample_net = record {
  escaped_path = λ path raw. path;
  split_host = λ s. none;
  to_upper = λ s. s;
  media_type = λ s. true;
}

abbrev pub sample_bodies : BodyMatchers ℕ ℕ ℕ ℕ ℕ ℕ
sample_bodies = record {
  parse_json = λ c. ok (length c.body);
  json_matches = λ n m. n == m;
  parse_graphql = λ c. err 7;
  graphql_matches = λ n m. n == m;
  cel_matches = λ n c. ok true;
}

abbrev pub sample_bearer : Bytes
sample_bearer = bytes "ff_" ++ replicate 20 65

abbrev pub sample_adapter : HeaderAdapter
sample_adapter = record {
  client_header = bytes "X-Token";
  client_prefix = [];
  upstream_header = bytes "Authorization";
  upstream_prefix = bytes "Bearer ";
  basic_username = [];
  forward_headers = bytes "Accept" ∷ [];
  static_headers = [];
}

abbrev pub sample_header : Header
sample_header =
    (bytes "X-Token", sample_bearer ∷ [])
    ∷ (bytes "Accept", bytes "*/*" ∷ [])
    ∷ (bytes "Cookie", bytes "a=b" ∷ [])
    ∷ []

abbrev sample_limits : Limits
sample_limits = record {
  requests_per_second = 0;
  burst = 0;
  request_budget = 5;
  byte_budget = 0;
  max_request_bytes = 0;
}

abbrev pub sample_grant : Grant
sample_grant = record {
  service = bytes "api";
  credential_ref = bytes "key";
  policy_revision = bytes "p1";
  binding_revision = bytes "b1";
  limits = sample_limits;
}

abbrev pub sample_claims : Claims
sample_claims = record {
  token_id = bytes "root";
  parent_token_id = [];
  root_token_id = bytes "root";
  workload = bytes "vm";
  audience = bytes "here";
  issued_at = 5;
  expires_at = 100;
  grants = sample_grant ∷ [];
  allow_delegation = false;
  depth = 0;
  revoked_at = none;
  limit_chain =
      record { token_id = bytes "root"; expires_at = 100; grants = sample_grant ∷ [] } ∷ [];
}

abbrev sample_service : RuntimeService
sample_service = record {
  name = bytes "api";
  adapter = adapter_http;
  upstream = record { host = bytes "up"; path = bytes "/base/"; raw_path = [] };
  extractor = sample_adapter;
}

abbrev sample_rule : CompiledRule ℕ ℕ ℕ
sample_rule = record {
  id = bytes "all";
  effect = allow;
  methods = some (bytes "GET" ∷ []);
  paths = [];
  query = [];
  json = [];
  graphql = none;
  cel = none;
}

abbrev sample_policy : CompiledPolicy ℕ ℕ ℕ
sample_policy = record {
  service = bytes "api";
  adapter = adapter_http;
  revision = bytes "p1";
  policy = some record { rules = sample_rule ∷ []; body_limit = 64 };
}

abbrev pub sample_gateway : Gateway ℕ ℕ ℕ
sample_gateway = record {
  config = record {
    capability_services = bytes "api" ∷ [];
    credential_services = (bytes "key", bytes "api") ∷ [];
    binding_revisions = (bytes "key", bytes "b1") ∷ [];
    policy_revisions = (bytes "p1", sample_policy) ∷ [];
  };
  audience = bytes "here";
  max_request_bytes = 1024;
  credentials =
      (
        bytes "key",
        record {
          service = bytes "api";
          ref = bytes "vault";
          binding_revision = bytes "b1";
          adapter = sample_adapter;
        },
      )
      ∷ [];
  host_routes = [];
  path_routes = (bytes "/api", sample_service) ∷ [];
  marshal_grant = λ g. g.service;
  request_id = bytes "1";
}

abbrev pub sample_request : HttpRequest
sample_request = record {
  method = bytes "GET";
  url = record {
    is_abs = false;
    host = [];
    opaque = [];
    path = bytes "/api/v1";
    raw_path = [];
    raw_query = [];
  };
  host = bytes "gate";
  header = sample_header;
  content_length = some 2;
  body = some record { content = bytes "hi"; read_fails = false; close_fails = false };
  trailers = 0;
  late_trailers = 0;
}

abbrev pub sample_answer : (t : Trace) → (a : Act) → Answer a
sample_answer t resolve_workload = some (bytes "vm")
sample_answer t (validate bearer req) = some sample_claims
sample_answer t (charge_request scopes) = true
sample_answer t (charge_bytes scopes n) = true
sample_answer t (record_audit r) = true
sample_answer t (fetch_secret ref) = some (some (bytes "s3cret"))
sample_answer t (exchange o) = record { status = 200; bytes_out = 7; failed = false }
sample_answer t (respond status) = tt
sample_answer t (hand_over adapter) = tt
sample_answer t abort = tt
