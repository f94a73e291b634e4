-- ===== src/Gateway/Serve/Order.antt =====
-- internal/gateway/gateway.go: what has to precede each call that `ServeHTTP` makes.
use forcefield.Gateway.Serve.Admit.{request_of}
use forcefield.Gateway.Serve.Routed.{Routed, HostOf}
use forcefield.Gateway.Serve.InForce.{InForce}
use forcefield.Gateway.Grants.Meaning.{OnlyFor}
use forcefield.Gateway.Grants.Charged.{WholeChain}
use forcefield.Base.{
  bytes, join, trim_suffix, none, ℕ, List, ◌++◌, Bool, ◌≡◌, Bytes, Option, [], ◌∷◌, some, true, ok,
}
use forcefield.Policy.Evaluate.{Decision, BodyMatchers, evaluate, Effect}
use forcefield.Gateway.Handler.{
  decision_allow, Act, Trace, AuditRecord, validate, resolve_workload, fetch_secret, exchange,
  record_audit, charge_bytes, charge_request,
}
use forcefield.Library.{Codec, Http, Text, Url}
use forcefield.Gateway.Limit.{LimitScope}
use forcefield.Gateway.Target.{
  get_header, canonicalize_url, normalize_request_representation, CanonicalUrl, Net,
}
use forcefield.Gateway.Header.{Header, set_value}
use forcefield.Gateway.Serve.{Claims, Metadata, RuntimeService, Session, Gateway}
use forcefield.Gateway.Exchange.{
  body_size, prepare_request_body, body_bytes, needs_body, TargetUrl, Outbound, HttpRequest,
}
use forcefield.Gateway.Adapter.{rewrite_headers}
use forcefield.Gateway.Serve.Carried.{Carries}

-- A refusal, which records, answers and returns, asks nothing that is restricted.
pub unrestricted : (t : Trace) → Unit {0} × (Bool → Unit {0} × (Unit {0} → Unit {0}))
unrestricted t = (tt, λ a. (tt, λ b. tt))

module _ (u : Url) (tx : Text) (http : Http) (net : Net) (codec : Codec) {E J D G Q C : Type 0}
    (body : BodyMatchers E J D G Q C) (g : Gateway J G C) where
  abbrev pub validation_of : Bytes → Bytes → Act
  validation_of token workload = validate token (request_of u tx http net codec g workload)

  abbrev pub validation : Session J G C → Act
  validation s = validation_of s.token s.workload

  -- What the first part of the handler reads from the request: the header once it is normalised, the
  -- canonical target, the service that it is routed to, and the path and the query for that service.
  pub record Origin (r : HttpRequest) (meta : Metadata) (service : RuntimeService)
      (path query : Bytes) (header : Header) : Type 0 where
    pub url : CanonicalUrl
    pub host : Bytes
    pub represented : normalize_request_representation tx http net r.header ≡ some header
    pub canonical : canonicalize_url u tx net r.url ≡ ok url
    pub host_of : HostOf net r.host host
    pub routed : Routed http g.host_routes g.path_routes host url.path service path
    pub queried : query ≡ url.raw_query
    pub request_id : meta.request_id ≡ g.request_id
    pub method : meta.method ≡ r.method
    pub path_hash : meta.path_hash ≡ codec.hex_encode (codec.sha256 url.path)

  -- The session stands on the request, on a validated token and on the configuration.
  pub record Admitted (r : HttpRequest) (s : Session J G C) (t : Trace) : Type 0 where
    pub origin : Origin r s.metadata s.service s.relative_path s.raw_query s.header
    pub token_id : s.metadata.token_id ≡ s.claims.token_id
    pub root_token_id : s.metadata.root_token_id ≡ s.claims.root_token_id
    pub bearer : Carries tx http s.service.extractor s.header s.token
    pub named : OnlyFor s.service.name s.grant s.claims.grants
    pub in_force : InForce g s.service s.grant s.credential s.policy
    pub scopes : WholeChain s.claims s.grant s.scopes
    pub history : t ≡ (validation s, some s.claims) ∷ (resolve_workload, some s.workload) ∷ []

  -- The record of the allow, written before the secret is fetched.
  abbrev pub allow_entry : HttpRequest → Session J G C → Decision E → ℕ → AuditRecord
  allow_entry r s decision size = record {
    request_id = s.metadata.request_id;
    token_id = s.metadata.token_id;
    root_token_id = s.metadata.root_token_id;
    policy_revision = s.policy.revision;
    rule_id = join (bytes ",") decision.matched_rule_ids;
    reason = some decision.reason;
    method = s.metadata.method;
    path_hash = s.metadata.path_hash;
    workload_id = s.workload;
    grant_id = s.grant_id;
    service = s.service.name;
    decision = decision_allow;
    status = 0;
    bytes_in = size;
    bytes_out = 0;
  }

  -- Also charged, allowed by the policy, and on record.
  pub record Cleared (r : HttpRequest) (s : Session J G C) (sent : Option Bytes)
      (target : TargetUrl) (t : Trace) : Type 0 where
    pub before : Trace
    pub admitted : Admitted r s before
    pub prepared :
        prepare_request_body tx http
          (record r { header = s.header })
          s.policy.policy
          s.grant.limits
          g.max_request_bytes
        ≡ ok sent
    pub decision : Decision E
    pub decided :
        decision
        ≡ evaluate body u tx s.policy.policy record {
          method = r.method;
          escaped_path = net.escaped_path s.relative_path [];
          raw_query = s.raw_query;
          content_type = get_header tx http (bytes "Content-Type") s.header;
          body = body_bytes sent (needs_body s.policy.policy);
        }
    pub allowed : (decision.effect ≡ Effect.allow) × (decision.error ≡ none)
    pub path : u.path_unescape decision.canonical_path_text ≡ some target.path
    pub raw_path : target.raw_path ≡ decision.canonical_path_text
    pub raw_query : target.raw_query ≡ decision.canonical_query_text
    pub history :
        t
        ≡ (record_audit (allow_entry r s decision (body_size sent)), true)
          ∷ (charge_bytes s.scopes (body_size sent), true)
          ∷ (charge_request s.scopes, true)
          ∷ before

  -- A validation right before that gives the same identity and expiry as the first and the session's
  -- grant as the only one for its service, with a whole chain of limits.
  pub record Renewed (s : Session J G C) (t : Trace) (before : Trace) : Type 0 where
    pub fresh : Claims
    pub token_id : fresh.token_id ≡ s.claims.token_id
    pub root_token_id : fresh.root_token_id ≡ s.claims.root_token_id
    pub expires_at : fresh.expires_at ≡ s.claims.expires_at
    pub named : OnlyFor s.grant.service s.grant fresh.grants
    pub scopes : (scopes : List LimitScope) × WholeChain fresh s.grant scopes
    pub history : t ≡ (validation s, some fresh) ∷ before

  -- The upstream's request: the client's method and body, the upstream's host, the target below the
  -- upstream's path, and the header that the adapter makes of the client's and the secret.
  pub record Sends (r : HttpRequest) (s : Session J G C) (sent : Option Bytes) (target : TargetUrl)
      (secret : Bytes) (o : Outbound) : Type 0 where
    pub header : Header
    pub method : o.method ≡ r.method
    pub content : o.body ≡ sent
    pub host : o.host ≡ s.service.upstream.host
    pub path : o.target.path ≡ trim_suffix s.service.upstream.path (bytes "/") ++ target.path
    pub raw_query : o.target.raw_query ≡ target.raw_query
    pub rewritten : rewrite_headers http s.credential.adapter s.header s.header secret ≡ ok header
    pub encoded : o.header ≡ set_value http (bytes "Accept-Encoding") (bytes "identity") header

  pub record MayFetch (r : HttpRequest) (s : Session J G C) (sent : Option Bytes)
      (target : TargetUrl) (ref : Bytes) (t : Trace) : Type 0 where
    pub before : Trace
    pub cleared : Cleared r s sent target before
    pub renewed : Renewed s t before
    pub own : ref ≡ s.credential.ref

  pub record MaySend (r : HttpRequest) (o : Outbound) (t : Trace) : Type 0 where
    pub s : Session J G C
    pub sent : Option Bytes
    pub target : TargetUrl
    pub secret : Bytes
    pub before : Trace
    pub fetched : MayFetch r s sent target s.credential.ref before
    pub renewed : Renewed s t ((fetch_secret s.credential.ref, some (some secret)) ∷ before)
    pub built : Sends r s sent target secret o

  -- What the handler may ask when: the secret and the upstream are guarded, the rest is free.
  abbrev pub Permitted : HttpRequest → Act → Trace → Type 0
  Permitted r (fetch_secret ref) t =
      (s : Session J G C) × ((sent : Option Bytes) × ((target : TargetUrl) × MayFetch r s sent
            target ref t))
  Permitted r (exchange o) t = MaySend r o t
  Permitted r _ t = Unit
