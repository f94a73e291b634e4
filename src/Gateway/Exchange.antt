-- ===== src/Gateway/Exchange.antt =====
-- internal/gateway/gateway.go and internal/policy/compile.go: the body of a request, and what `forward`
-- sends upstream.
use forcefield.Base.{
  ◌>>=◌, ◌>>◌, is_some, reject, ◌||◌, ◌==◌, ◌&&◌, if◌then◌else◌, ltb, Result, not, ◌+◌, bytes,
  length, take, Bool, List, Option, Bytes, bytes_eq, ℕ, trim_suffix, [], ◌∷◌, none, some, false, ok,
  err, ◌++◌,
}
use forcefield.Policy.Evaluate.{Policy, CompiledRule, Decision}
use forcefield.Library.{Url, Http, Text}
use forcefield.Gateway.Adapter.{AdapterError, HeaderAdapter, leak_patterns, rewrite_headers}
use forcefield.Gateway.Target.{
  unbounded_body, encoded_body, over_grant_limit, invalid_global_limit, invalid_policy_target,
  TargetError, get_header, RequestUrl, Net,
}
use forcefield.Gateway.Header.{set_value, Header}
use forcefield.Tokens.Types.{Limits}

-- The client's body: its bytes, and whether a read or the close of it fails.
pub record Body : Type 0 where
  pub content : Bytes
  pub read_fails : Bool
  pub close_fails : Bool

-- The length that a request declares is `none` when it is not known, which Go writes as -1.
-- `trailers` counts the trailer fields before the body is read, `late_trailers` those after it.
pub record HttpRequest : Type 0 where
  pub method : Bytes
  pub url : RequestUrl
  pub host : Bytes
  pub header : Header
  pub content_length : Option ℕ
  pub body : Option Body
  pub trailers : ℕ
  pub late_trailers : ℕ

unfoldable pub any_body_rule : {J G C : Type 0} → List (CompiledRule J G C) → Bool
any_body_rule [] = false
any_body_rule (r ∷ rules) =
    not (length r.json == 0) || is_some r.graphql || is_some r.cel || any_body_rule rules

-- `NeedsBody`, with the loop of the compiler that finds it.
unfoldable pub needs_body : {J G C : Type 0} → Option (Policy J G C) → Bool
unfolding any_body_rule
needs_body none = false
needs_body (some p) = any_body_rule p.rules

unfoldable pub max_body_bytes : {J G C : Type 0} → Option (Policy J G C) → ℕ
max_body_bytes none = 0
max_body_bytes (some p) = p.body_limit

abbrev pub max_global_limit : ℕ
max_global_limit = 1073741824

abbrev pub declares_more : Option ℕ → ℕ → Bool
declares_more none cap = false
declares_more (some n) cap = ltb cap n

-- The least of the limits that apply.
unfoldable pub cap_bytes : {J G C : Type 0} → Option (Policy J G C) → Limits → ℕ → ℕ
unfolding needs_body max_body_bytes
cap_bytes p limits global_max =
    let cap =
      if needs_body p && ltb (max_body_bytes p) global_max then max_body_bytes p else global_max in
    if not (limits.max_request_bytes == 0) && ltb limits.max_request_bytes cap
    then limits.max_request_bytes
    else cap

-- The read of at most `cap + 1` bytes; `none` is an error.
unfoldable pub read_bounded : ℕ → Body → Option Bytes
read_bounded cap b =
    let got = take (cap + 1) b.content in
    if b.read_fails || b.close_fails || ltb cap (length got) then none else some got

module _ (tx : Text) (http : Http) where
  -- The bytes of the body, `none` where there is none, and an error that refuses the request.
  unfoldable pub prepare_request_body :
      {J G C : Type 0}
      → HttpRequest
      → Option (Policy J G C)
      → Limits
      → ℕ
      → Result TargetError (Option Bytes)
  unfolding cap_bytes read_bounded get_header bytes_eq
  prepare_request_body r p limits global_max =
      let cap = cap_bytes p limits global_max in
      let encoding = tx.trim_space (get_header tx http (bytes "Content-Encoding") r.header) in
      reject (global_max == 0 || ltb max_global_limit global_max) invalid_global_limit
      >> (reject (declares_more r.content_length cap) over_grant_limit >> elim r.body [
        | none ↦ ok none
        | some b ↦
            reject (not (bytes_eq encoding []) && not (http.equal_fold encoding (bytes "identity")))
              encoded_body
            >> elim (read_bounded cap b) [ none ↦ err unbounded_body | some got ↦ ok (some got) ]
      ])

abbrev pub body_size : Option Bytes → ℕ
body_size none = 0
body_size (some s) = length s

unfoldable pub body_bytes : Option Bytes → Bool → Bytes
body_bytes none needed = []
body_bytes (some s) needed = if needed then s else []

-- The path, its raw spelling and the query.
pub record TargetUrl : Type 0 where
  pub path : Bytes
  pub raw_path : Bytes
  pub raw_query : Bytes

unfoldable pub apply_policy_target : {E : Type 0} → Url → Decision E → Result TargetError TargetUrl
unfolding bytes_eq
apply_policy_target u d = elim (u.path_unescape d.canonical_path_text) [
  | none ↦ err invalid_policy_target
  | some decoded ↦
      reject (bytes_eq decoded []) invalid_policy_target
      >> ok record {
        path = decoded;
        raw_path = d.canonical_path_text;
        raw_query = d.canonical_query_text;
      }
]

-- What `RoundTrip` is called with, and the patterns that the response is searched for.
pub record Outbound : Type 0 where
  pub method : Bytes
  pub host : Bytes
  pub target : TargetUrl
  pub header : Header
  pub body : Option Bytes
  pub patterns : List Bytes

-- `service.upstream`: its host, path and raw path.
pub record Upstream : Type 0 where
  pub host : Bytes
  pub path : Bytes
  pub raw_path : Bytes

unfoldable pub join_target : Net → Upstream → TargetUrl → TargetUrl
unfolding trim_suffix
join_target net up relative = record {
  path = trim_suffix up.path (bytes "/") ++ relative.path;
  raw_path =
      trim_suffix (net.escaped_path up.path up.raw_path) (bytes "/")
      ++ net.escaped_path relative.path relative.raw_path;
  raw_query = relative.raw_query;
}

-- `forward` up to `RoundTrip`. The clone of the request has the client's header.
unfoldable pub outbound_request :
    Http
    → Net
    → Upstream
    → HeaderAdapter
    → HttpRequest
    → Option Bytes
    → TargetUrl
    → Bytes
    → Result AdapterError Outbound
unfolding join_target rewrite_headers leak_patterns set_value
outbound_request http net up a r body relative secret =
    rewrite_headers http a r.header r.header secret >>= λ header.
    leak_patterns http a secret >>= λ patterns. ok record {
      method = r.method;
      host = up.host;
      target = join_target net up relative;
      header = set_value http (bytes "Accept-Encoding") (bytes "identity") header;
      body = body;
      patterns = patterns;
    }
