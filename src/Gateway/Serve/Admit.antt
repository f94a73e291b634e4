-- ===== src/Gateway/Serve/Admit.antt =====
-- internal/gateway/gateway.go: `ServeHTTP` up to the limits, which settles who asks for what.
use forcefield.Base.{
  List, ◌==◌, if◌then◌else◌, bytes, is_some, length, ltb, lookup, take, Bool, Bytes, bytes_eq,
  Option, Result, [], none, some, ok, err, ◌||◌, ◌&&◌, not,
}
use forcefield.Gateway.Handler.{
  hand_over, validate, Handler, halt, ◌>>=◌, ◌>>◌, call, or_return, value_or, resolve_workload,
}
use forcefield.Gateway.Grants.{one_grant_for_service, claim_limit_scopes}
use forcefield.Gateway.Serve.{
  LimitScope, adapter_ssh_session, capabilities_path, adapter_git_smart_http, deny_request, Session,
  adapter_http, CompiledPolicy, Claims, RuntimeCredential, Header, Metadata, resolve_grant, Grant,
  RuntimeService, Gateway, refuse, deny_record,
}
use forcefield.Library.{Codec, Http, Text, Url}
use forcefield.Gateway.Target.{
  route, CanonicalUrl, canonicalize_url, normalize_request_representation, request_has_upgrade, Net,
}
use forcefield.Gateway.Exchange.{HttpRequest}
use forcefield.Gateway.Adapter.{extract_token}
use forcefield.Tokens.Types.{ValidationRequest}

-- `err == nil`
abbrev pub to_option {ℓ κ} : {E : Type ℓ} {A : Type κ} → Result E A → Option A
to_option (ok a) = some a
to_option (err e) = none

module _ (u : Url) (tx : Text) (http : Http) (net : Net) (codec : Codec) where
  -- The tests before the target is read.
  unfoldable pub bad_request : HttpRequest → Bool
  unfolding bytes_eq request_has_upgrade
  bad_request r =
      ltb 32 (length r.method)
      || not (bytes_eq r.method (net.to_upper r.method))
      || http.equal_fold r.method (bytes "CONNECT")
      || http.equal_fold r.method (bytes "TRACE")
      || request_has_upgrade tx http r.header
      || not (r.trailers == 0)

  module _ {J G C : Type 0} (g : Gateway J G C) where
    -- `config.GrantID`
    unfoldable pub grant_id_of : Grant → Bytes
    grant_id_of grant = codec.hex_encode (take 8 (codec.sha256 (g.marshal_grant grant)))

    abbrev pub request_metadata : Bytes → Bytes → Metadata
    request_metadata method path = record {
      request_id = g.request_id;
      token_id = [];
      root_token_id = [];
      method = method;
      path_hash = codec.hex_encode (codec.sha256 path);
    }

    abbrev pub request_of : Bytes → ValidationRequest
    request_of workload = record { workload = workload; audience = g.audience }

    -- The credential, the policy and their revisions fit the grant.
    unfoldable pub settled :
        RuntimeService → Grant → RuntimeCredential → CompiledPolicy J G C → Bool
    unfolding bytes_eq
    settled service grant credential policy =
        bytes_eq credential.service service.name
        && not (bytes_eq credential.binding_revision [])
        && bytes_eq grant.binding_revision credential.binding_revision
        && bytes_eq service.adapter adapter_http
        && bytes_eq policy.adapter adapter_http
        && is_some policy.policy

    abbrev pub session :
        Metadata
        → RuntimeService
        → Bytes
        → Bytes
        → Header
        → Bytes
        → Bytes
        → Claims
        → Grant
        → RuntimeCredential
        → CompiledPolicy J G C
        → List LimitScope
        → Session J G C
    session meta service path query header token workload claims grant credential policy scopes =
        record {
          metadata = meta;
          service = service;
          relative_path = path;
          raw_query = query;
          header = header;
          token = token;
          workload = workload;
          claims = claims;
          grant = grant;
          grant_id = grant_id_of grant;
          credential = credential;
          policy = policy;
          scopes = scopes;
        }

    -- The grant's credential and policy, and the scopes of the token's chain.
    unfoldable pub settle :
        Metadata
        → RuntimeService
        → Bytes
        → Bytes
        → Header
        → Bytes
        → Bytes
        → Claims
        → Grant
        → Option (Session J G C)
    unfolding settled resolve_grant claim_limit_scopes lookup
    settle meta service path query header token workload claims grant =
        elim (lookup grant.credential_ref g.credentials) [
          | none ↦ none
          | some credential ↦ elim (resolve_grant g.config grant) [
            | none ↦ none
            | some policy ↦ elim (claim_limit_scopes claims grant) [
              | none ↦ none
              | some scopes ↦
                  if settled service grant credential policy
                  then some (
                      session meta service path query header token workload claims grant credential
                        policy scopes)
                  else none
            ]
          ]
        ]

    -- `recordDeny` before there is a grant.
    abbrev pub deny_early : {A : Type 0} → Metadata → RuntimeService → Bytes → Bytes → Handler A
    deny_early meta service workload id =
        refuse (deny_record meta service.name workload id 404 0) 404

    abbrev pub identified : Metadata → Claims → Metadata
    identified meta claims = record meta {
      token_id = claims.token_id;
      root_token_id = claims.root_token_id;
    }

    module _ (meta : Metadata) (service : RuntimeService) (path query : Bytes)
        (header : Header) where
      -- From the claims to the session.
      unfoldable pub with_claims : Bytes → Bytes → Claims → Handler (Session J G C)
      unfolding one_grant_for_service settle grant_id_of
      with_claims token workload claims =
          let grant = (one_grant_for_service claims.grants service.name).0 in
          or_return (one_grant_for_service claims.grants service.name).1
            (deny_early (identified meta claims) service workload [])
          >> value_or
              (settle (identified meta claims) service path query header token workload claims
                grant)
              (deny_early (identified meta claims) service workload (grant_id_of grant))

      unfoldable pub with_workload : Bytes → Bytes → Handler (Session J G C)
      unfolding with_claims
      with_workload token workload = call (validate token (request_of workload)) >>= λ found.
          value_or found (deny_early meta service workload []) >>= with_claims token workload

      unfoldable pub with_token : Bytes → Handler (Session J G C)
      unfolding with_workload
      with_token token = call resolve_workload >>= λ found.
          value_or found (deny_early meta service [] []) >>= with_workload token

      unfoldable pub authenticate : Handler (Session J G C)
      unfolding extract_token with_token
      authenticate =
          value_or (to_option (extract_token tx http service.extractor header))
            (deny_early meta service [] [])
          >>= with_token

    -- The service that the request is routed to, where this handler serves it.
    unfoldable pub dispatch :
        HttpRequest
        → Header
        → CanonicalUrl
        → Option (RuntimeService × Bytes)
        → Handler (Session J G C)
    unfolding authenticate bytes_eq
    dispatch r header url none = deny_request
    dispatch r header url (some (service, path)) =
        if bytes_eq service.adapter adapter_git_smart_http
          || bytes_eq service.adapter adapter_ssh_session
        then call (hand_over service.adapter) >> halt
        else authenticate (request_metadata r.method url.path) service path url.raw_query header

    unfoldable pub with_url : HttpRequest → Header → CanonicalUrl → Handler (Session J G C)
    unfolding dispatch route bytes_eq
    with_url r header url =
        if bytes_eq url.path capabilities_path
        then call (hand_over capabilities_path) >> halt
        else dispatch r header url (route http net g.host_routes g.path_routes r.host url.path)

    unfoldable pub with_header : HttpRequest → Header → Handler (Session J G C)
    unfolding with_url canonicalize_url
    with_header r header =
        value_or (to_option (canonicalize_url u tx net r.url)) deny_request >>= with_url r header

    unfoldable pub admit : HttpRequest → Handler (Session J G C)
    unfolding bad_request normalize_request_representation with_header
    admit r =
        or_return (not (bad_request r)) deny_request
        >> (value_or (normalize_request_representation tx http net r.header) deny_request
            >>= with_header r)
