-- ===== src/Gateway/Serve/AdmitAnswered.antt =====
-- The first part of the handler answers the client once where it returns.
use forcefield.Base.{
  refl, bytes_eq, Bytes, Option, [], none, some, false, ◌||◌, not, Bool-cases, inl, inr,
}
use forcefield.Gateway.Handler.{◌>>=◌, value_or}
use forcefield.Gateway.Serve.Admit.{
  to_option, with_claims, with_workload, with_token, authenticate, dispatch, with_url, with_header,
  admit, deny_early, identified, settle, grant_id_of, bad_request, request_metadata,
}
use forcefield.Gateway.Serve.Reply.{refuse-Refuses}
use forcefield.Library.{Codec, Http, Text, Url}
use forcefield.Gateway.Target.{
  route, canonicalize_url, normalize_request_representation, CanonicalUrl, Net,
}
use forcefield.Gateway.Serve.{
  adapter_ssh_session, deny_request, adapter_git_smart_http, one_grant_for_service,
  capabilities_path, Claims, RuntimeService, Header, Metadata, Gateway,
}
use forcefield.Gateway.Exchange.{HttpRequest}
use forcefield.Gateway.Serve.Reply.{
  value_or-Settles_last, value_or-Settles, or_return-Settles, Unanswered, Settles,
}
use forcefield.Gateway.Adapter.{extract_token}

module _ (u : Url) (tx : Text) (http : Http) (net : Net) (codec : Codec) {J G C : Type 0}
    (g : Gateway J G C) where
  module _ (meta : Metadata) (service : RuntimeService) (path query : Bytes) (header : Header) where
    with_claims-Settles :
        (token workload : Bytes) (claims : Claims)
        → Settles
            (with_claims u tx http net codec g meta service path query header token workload claims)
            false
            Unanswered
    unfolding with_claims
    with_claims-Settles token workload claims =
        let known = identified u tx http net codec g meta claims in
        let grant = (one_grant_for_service claims.grants service.name).0 in
        let deny_grant =
          deny_early u tx http net codec g known service workload
            (grant_id_of u tx http net codec g grant) in
        let found =
          settle u tx http net codec g known service path query header token workload claims
            grant in
        or_return-Settles (one_grant_for_service claims.grants service.name).1
          (deny_early u tx http net codec g known service workload [])
          (λ y. value_or found deny_grant) Unanswered refuse-Refuses
          (value_or-Settles_last found deny_grant refuse-Refuses)

    with_token-Settles :
        (token : Bytes)
        → Settles
            (with_token u tx http net codec g meta service path query header token)
            false
            Unanswered
    unfolding with_token with_workload
    with_token-Settles token = (
      tt,
      λ found x. (
        λ e. refl,
        value_or-Settles found (deny_early u tx http net codec g meta service [] [])
            (with_workload u tx http net codec g meta service path query header token) Unanswered
            refuse-Refuses
            (λ workload. (
              tt,
              λ claims y. (
                λ e. refl,
                value_or-Settles claims (deny_early u tx http net codec g meta service workload [])
                    (with_claims u tx http net codec g meta service path query header token
                      workload)
                    Unanswered refuse-Refuses (λ c. with_claims-Settles token workload c),
              ),
            )),
      ),
    )

    authenticate-Settles :
        Settles (authenticate u tx http net codec g meta service path query header) false Unanswered
    unfolding authenticate
    authenticate-Settles =
        value_or-Settles (to_option (extract_token tx http service.extractor header))
          (deny_early u tx http net codec g meta service [] [])
          (with_token u tx http net codec g meta service path query header) Unanswered
          refuse-Refuses with_token-Settles

  dispatch-Settles :
      (r : HttpRequest) (header : Header) (url : CanonicalUrl)
      (found : Option (RuntimeService × Bytes))
      → Settles (dispatch u tx http net codec g r header url found) false Unanswered
  unfolding dispatch
  dispatch-Settles r header url none = (refl, λ q z. (λ e. refl, refl))
  dispatch-Settles r header url (some (service, path)) =
      elim (Bool-cases (
        bytes_eq service.adapter adapter_git_smart_http
        || bytes_eq service.adapter adapter_ssh_session)) [
          | inl y ↦ rw y (tt, λ q z. (λ e. refl, refl))
          | inr n ↦ rw n (
              authenticate-Settles (request_metadata u tx http net codec g r.method url.path)
                service path url.raw_query header)
        ]

  with_url-Settles :
      (r : HttpRequest) (header : Header) (url : CanonicalUrl)
      → Settles (with_url u tx http net codec g r header url) false Unanswered
  unfolding with_url
  with_url-Settles r header url = elim (Bool-cases (bytes_eq url.path capabilities_path)) [
    | inl y ↦ rw y (tt, λ q z. (λ e. refl, refl))
    | inr n ↦
        rw n (
          dispatch-Settles r header url
            (route http net g.host_routes g.path_routes r.host url.path))
  ]

  pub admit-Settles : (r : HttpRequest) → Settles (admit u tx http net codec g r) false Unanswered
  unfolding admit with_header
  admit-Settles r =
      let normal = normalize_request_representation tx http net r.header in
      or_return-Settles (not (bad_request u tx http net codec r)) deny_request
        (λ x. value_or normal deny_request >>= with_header u tx http net codec g r) Unanswered
        (refl, λ q z. (λ e. refl, refl))
        (value_or-Settles normal deny_request (with_header u tx http net codec g r) Unanswered
          (refl, λ q z. (λ e. refl, refl))
          (λ header.
            value_or-Settles (to_option (canonicalize_url u tx net r.url)) deny_request
              (with_url u tx http net codec g r header) Unanswered (refl, λ q z. (λ e. refl, refl))
              (λ url. with_url-Settles r header url)))
