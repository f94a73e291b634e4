-- ===== src/Gateway/Serve/Admitted.antt =====
-- internal/gateway/gateway.go: lemmas on the part of the handler that makes the session.
use forcefield.Gateway.Serve.Order.{unrestricted}
use forcefield.Gateway.Serve.Order.{Admitted, Origin, Permitted, validation_of}
use forcefield.Gateway.Serve.Routed.{route-Routed}
use forcefield.Gateway.Grants.Meaning.{one_grant-OnlyFor}
use forcefield.Gateway.Serve.Admit.{
  to_option, request_of, settle, identified, with_claims, with_workload, with_token, with_url,
  with_header, deny_early, request_metadata, grant_id_of, bad_request, to_option, authenticate,
  dispatch, admit,
}
use forcefield.Base.{
  bytes_eq, refl, ◌≡◌, Bytes, Option, [], ◌∷◌, none, some, ok, ◌||◌, not, Bool-cases, inl, inr,
}
use forcefield.Policy.Evaluate.{BodyMatchers}
use forcefield.Gateway.Handler.{
  value_or-Ensures_last, ◌>>=◌, value_or, Trace, validate, resolve_workload, Ensures,
  or_return-Ensures, value_or-Ensures, Returns,
}
use forcefield.Library.{Codec, Http, Text, Url}
use forcefield.Gateway.Target.{
  normalize_request_representation, route, canonicalize_url, CanonicalUrl, Net,
}
use forcefield.Gateway.Serve.{
  adapter_ssh_session, adapter_git_smart_http, capabilities_path, deny_request, Header,
  RuntimeService, Metadata, one_grant_for_service, Claims, Session, Gateway,
}
use forcefield.Gateway.Exchange.{HttpRequest}
use forcefield.Gateway.Adapter.{extract_token}
use forcefield.Gateway.Serve.Settled.{to_option-some, identified-Origin, settle-Admitted}

module _ (u : Url) (tx : Text) (http : Http) (net : Net) (codec : Codec) {E J D G Q C : Type 0}
    (body : BodyMatchers E J D G Q C) (g : Gateway J G C) where
  abbrev IsAdmitted : HttpRequest → Session J G C → Trace → Type 0
  IsAdmitted = Admitted u tx http net codec body g

  abbrev From : HttpRequest → Metadata → RuntimeService → Bytes → Bytes → Header → Type 0
  From = Origin u tx http net codec body g

  module _ (r : HttpRequest) where
    deny-Returns :
        (A : Type 0) → Returns (Permitted u tx http net codec body g r) (deny_request {A = A})
    deny-Returns A t = (tt, λ x. tt)

    module _ (meta : Metadata) (service : RuntimeService) (path query : Bytes) (header : Header)
        (origin : From r meta service path query header) where
      with_claims-Admitted :
          (token workload : Bytes) (claims : Claims)
          → extract_token tx http service.extractor header ≡ ok token
          → Ensures
              (Permitted u tx http net codec body g r)
              (with_claims u tx http net codec g meta service path query header token workload
                claims)
              (IsAdmitted r)
              ((validate token (request_of u tx http net codec g workload), some claims)
                ∷ (resolve_workload, some workload)
                ∷ [])
      unfolding with_claims
      with_claims-Admitted token workload claims x =
          let known = identified u tx http net codec g meta claims in
          let grant = (one_grant_for_service claims.grants service.name).0 in
          let found =
            settle u tx http net codec g known service path query header token workload claims
              grant in
          let deny_grant =
            deny_early u tx http net codec g known service workload
              (grant_id_of u tx http net codec g grant) in
          or_return-Ensures (Permitted u tx http net codec body g r)
            (one_grant_for_service claims.grants service.name).1
            (deny_early u tx http net codec g known service workload [])
            (λ y. value_or found deny_grant) (IsAdmitted r)
            ((validation_of u tx http net codec body g token workload, some claims)
              ∷ (resolve_workload, some workload)
              ∷ [])
            unrestricted
            (λ n.
              value_or-Ensures_last (Permitted u tx http net codec body g r) found deny_grant
                (IsAdmitted r)
                ((validation_of u tx http net codec body g token workload, some claims)
                  ∷ (resolve_workload, some workload)
                  ∷ [])
                unrestricted
                (λ s h.
                  settle-Admitted u tx http net codec body g r known service path query header token
                    workload claims grant s
                    (identified-Origin u tx http net codec body g r meta service path query header
                      claims origin)
                    refl refl x (one_grant-OnlyFor service.name claims.grants n) h))

      with_workload-Admitted :
          (token workload : Bytes)
          → extract_token tx http service.extractor header ≡ ok token
          → Ensures
              (Permitted u tx http net codec body g r)
              (with_workload u tx http net codec g meta service path query header token workload)
              (IsAdmitted r)
              ((resolve_workload, some workload) ∷ [])
      unfolding with_workload
      with_workload-Admitted token workload x = (
        tt,
        λ found.
            value_or-Ensures (Permitted u tx http net codec body g r) found
              (deny_early u tx http net codec g meta service workload [])
              (with_claims u tx http net codec g meta service path query header token workload)
              (IsAdmitted r)
              ((validation_of u tx http net codec body g token workload, found)
                ∷ (resolve_workload, some workload)
                ∷ [])
              unrestricted (λ claims e. rw e (with_claims-Admitted token workload claims x)),
      )

      with_token-Admitted :
          (token : Bytes)
          → extract_token tx http service.extractor header ≡ ok token
          → Ensures
              (Permitted u tx http net codec body g r)
              (with_token u tx http net codec g meta service path query header token)
              (IsAdmitted r)
              []
      unfolding with_token
      with_token-Admitted token x = (
        tt,
        λ found.
            value_or-Ensures (Permitted u tx http net codec body g r) found
              (deny_early u tx http net codec g meta service [] [])
              (with_workload u tx http net codec g meta service path query header token)
              (IsAdmitted r) ((resolve_workload, found) ∷ []) unrestricted
              (λ workload e. rw e (with_workload-Admitted token workload x)),
      )

      authenticate-Admitted :
          Ensures
            (Permitted u tx http net codec body g r)
            (authenticate u tx http net codec g meta service path query header)
            (IsAdmitted r)
            []
      unfolding authenticate
      authenticate-Admitted =
          let found = to_option (extract_token tx http service.extractor header) in
          value_or-Ensures (Permitted u tx http net codec body g r) found
            (deny_early u tx http net codec g meta service [] [])
            (with_token u tx http net codec g meta service path query header) (IsAdmitted r) []
            unrestricted
            (λ token e.
              with_token-Admitted token
                (to_option-some (extract_token tx http service.extractor header) token e))

    dispatch-Admitted :
        (header : Header) (url : CanonicalUrl) (found : Option (RuntimeService × Bytes))
        → normalize_request_representation tx http net r.header ≡ some header
        → canonicalize_url u tx net r.url ≡ ok url
        → route http net g.host_routes g.path_routes r.host url.path ≡ found
        → Ensures
            (Permitted u tx http net codec body g r)
            (dispatch u tx http net codec g r header url found)
            (IsAdmitted r)
            []
    unfolding dispatch
    dispatch-Admitted header url none a b c = (tt, λ x. tt)
    dispatch-Admitted header url (some (service, path)) a b c =
        elim (Bool-cases (
          bytes_eq service.adapter adapter_git_smart_http
          || bytes_eq service.adapter adapter_ssh_session)) [
            | inl y ↦ rw y (tt, λ x. tt)
            | inr n ↦
                let (host, of, k) =
                  route-Routed http net g.host_routes g.path_routes r.host url.path service path
                    c in
                rw n (
                  authenticate-Admitted (request_metadata u tx http net codec g r.method url.path)
                    service path url.raw_query header
                    record {
                      url = url;
                      host = host;
                      represented = a;
                      canonical = b;
                      host_of = of;
                      routed = k;
                      queried = refl;
                      request_id = refl;
                      method = refl;
                      path_hash = refl;
                    })
          ]

    with_url-Admitted :
        (header : Header) (url : CanonicalUrl)
        → normalize_request_representation tx http net r.header ≡ some header
        → canonicalize_url u tx net r.url ≡ ok url
        → Ensures
            (Permitted u tx http net codec body g r)
            (with_url u tx http net codec g r header url)
            (IsAdmitted r)
            []
    unfolding with_url
    with_url-Admitted header url a b = elim (Bool-cases (bytes_eq url.path capabilities_path)) [
      | inl y ↦ rw y (tt, λ x. tt)
      | inr n ↦ rw n (
          dispatch-Admitted header url (route http net g.host_routes g.path_routes r.host url.path)
            a b refl)
    ]

    with_header-Admitted :
        (header : Header)
        → normalize_request_representation tx http net r.header ≡ some header
        → Ensures
            (Permitted u tx http net codec body g r)
            (with_header u tx http net codec g r header)
            (IsAdmitted r)
            []
    unfolding with_header
    with_header-Admitted header a =
        value_or-Ensures (Permitted u tx http net codec body g r)
          (to_option (canonicalize_url u tx net r.url)) deny_request
          (with_url u tx http net codec g r header) (IsAdmitted r) [] (deny-Returns CanonicalUrl)
          (λ url e.
            with_url-Admitted header url a (to_option-some (canonicalize_url u tx net r.url) url e))

    pub admit-Admitted :
        Ensures
          (Permitted u tx http net codec body g r)
          (admit u tx http net codec g r)
          (IsAdmitted r)
          []
    unfolding admit
    admit-Admitted =
        let normal = normalize_request_representation tx http net r.header in
        or_return-Ensures (Permitted u tx http net codec body g r)
          (not (bad_request u tx http net codec r)) deny_request
          (λ x. value_or normal deny_request >>= with_header u tx http net codec g r) (IsAdmitted r)
          [] (deny-Returns Unit)
          (λ h.
            value_or-Ensures (Permitted u tx http net codec body g r) normal deny_request
              (with_header u tx http net codec g r) (IsAdmitted r) [] (deny-Returns Header)
              (λ header e. with_header-Admitted header e))
