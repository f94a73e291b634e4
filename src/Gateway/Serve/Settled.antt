-- ===== src/Gateway/Serve/Settled.antt =====
-- internal/gateway/gateway.go: lemmas on the session that is made of the claims and the configuration.
use forcefield.Gateway.Serve.Order.{Admitted, Origin}
use forcefield.Gateway.Serve.Carried.{extract_token-Carries}
use forcefield.Gateway.Serve.InForce.{settled-InForce}
use forcefield.Gateway.Grants.Meaning.{OnlyFor}
use forcefield.Gateway.Grants.Scopes.{claim_limit_scopes-WholeChain}
use forcefield.Gateway.Serve.Admit.{
  to_option, request_of, settled, settle, session, identified, to_option,
}
use forcefield.Base.{
  ap, Result, refl, ◌∙◌, sym, subst, arith, lookup, ◌≡◌, Bytes, Option, [], ◌∷◌, some, ok, err,
  Option-cases, Bool-cases, inl, inr,
}
use forcefield.Policy.Evaluate.{BodyMatchers}
use forcefield.Gateway.Handler.{Trace, validate, resolve_workload}
use forcefield.Library.{Codec, Http, Text, Url}
use forcefield.Gateway.Target.{Net}
use forcefield.Gateway.Serve.{
  Grant, Header, RuntimeService, Metadata, claim_limit_scopes, resolve_grant, Claims, Session,
  Gateway,
}
use forcefield.Gateway.Exchange.{HttpRequest}
use forcefield.Gateway.Adapter.{extract_token}

some-injective : {A : Type 0} (a b : A) → ◌≡◌ {A = Option A} (some a) (some b) → a ≡ b
some-injective a b e = ground arith

pub to_option-some : {E' A : Type 0} (x : Result E' A) (a : A) → to_option x ≡ some a → x ≡ ok a
to_option-some (ok b) a e = ap (λ z. ok z) (some-injective b a e)
to_option-some (err b) a e = absurd (ground arith)

module _ (u : Url) (tx : Text) (http : Http) (net : Net) (codec : Codec) {E J D G Q C : Type 0}
    (body : BodyMatchers E J D G Q C) (g : Gateway J G C) where
  module _ (r : HttpRequest) where
    abbrev IsAdmitted : Session J G C → Trace → Type 0
    IsAdmitted = Admitted u tx http net codec body g r

    abbrev From : Metadata → RuntimeService → Bytes → Bytes → Header → Type 0
    From = Origin u tx http net codec body g r

    pub identified-Origin :
        (meta : Metadata) (service : RuntimeService) (path query : Bytes) (header : Header)
        (claims : Claims)
        → From meta service path query header
        → From (identified u tx http net codec g meta claims) service path query header
    identified-Origin meta service path query header claims o = record {
      url = o.url;
      host = o.host;
      represented = o.represented;
      canonical = o.canonical;
      host_of = o.host_of;
      routed = o.routed;
      queried = o.queried;
      request_id = o.request_id;
      method = o.method;
      path_hash = o.path_hash;
    }

  pub settle-Admitted :
      (r : HttpRequest) (meta : Metadata) (service : RuntimeService) (path query : Bytes)
      (header : Header) (token workload : Bytes) (claims : Claims) (grant : Grant)
      (s : Session J G C)
      → Origin u tx http net codec body g r meta service path query header
      → meta.token_id ≡ claims.token_id
      → meta.root_token_id ≡ claims.root_token_id
      → extract_token tx http service.extractor header ≡ ok token
      → OnlyFor service.name grant claims.grants
      → settle u tx http net codec g meta service path query header token workload claims grant
        ≡ some s
      → IsAdmitted r s (
          (validate token (request_of u tx http net codec g workload), some claims)
          ∷ (resolve_workload, some workload)
          ∷ [])
  unfolding settle
  settle-Admitted r meta service path query header token workload claims grant s o i j x n h =
      elim (Option-cases (lookup grant.credential_ref g.credentials)) [
        | inl a ↦ absurd (ground arith)
        | inr (credential, a) ↦ elim (Option-cases (resolve_grant g.config grant)) [
          | inl b ↦ absurd (ground arith)
          | inr (policy, b) ↦ elim (Option-cases (claim_limit_scopes claims grant)) [
            | inl c ↦ absurd (ground arith)
            | inr (scopes, c) ↦
                elim (Bool-cases (settled u tx http net codec g service grant credential policy)) [
                  | inr f ↦ absurd (ground arith)
                  | inl f ↦
                      subst
                        (λ x. IsAdmitted r x (
                          (validate token (request_of u tx http net codec g workload), some claims)
                          ∷ (resolve_workload, some workload)
                          ∷ []))
                        (some-injective
                          (session u tx http net codec g meta service path query header token
                            workload claims grant credential policy scopes)
                          s (sym (rw (a, b, c, f, settle) refl) ∙ h))
                        record {
                          origin = o;
                          token_id = i;
                          root_token_id = j;
                          bearer = extract_token-Carries tx http service.extractor header token x;
                          named = n;
                          in_force =
                              settled-InForce u tx http net codec g service grant credential policy
                                a b f;
                          scopes = claim_limit_scopes-WholeChain claims grant scopes c;
                          history = refl;
                        }
                ]
          ]
        ]
      ]
