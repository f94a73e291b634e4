-- ===== src/Gateway/Serve/Decided.antt =====
-- What the tests of the handler say: the decision that allows, its target, the fresh claims and the
-- request for the upstream.
use forcefield.Base.{
  bytes_eq, refl, Bool-cases, subst, inr, Option-cases, List, inl, ◌⊎◌, arith, ok, is_some, err,
  Bytes, Result, ◌≡◌, Option, [], ◌∷◌, none, some, true, bytes_eq_iff,
}
use forcefield.Policy.Evaluate.{Decision, BodyMatchers, Effect}
use forcefield.Gateway.Handler.{Trace, validate}
use forcefield.Gateway.Serve.{
  LimitScope, Claims, Grant, Session, Gateway, is_allowed, one_grant_for_service,
  claim_limit_scopes,
}
use forcefield.Gateway.Serve.Admit.{request_of}
use forcefield.Gateway.Serve.Flow.{unchanged}
use forcefield.Gateway.Serve.Order.{Renewed, Sends}
use forcefield.Gateway.Grants.Meaning.{OnlyFor, one_grant-OnlyFor, grant_eq-equal}
use forcefield.Gateway.Grants.Charged.{WholeChain}
use forcefield.Gateway.Grants.Scopes.{claim_limit_scopes-WholeChain}
use forcefield.Gateway.Target.{Net}
use forcefield.Gateway.Exchange.{
  apply_policy_target, outbound_request, join_target, TargetUrl, Outbound, HttpRequest,
}
use forcefield.Gateway.Adapter.{rewrite_headers, leak_patterns}
use forcefield.Library.{Codec, Http, Text, Url}

pub Result-cases :
    {E A : Type 0} (x : Result E A) → ((e : E) × (x ≡ err e)) ⊎ ((a : A) × (x ≡ ok a))
Result-cases (ok a) = inr (a, refl)
Result-cases (err e) = inl (e, refl)

pub is_allowed-allow :
    {E : Type 0} (d : Decision E)
    → is_allowed d ≡ true
    → (d.effect ≡ Effect.allow) × (d.error ≡ none)
unfolding is_allowed
is_allowed-allow d e = (ground arith, ground arith)

pub apply_policy_target-parts :
    {E : Type 0} (u : Url) (d : Decision E) (t : TargetUrl)
    → apply_policy_target u d ≡ ok t
    → (u.path_unescape d.canonical_path_text ≡ some t.path)
      × (t.raw_path ≡ d.canonical_path_text)
      × (t.raw_query ≡ d.canonical_query_text)
unfolding apply_policy_target
apply_policy_target-parts u d t e = elim (Option-cases (u.path_unescape d.canonical_path_text)) [
  | inl n ↦ absurd (ground arith)
  | inr (decoded, y) ↦ elim (Bool-cases (bytes_eq decoded [])) [
    | inl z ↦ absurd (ground arith)
    | inr m ↦ (ground arith, ground arith, ground arith)
  ]
]

module _ (u : Url) (tx : Text) (http : Http) (net : Net) (codec : Codec) {E J D G Q C : Type 0}
    (body : BodyMatchers E J D G Q C) (g : Gateway J G C) where
  pub unchanged-Renewed :
      (s : Session J G C) (fresh : Claims) (before : Trace)
      → unchanged u tx http net codec body g s.claims s.grant fresh ≡ true
      → Renewed u tx http net codec body g s
          ((validate s.token (request_of u tx http net codec g s.workload), some fresh) ∷ before)
          before
  unfolding unchanged
  unchanged-Renewed s fresh before e =
      let found = (one_grant_for_service fresh.grants s.grant.service).0 in
      let same : found ≡ s.grant = grant_eq-equal found s.grant (ground (arith, e)) in
      record {
        fresh = fresh;
        token_id = (bytes_eq_iff fresh.token_id s.claims.token_id).0 (ground (arith, e));
        root_token_id =
            (bytes_eq_iff fresh.root_token_id s.claims.root_token_id).0 (ground (arith, e));
        expires_at = ground (arith, e);
        named =
            subst (λ z. OnlyFor s.grant.service z fresh.grants) same
              (one_grant-OnlyFor s.grant.service fresh.grants (ground (arith, e)));
        scopes =
            subst (λ z. (scopes : List LimitScope) × WholeChain fresh z scopes) same
              (chained found (ground (arith, e)));
        history = refl;
      }
    where
      chained :
          (found : Grant)
          → is_some (claim_limit_scopes fresh found) ≡ true
          → (scopes : List LimitScope) × WholeChain fresh found scopes
      chained found y = elim (Option-cases (claim_limit_scopes fresh found)) [
        | inl n ↦ absurd (ground arith)
        | inr (scopes, e) ↦ (scopes, claim_limit_scopes-WholeChain fresh found scopes e)
      ]

  pub outbound_request-Sends :
      (r : HttpRequest) (s : Session J G C) (sent : Option Bytes) (target : TargetUrl)
      (secret : Bytes) (o : Outbound)
      → outbound_request http net s.service.upstream s.credential.adapter
          (record r { header = s.header })
          sent
          target
          secret
        ≡ ok o
      → Sends u tx http net codec body g r s sent target secret o
  unfolding outbound_request join_target
  outbound_request-Sends r s sent target secret o e =
      elim (Result-cases (rewrite_headers http s.credential.adapter s.header s.header secret)) [
        | inl (x, n) ↦ absurd (ground arith)
        | inr (header, y) ↦ elim (Result-cases (leak_patterns http s.credential.adapter secret)) [
          | inl (x, n) ↦ absurd (ground arith)
          | inr (patterns, z) ↦ record {
            header = header;
            method = ground arith;
            content = ground arith;
            host = ground arith;
            path = ground arith;
            raw_query = ground arith;
            rewritten = y;
            encoded = ground arith;
          }
        ]
      ]
