-- ===== src/Gateway/Serve/InForce.antt =====
-- internal/gateway/gateway.go: what the configuration has to say of a grant: its credential and its policy.
use forcefield.Base.{
  subst, not, ◌&&◌, Bool-cases, inr, ap, inl, bytes_eq, arith, member, Bytes, Any, Option-cases,
  Option, lookup, ◌≡◌, [], none, some, true, false, bytes_eq_iff,
}
use forcefield.Tokens.Types.{Grant}
use forcefield.Policy.Query.Accepts.{member_iff}
use forcefield.Gateway.Serve.{
  adapter_http, RuntimeService, RuntimeCredential, CompiledPolicy, Compiled, Gateway, same_text,
  resolve_grant,
}
use forcefield.Gateway.Serve.Admit.{settled}
use forcefield.Library.{Codec, Http, Text, Url}
use forcefield.Gateway.Target.{Net}

-- The policy is the one of the grant's revision, which is for the grant's service and for HTTP; the
-- service is configured; and the credential is the grant's, for that service, with the binding that
-- the grant names.
pub record InForce {J G C : Type 0} (g : Gateway J G C) (service : RuntimeService) (grant : Grant)
    (credential : RuntimeCredential) (policy : CompiledPolicy J G C) : Type 0 where
  pub stored : lookup grant.credential_ref g.credentials ≡ some credential
  pub credential_service : credential.service ≡ service.name
  pub binding : credential.binding_revision ≡ grant.binding_revision
  pub bound : ¬ (grant.binding_revision ≡ [])
  pub configured : Any (λ s. grant.service ≡ s) g.config.capability_services
  pub owner : lookup grant.credential_ref g.config.credential_services ≡ some grant.service
  pub revision :
      lookup grant.credential_ref g.config.binding_revisions ≡ some grant.binding_revision
  pub revised : lookup grant.policy_revision g.config.policy_revisions ≡ some policy
  pub policy_service : policy.service ≡ grant.service
  pub service_adapter : service.adapter ≡ adapter_http
  pub policy_adapter : policy.adapter ≡ adapter_http
  pub compiled : ¬ (policy.policy ≡ none)

same_text-equal : (o : Option Bytes) (s : Bytes) → same_text o s ≡ true → o ≡ some s
unfolding same_text
same_text-equal none s e = absurd (ground arith)
same_text-equal (some t) s e = ap (λ z. some z) ((bytes_eq_iff t s).0 e)

-- What the look-up of the policy has tested.
record Resolved {J G C : Type 0} (c : Compiled J G C) (grant : Grant)
    (policy : CompiledPolicy J G C) : Type 0 where
  pub revised : lookup grant.policy_revision c.policy_revisions ≡ some policy
  pub configured : member grant.service c.capability_services ≡ true
  pub owner : same_text (lookup grant.credential_ref c.credential_services) grant.service ≡ true
  pub revision :
      same_text (lookup grant.credential_ref c.binding_revisions) grant.binding_revision ≡ true
  pub bound : bytes_eq grant.binding_revision [] ≡ false
  pub for_service : bytes_eq policy.service grant.service ≡ true

resolve_grant-Resolved :
    {J G C : Type 0} (c : Compiled J G C) (grant : Grant) (policy : CompiledPolicy J G C)
    → resolve_grant c grant ≡ some policy
    → Resolved c grant policy
unfolding resolve_grant
resolve_grant-Resolved c grant policy e =
    elim (Option-cases (lookup grant.policy_revision c.policy_revisions)) [
      | inl n ↦ absurd (ground arith)
      | inr (entry, f) ↦
          let own = same_text (lookup grant.credential_ref c.credential_services) grant.service in
          let same =
            same_text (lookup grant.credential_ref c.binding_revisions) grant.binding_revision in
          elim (Bool-cases (
            member grant.service c.capability_services
            && own
            && same
            && not (bytes_eq grant.binding_revision [])
            && bytes_eq entry.service grant.service)) [
              | inr m ↦ absurd (ground arith)
              | inl y ↦
                  let q : entry ≡ policy = ground arith in
                  subst (Resolved c grant) q record {
                    revised = f;
                    configured = ground (arith, y);
                    owner = ground (arith, y);
                    revision = ground (arith, y);
                    bound = ground (arith, y);
                    for_service = ground (arith, y);
                  }
            ]
    ]

pub settled-InForce :
    (u : Url) (tx : Text) (http : Http) (net : Net) (codec : Codec) {J G C : Type 0}
    (g : Gateway J G C) (service : RuntimeService) (grant : Grant) (credential : RuntimeCredential)
    (policy : CompiledPolicy J G C)
    → lookup grant.credential_ref g.credentials ≡ some credential
    → resolve_grant g.config grant ≡ some policy
    → settled u tx http net codec g service grant credential policy ≡ true
    → InForce g service grant credential policy
unfolding settled
settled-InForce u tx http net codec g service grant credential policy a b f =
    let k = resolve_grant-Resolved g.config grant policy b in
    let owner =
      same_text (lookup grant.credential_ref g.config.credential_services) grant.service in
    record {
      stored = a;
      credential_service = ground (arith, f, (bytes_eq_iff credential.service service.name).0);
      binding =
          ground (arith, f, (bytes_eq_iff grant.binding_revision credential.binding_revision).0);
      bound = λ e. ground (arith, k.bound, (bytes_eq_iff grant.binding_revision []).1 e);
      configured = (member_iff grant.service g.config.capability_services).0 k.configured;
      owner =
          same_text-equal (lookup grant.credential_ref g.config.credential_services) grant.service
            k.owner;
      revision =
          same_text-equal (lookup grant.credential_ref g.config.binding_revisions)
            grant.binding_revision k.revision;
      revised = k.revised;
      policy_service = (bytes_eq_iff policy.service grant.service).0 k.for_service;
      service_adapter = ground (arith, f, (bytes_eq_iff service.adapter adapter_http).0);
      policy_adapter = ground (arith, f, (bytes_eq_iff policy.adapter adapter_http).0);
      compiled = λ e. ground (arith, f, e);
    }
