-- ===== src/Gateway/Serve.antt =====
-- internal/gateway/gateway.go: `ServeHTTP` for a service of the generic HTTP adapter.
pub mod Admit
pub mod Admitted
pub mod Charge
pub mod Flow
pub mod Order
pub mod Routed
pub mod Obtained
pub mod Settled
pub mod Carried
pub mod InForce
pub mod Reply
pub mod AdmitAnswered
pub mod Answered
pub mod Sequence
pub mod Decided
use forcefield.Base.{
  is_some, not, ◌&&◌, if◌then◌else◌, join, Option, ℕ, Map, member, bytes, List, Bool, lookup, Bytes,
  bytes_eq, [], ◌∷◌, none, some, true, false, ok, err, ◌++◌,
}
use forcefield.Policy.Evaluate.{Effect, Policy, Decision, BodyMatchers, evaluate}
use forcefield.Gateway.Handler.{
  decision_deny, record_audit, decision_error, respond, AuditDecision, AuditRecord, Handler, done,
  halt, ◌>>=◌, ◌>>◌, call, or_return, value_or,
}
use forcefield.Gateway.Grants.{one_grant_for_service, claim_limit_scopes, grant_eq}
use forcefield.Gateway.Header.{Header}
use forcefield.Gateway.Exchange.{Upstream}
use forcefield.Gateway.Adapter.{HeaderAdapter}
use forcefield.Tokens.Types.{Claims, Grant}
use forcefield.Gateway.Limit.{LimitScope}

abbrev pub adapter_http : Bytes
adapter_http = bytes "http"

abbrev pub adapter_git_smart_http : Bytes
adapter_git_smart_http = bytes "git-smart-http"

abbrev pub adapter_ssh_session : Bytes
adapter_ssh_session = bytes "ssh-session"

abbrev pub capabilities_path : Bytes
capabilities_path = bytes "/.well-known/forcefield/capabilities"

pub record RuntimeService : Type 0 where
  pub name : Bytes
  pub adapter : Bytes
  pub upstream : Upstream
  pub extractor : HeaderAdapter

pub record RuntimeCredential : Type 0 where
  pub service : Bytes
  pub ref : Bytes
  pub binding_revision : Bytes
  pub adapter : HeaderAdapter

pub record CompiledPolicy (J G C : Type 0) : Type 0 where
  pub service : Bytes
  pub adapter : Bytes
  pub revision : Bytes
  pub policy : Option (Policy J G C)

-- The tables of the compiled configuration that `ResolveGrant` reads.
pub record Compiled (J G C : Type 0) : Type 0 where
  pub capability_services : List Bytes
  pub credential_services : Map Bytes
  pub binding_revisions : Map Bytes
  pub policy_revisions : Map (CompiledPolicy J G C)

-- `marshal_grant` stands for `json.Marshal` of a grant, `request_id` for the request's number.
pub record Gateway (J G C : Type 0) : Type 0 where
  pub config : Compiled J G C
  pub audience : Bytes
  pub max_request_bytes : ℕ
  pub credentials : Map RuntimeCredential
  pub host_routes : Map RuntimeService
  pub path_routes : List (Bytes × RuntimeService)
  pub marshal_grant : Grant → Bytes
  pub request_id : Bytes

-- `auditMetadata`
pub record Metadata : Type 0 where
  pub request_id : Bytes
  pub token_id : Bytes
  pub root_token_id : Bytes
  pub method : Bytes
  pub path_hash : Bytes

-- What the first part of the handler settles.
pub record Session (J G C : Type 0) : Type 0 where
  pub metadata : Metadata
  pub service : RuntimeService
  pub relative_path : Bytes
  pub raw_query : Bytes
  pub header : Header
  pub token : Bytes
  pub workload : Bytes
  pub claims : Claims
  pub grant : Grant
  pub grant_id : Bytes
  pub credential : RuntimeCredential
  pub policy : CompiledPolicy J G C
  pub scopes : List LimitScope

unfoldable pub same_text : Option Bytes → Bytes → Bool
unfolding bytes_eq
same_text none s = false
same_text (some t) s = bytes_eq t s

unfoldable pub resolve_grant :
    {J G C : Type 0} → Compiled J G C → Grant → Option (CompiledPolicy J G C)
unfolding same_text lookup member bytes_eq
resolve_grant c grant = elim (lookup grant.policy_revision c.policy_revisions) [
  | none ↦ none
  | some entry ↦
      if member grant.service c.capability_services
        && same_text (lookup grant.credential_ref c.credential_services) grant.service
        && same_text (lookup grant.credential_ref c.binding_revisions) grant.binding_revision
        && not (bytes_eq grant.binding_revision [])
        && bytes_eq entry.service grant.service
      then some entry
      else none
]

abbrev pub deny_request : {A : Type 0} → Handler A
deny_request = call (respond 404) >> halt

-- A record of the decision, then a generic answer.
abbrev pub refuse : {A : Type 0} → AuditRecord → ℕ → Handler A
refuse r status = call (record_audit r) >>= λ _. call (respond status) >> halt

-- `recordDeny`
abbrev pub deny_record : Metadata → Bytes → Bytes → Bytes → ℕ → ℕ → AuditRecord
deny_record meta service workload grant_id status bytes_in = record {
  request_id = meta.request_id;
  token_id = meta.token_id;
  root_token_id = meta.root_token_id;
  policy_revision = [];
  rule_id = [];
  reason = none;
  method = meta.method;
  path_hash = meta.path_hash;
  workload_id = workload;
  grant_id = grant_id;
  service = service;
  decision = decision_deny;
  status = status;
  bytes_in = bytes_in;
  bytes_out = 0;
}

-- `recordError`
abbrev pub error_record : Metadata → Bytes → Bytes → Bytes → Bytes → ℕ → ℕ → AuditRecord
error_record meta service workload grant_id revision status bytes_in =
    record (deny_record meta service workload grant_id status bytes_in) {
      policy_revision = revision;
      decision = decision_error;
    }

-- The record of a policy decision.
abbrev pub decision_record :
    {E : Type 0}
    → Metadata
    → Bytes
    → Bytes
    → Bytes
    → Bytes
    → Decision E
    → AuditDecision
    → ℕ
    → ℕ
    → ℕ
    → AuditRecord
decision_record meta service workload grant_id revision d decision status bytes_in bytes_out =
    record (deny_record meta service workload grant_id status bytes_in) {
      policy_revision = revision;
      rule_id = join (bytes ",") d.matched_rule_ids;
      reason = some d.reason;
      decision = decision;
      bytes_out = bytes_out;
    }

-- `Allowed`
unfoldable pub is_allowed : {E : Type 0} → Decision E → Bool
is_allowed d = elim d.effect [ Effect.deny ↦ false | Effect.allow ↦ not (is_some d.error) ]
