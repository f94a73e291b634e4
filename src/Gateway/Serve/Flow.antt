-- ===== src/Gateway/Serve/Flow.antt =====
-- internal/gateway/gateway.go: `ServeHTTP` from the limits on, and the whole of it.
use forcefield.Base.{
  if◌then◌else◌, is_some, ◌==◌, bytes, Bool, ℕ, Bytes, Result, bytes_eq, Option, [], ◌∷◌, none,
  some, true, false, ok, err, ◌&&◌, not,
}
use forcefield.Policy.Evaluate.{Decision, BodyMatchers, evaluate, Request}
use forcefield.Gateway.Handler.{
  abort, respond, charge_bytes, record_audit, exchange, charge_request, fetch_secret, validate,
  Handler, Exchanged, AuditRecord, AuditDecision, done, halt, ◌>>=◌, ◌>>◌, call, or_return,
  value_or, decision_allow, decision_deny, decision_error,
}
use forcefield.Gateway.Grants.{one_grant_for_service, claim_limit_scopes, grant_eq}
use forcefield.Library.{Codec, Http, Text, Url}
use forcefield.Gateway.Target.{get_header, Net}
use forcefield.Gateway.Serve.{
  deny_record, error_record, decision_record, refuse, Grant, Session, Claims, is_allowed, Gateway,
}
use forcefield.Gateway.Exchange.{
  outbound_request, body_size, TargetUrl, Outbound, HttpRequest, needs_body, apply_policy_target,
  body_bytes, prepare_request_body,
}
use forcefield.Gateway.Adapter.{AdapterError}
use forcefield.Gateway.Serve.Admit.{admit, request_of, to_option}

-- The secret, where there is a lease that can be copied and is not empty.
abbrev pub usable : Option (Option Bytes) → Option Bytes
usable (some (some (b ∷ secret))) = some (b ∷ secret)
usable _ = none

module _ (u : Url) (tx : Text) (http : Http) (net : Net) (codec : Codec) {E J D G Q C : Type 0}
    (body : BodyMatchers E J D G Q C) (g : Gateway J G C) where
  -- `recordDeny` and a generic answer, once the session is known.
  abbrev pub turn_away : {A : Type 0} → Session J G C → ℕ → ℕ → Handler A
  turn_away s status bytes_in =
      refuse (deny_record s.metadata s.service.name s.workload s.grant_id status bytes_in) status

  abbrev pub give_up : {A : Type 0} → Session J G C → ℕ → Handler A
  give_up s bytes_in =
      refuse
        (error_record s.metadata s.service.name s.workload s.grant_id s.policy.revision 502
          bytes_in)
        502

  abbrev pub record_of : Session J G C → Decision E → AuditDecision → ℕ → ℕ → ℕ → AuditRecord
  record_of s d decision status bytes_in bytes_out =
      decision_record s.metadata s.service.name s.workload s.grant_id s.policy.revision d decision
        status bytes_in bytes_out

  -- The request and its body are charged to every token of the chain.
  unfoldable pub charge_sent : HttpRequest → Session J G C → Option Bytes → Handler (Option Bytes)
  charge_sent r s sent =
      or_return (r.late_trailers == 0) (turn_away s 404 (body_size sent))
      >> (call (charge_bytes s.scopes (body_size sent)) >>= λ charged.
          or_return charged (turn_away s 404 (body_size sent)) >> done sent)

  unfoldable pub prepared : HttpRequest → Session J G C → Option (Option Bytes)
  unfolding prepare_request_body
  prepared r s = to_option (
      prepare_request_body tx http (record r { header = s.header }) s.policy.policy s.grant.limits
        g.max_request_bytes)

  unfoldable pub charge_prepared : HttpRequest → Session J G C → Unit {0} → Handler (Option Bytes)
  unfolding charge_sent prepared
  charge_prepared r s x = value_or (prepared r s) (turn_away s 404 0) >>= charge_sent r s

  unfoldable pub charge : HttpRequest → Session J G C → Handler (Option Bytes)
  unfolding charge_prepared
  charge r s = call (charge_request s.scopes) >>= λ admitted.
      or_return admitted (turn_away s 429 0) >>= charge_prepared r s

  -- What the policy is asked.
  unfoldable pub policy_request : HttpRequest → Session J G C → Option Bytes → Request
  unfolding body_bytes needs_body get_header
  policy_request r s sent = record {
    method = r.method;
    escaped_path = net.escaped_path s.relative_path [];
    raw_query = s.raw_query;
    content_type = get_header tx http (bytes "Content-Type") s.header;
    body = body_bytes sent (needs_body s.policy.policy);
  }

  unfoldable pub decision_on : HttpRequest → Session J G C → Option Bytes → Decision E
  unfolding policy_request evaluate
  decision_on r s sent = evaluate body u tx s.policy.policy (policy_request r s sent)

  -- The policy allows the request, and that is on record before the secret is fetched.
  unfoldable pub record_allow :
      Session J G C → Decision E → ℕ → TargetUrl → Handler (Decision E × TargetUrl)
  record_allow s d size target =
      call (record_audit (record_of s d decision_allow 0 size 0)) >>= λ recorded.
      or_return recorded (call (respond 503) >> halt) >> done (d, target)

  unfoldable pub aim : Session J G C → Decision E → ℕ → Unit {0} → Handler (Decision E × TargetUrl)
  unfolding apply_policy_target record_allow
  aim s d size x =
      value_or (to_option (apply_policy_target u d))
        (refuse (record_of s d decision_deny 404 size 0) 404)
      >>= record_allow s d size

  unfoldable pub authorize :
      HttpRequest → Session J G C → Option Bytes → Handler (Decision E × TargetUrl)
  unfolding decision_on is_allowed aim
  authorize r s sent =
      let size = body_size sent in
      let d = decision_on r s sent in
      or_return (is_allowed d) (refuse (record_of s d decision_deny 404 size 0) 404)
      >>= aim s d size

  -- The tests of `tokenStillValid` on the fresh claims.
  unfoldable pub unchanged : Claims → Grant → Claims → Bool
  unfolding one_grant_for_service grant_eq claim_limit_scopes bytes_eq
  unchanged previous grant fresh =
      let (found, one) = one_grant_for_service fresh.grants grant.service in
      bytes_eq fresh.token_id previous.token_id
      && bytes_eq fresh.root_token_id previous.root_token_id
      && fresh.expires_at == previous.expires_at
      && one
      && grant_eq found grant
      && is_some (claim_limit_scopes fresh found)

  abbrev pub still_valid : Claims → Grant → Option Claims → Bool
  still_valid previous grant none = false
  still_valid previous grant (some fresh) = unchanged previous grant fresh

  unfoldable pub revalidate : Session J G C → ℕ → Handler Unit
  unfolding unchanged
  revalidate s size =
      call (validate s.token (request_of u tx http net codec g s.workload)) >>= λ fresh.
      or_return (still_valid s.claims s.grant fresh) (turn_away s 404 size)

  unfoldable pub take_secret : Session J G C → ℕ → Unit {0} → Handler Bytes
  unfolding revalidate
  take_secret s size x = call (fetch_secret s.credential.ref) >>= λ lease.
      value_or (usable lease) (give_up s size) >>= λ secret. revalidate s size >> done secret

  unfoldable pub obtain : Session J G C → ℕ → Handler Bytes
  unfolding revalidate take_secret
  obtain s size = revalidate s size >>= take_secret s size

  -- What `forward` returns: it stops before `RoundTrip` when a header or the secret is unfit.
  abbrev pub forward : Result AdapterError Outbound → Handler Exchanged
  forward (err e) = done record { status = 0; bytes_out = 0; failed = true }
  forward (ok o) = call (exchange o)

  -- The end of the handler: a generic answer where nothing was relayed, the record, and the abort of a
  -- response that broke off.
  unfoldable pub conclude : Session J G C → Decision E → ℕ → Exchanged → Handler Unit
  conclude s d size x =
      let silent = x.failed && x.status == 0 in
      let status = if silent then 502 else x.status in
      let decision = if x.failed then decision_error else decision_allow in
      (if silent then call (respond 502) else done tt)
      >> (call (record_audit (record_of s d decision status size x.bytes_out)) >>= λ _.
          if x.failed && not (x.status == 0) then call abort else done tt)

  -- `forward`, and the end.
  unfoldable pub relay :
      HttpRequest → Session J G C → Option Bytes → Decision E → TargetUrl → Bytes → Handler Unit
  unfolding outbound_request conclude
  relay r s sent d target secret =
      forward (
        outbound_request http net s.service.upstream s.credential.adapter
          (record r { header = s.header }) sent target secret)
      >>= conclude s d (body_size sent)

  unfoldable pub serve_authorized :
      HttpRequest → Session J G C → Option Bytes → Decision E × TargetUrl → Handler Unit
  unfolding obtain relay
  serve_authorized r s sent (d, target) = obtain s (body_size sent) >>= relay r s sent d target

  unfoldable pub serve_charged : HttpRequest → Session J G C → Option Bytes → Handler Unit
  unfolding authorize serve_authorized
  serve_charged r s sent = authorize r s sent >>= serve_authorized r s sent

  unfoldable pub serve_admitted : HttpRequest → Session J G C → Handler Unit
  unfolding charge serve_charged
  serve_admitted r s = charge r s >>= serve_charged r s

  unfoldable pub serve_http : HttpRequest → Handler Unit
  unfolding admit serve_admitted
  serve_http r = admit u tx http net codec g r >>= serve_admitted r
