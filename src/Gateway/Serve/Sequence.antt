-- ===== src/Gateway/Serve/Sequence.antt =====
-- internal/gateway/gateway.go: the order in which `ServeHTTP` asks for the secret and the upstream.
use forcefield.Base.{
  ap, ◌∙◌, if◌then◌else◌, Bool, ℕ, ◌==◌, Bytes, Option, [], ◌∷◌, true, false, ◌&&◌, not, Bool-cases,
  inl, inr,
}
use forcefield.Policy.Evaluate.{Decision, BodyMatchers}
use forcefield.Gateway.Serve.Order.{Permitted, Cleared, Admitted}
use forcefield.Gateway.Serve.Charge.{Charged, Authorized, charge-Charged, authorize-Authorized}
use forcefield.Gateway.Serve.Admitted.{admit-Admitted}
use forcefield.Gateway.Serve.Settled.{to_option-some}
use forcefield.Gateway.Serve.Decided.{
  Result-cases, is_allowed-allow, apply_policy_target-parts, outbound_request-Sends,
}
use forcefield.Gateway.Serve.Flow.{
  policy_request, record_of, charge, prepared, decision_on, authorize, obtain, conclude, relay,
  serve_authorized, serve_charged, serve_admitted, serve_http,
}
use forcefield.Gateway.Handler.{
  abort, done, call, decision_allow, Act, Trace, exchange, record_audit, Ensures, Ensures-bind,
  Answer, run, run-Lawful, Lawful, Exchanged,
}
use forcefield.Library.{Codec, Http, Text, Url}
use forcefield.Gateway.Target.{Net}
use forcefield.Gateway.Serve.{Session, Gateway}
use forcefield.Gateway.Exchange.{
  prepare_request_body, outbound_request, TargetUrl, body_size, HttpRequest,
}
use forcefield.Gateway.Serve.Admit.{admit}
use forcefield.Gateway.Serve.Obtained.{Secured, obtain-Secured}

module _ (u : Url) (tx : Text) (http : Http) (net : Net) (codec : Codec) {E J D G Q C : Type 0}
    (body : BodyMatchers E J D G Q C) (g : Gateway J G C) (r : HttpRequest) where
  abbrev Allowed : Act → Trace → Type 0
  Allowed = Permitted u tx http net codec body g r

  abbrev AnyEnd : Unit {0} → Trace → Type 0
  AnyEnd x t = Unit

  module _ (s : Session J G C) where
    conclude-Ensures :
        (d : Decision E) (size : ℕ) (x : Exchanged) (t : Trace)
        → Ensures Allowed (conclude u tx http net codec body g s d size x) AnyEnd t
    unfolding conclude
    conclude-Ensures d size x t = elim (Bool-cases (x.failed && x.status == 0)) [
      | inl y ↦ rw y (tt, λ a. (tt, λ b. ended (x.failed && not (x.status == 0)) _))
      | inr n ↦ rw n (tt, λ b. ended (x.failed && not (x.status == 0)) _)
    ]
      where
        ended :
            (b : Bool) (t : Trace) → Ensures Allowed (if b then call abort else done tt) AnyEnd t
        ended true t = (tt, λ a. tt)
        ended false t = tt

    relay-Ensures :
        (sent : Option Bytes) (d : Decision E) (target : TargetUrl) (secret : Bytes) (t : Trace)
        → Secured u tx http net codec body g r s sent target secret t
        → Ensures Allowed (relay u tx http net codec body g r s sent d target secret) AnyEnd t
    unfolding relay
    relay-Ensures sent d target secret t k =
        elim (Result-cases (
          outbound_request http net s.service.upstream s.credential.adapter
            (record r { header = s.header }) sent target secret)) [
              | inl (e, h) ↦ rw h (
                  conclude-Ensures d (body_size sent)
                    record { status = 0; bytes_out = 0; failed = true } t)
              | inr (o, h) ↦ rw h (
                record {
                  s = s;
                  sent = sent;
                  target = target;
                  secret = secret;
                  before = k.before;
                  fetched = k.fetched;
                  renewed = k.renewed;
                  built =
                      outbound_request-Sends u tx http net codec body g r s sent target secret o h;
                },
                λ x. conclude-Ensures d (body_size sent) x ((exchange o, x) ∷ t),
              )
            ]

    cleared :
        (sent : Option Bytes) (start before t : Trace) (d : Decision E) (target : TargetUrl)
        → Admitted u tx http net codec body g r s start
        → Charged u tx http net codec body g r s start sent before
        → Authorized u tx http net codec body g r s sent before (d, target) t
        → Cleared u tx http net codec body g r s sent target t
    unfolding prepared decision_on policy_request
    cleared sent start before t d target a (p, q) (e, y, w, h) = record {
      before = start;
      admitted = a;
      prepared =
          to_option-some
            (prepare_request_body tx http (record r { header = s.header }) s.policy.policy
              s.grant.limits g.max_request_bytes)
            sent p;
      decision = d;
      decided = e;
      allowed = is_allowed-allow d y;
      path = (apply_policy_target-parts u d target w).0;
      raw_path = (apply_policy_target-parts u d target w).1;
      raw_query = (apply_policy_target-parts u d target w).2;
      history =
          h
          ∙ ap
              (λ z.
                (
                  record_audit (
                      record_of u tx http net codec body g s d decision_allow 0 (body_size sent) 0),
                  true,
                )
                ∷ z)
              q;
    }

    serve_authorized-Ensures :
        (sent : Option Bytes) (d : Decision E) (target : TargetUrl) (t : Trace)
        → Cleared u tx http net codec body g r s sent target t
        → Ensures Allowed
            (serve_authorized u tx http net codec body g r s sent (d, target))
            AnyEnd
            t
    unfolding serve_authorized
    serve_authorized-Ensures sent d target t c =
        Ensures-bind Allowed (obtain u tx http net codec body g s (body_size sent))
          (relay u tx http net codec body g r s sent d target)
          (Secured u tx http net codec body g r s sent target) AnyEnd t
          (obtain-Secured u tx http net codec body g r s sent target (body_size sent) t c)
          (λ secret t' k. relay-Ensures sent d target secret t' k)

    serve_admitted-Ensures :
        (t : Trace)
        → Admitted u tx http net codec body g r s t
        → Ensures Allowed (serve_admitted u tx http net codec body g r s) AnyEnd t
    unfolding serve_admitted serve_charged
    serve_admitted-Ensures t a =
        Ensures-bind Allowed (charge u tx http net codec body g r s)
          (serve_charged u tx http net codec body g r s) (Charged u tx http net codec body g r s t)
          AnyEnd t (charge-Charged u tx http net codec body g r s t)
          (λ sent t1 c.
            Ensures-bind Allowed (authorize u tx http net codec body g r s sent)
              (serve_authorized u tx http net codec body g r s sent)
              (Authorized u tx http net codec body g r s sent t1) AnyEnd t1
              (authorize-Authorized u tx http net codec body g r s sent t1)
              (λ result t2 k. authorized sent t1 t2 result c k))
      where
        authorized :
            (sent : Option Bytes) (t1 t2 : Trace) (result : Decision E × TargetUrl)
            → Charged u tx http net codec body g r s t sent t1
            → Authorized u tx http net codec body g r s sent t1 result t2
            → Ensures Allowed
                (serve_authorized u tx http net codec body g r s sent result)
                AnyEnd
                t2
        authorized sent t1 t2 (d, target) c k =
            serve_authorized-Ensures sent d target t2 (cleared sent t t1 t2 d target a c k)

  -- Whatever the validator, the limits, the audit log, the secret store, the upstream and the
  -- client's connection answer, in every run of the handler on a request the secret of a credential
  -- is fetched only when all that happened is, in this order: the workload was resolved; the token
  -- was validated; the request, and then the bytes of its body, were charged to the scopes of the
  -- claims; the record of the allow was written; and the token was validated again, with the same
  -- token, root and expiry and with the grant still the only one for its service. There the token is
  -- what follows the prefix in the one value of the client's header, once the request's header is
  -- normalised; the service and the path are those that the request's host and canonical target are
  -- routed to, the first prefix of the table before all others; the grant is the only one of the
  -- claims for that service; the credential, the policy and their revisions are those in force for
  -- it in the configuration; there is one scope for each link of the token's chain, from its root to
  -- the token, with the limits and the expiry of the link's only grant for the service, none above
  -- the one before; and the policy's decision on the method, the routed path, the canonical query,
  -- the content type and the body of that request is to allow, without an error. And a request is
  -- sent upstream only right after that secret was given and the token was validated a third time
  -- likewise: with the method and the body of the request, to the upstream's host, for the path of
  -- the decision below the upstream's own and the decision's query, with the header that the
  -- credential's adapter makes of the request's header and the secret, and an identity encoding.
  pub serve_http-Lawful :
      (answer : (t : Trace) → (a : Act) → Answer a)
      → Lawful Allowed (run answer (serve_http u tx http net codec body g r) [])
  unfolding serve_http
  serve_http-Lawful answer =
      run-Lawful Allowed answer (serve_http u tx http net codec body g r) AnyEnd [] tt (
        Ensures-bind Allowed (admit u tx http net codec g r)
          (serve_admitted u tx http net codec body g r) (Admitted u tx http net codec body g r)
          AnyEnd [] (admit-Admitted u tx http net codec body g r)
          (λ s t a. serve_admitted-Ensures s t a))
