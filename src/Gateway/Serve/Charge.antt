-- ===== src/Gateway/Serve/Charge.antt =====
-- The charges and the decision of the handler, and what is then on the trace.
use forcefield.Gateway.Serve.Order.{unrestricted}
use forcefield.Base.{◌==◌, refl, Bytes, Option, ◌≡◌, ◌∷◌, some, true, ok}
use forcefield.Policy.Evaluate.{Decision, BodyMatchers}
use forcefield.Gateway.Serve.Order.{Permitted}
use forcefield.Gateway.Serve.Settled.{to_option-some}
use forcefield.Gateway.Serve.Flow.{
  record_of, turn_away, charge, charge_sent, charge_prepared, prepared, decision_on, record_allow,
  aim, authorize,
}
use forcefield.Gateway.Handler.{
  respond, done, halt, ◌>>=◌, ◌>>◌, call, or_return, decision_allow, decision_deny, Act, Trace,
  record_audit, charge_bytes, charge_request, Ensures, or_return-Ensures, value_or-Ensures,
}
use forcefield.Library.{Codec, Http, Text, Url}
use forcefield.Gateway.Target.{Net}
use forcefield.Gateway.Serve.{refuse, is_allowed, Session, Gateway}
use forcefield.Gateway.Exchange.{apply_policy_target, TargetUrl, body_size, HttpRequest}
use forcefield.Gateway.Serve.Admit.{to_option}

module _ (u : Url) (tx : Text) (http : Http) (net : Net) (codec : Codec) {E J D G Q C : Type 0}
    (body : BodyMatchers E J D G Q C) (g : Gateway J G C) (r : HttpRequest) where
  abbrev Allowed : Act → Trace → Type 0
  Allowed = Permitted u tx http net codec body g r

  module _ (s : Session J G C) where
    abbrev pub Charged : Trace → Option Bytes → Trace → Type 0
    Charged before sent t =
        (prepared u tx http net codec body g r s ≡ some sent)
        × (t
            ≡ (charge_bytes s.scopes (body_size sent), true)
              ∷ (charge_request s.scopes, true)
              ∷ before)

    charge_sent-Charged :
        (before : Trace) (sent : Option Bytes)
        → prepared u tx http net codec body g r s ≡ some sent
        → Ensures Allowed
            (charge_sent u tx http net codec body g r s sent)
            (Charged before)
            ((charge_request s.scopes, true) ∷ before)
    unfolding charge_sent
    charge_sent-Charged before sent e =
        or_return-Ensures Allowed (r.late_trailers == 0)
          (turn_away u tx http net codec body g s 404 (body_size sent))
          (λ x. call (charge_bytes s.scopes (body_size sent)) >>= λ charged.
            or_return charged (turn_away u tx http net codec body g s 404 (body_size sent))
            >> done sent)
          (Charged before) ((charge_request s.scopes, true) ∷ before) unrestricted
          (λ z. (
            tt,
            λ charged.
                or_return-Ensures Allowed charged
                  (turn_away u tx http net codec body g s 404 (body_size sent)) (λ x. done sent)
                  (Charged before)
                  ((charge_bytes s.scopes (body_size sent), charged)
                    ∷ (charge_request s.scopes, true)
                    ∷ before)
                  unrestricted (λ f. rw f (e, refl)),
          ))

    pub charge-Charged :
        (before : Trace)
        → Ensures Allowed (charge u tx http net codec body g r s) (Charged before) before
    unfolding charge charge_prepared
    charge-Charged before = (
      tt,
      λ admitted.
          or_return-Ensures Allowed admitted (turn_away u tx http net codec body g s 429 0)
            (charge_prepared u tx http net codec body g r s) (Charged before)
            ((charge_request s.scopes, admitted) ∷ before) unrestricted
            (λ f. rw f (
              value_or-Ensures Allowed (prepared u tx http net codec body g r s)
                (turn_away u tx http net codec body g s 404 0)
                (charge_sent u tx http net codec body g r s) (Charged before)
                ((charge_request s.scopes, true) ∷ before) unrestricted
                (λ sent e. charge_sent-Charged before sent e))),
    )

    abbrev pub Authorized : Option Bytes → Trace → Decision E × TargetUrl → Trace → Type 0
    Authorized sent before (d, target) t =
        (d ≡ decision_on u tx http net codec body g r s sent)
        × (is_allowed d ≡ true)
        × (apply_policy_target u d ≡ ok target)
        × (t
            ≡ (
              record_audit
                  (record_of u tx http net codec body g s d decision_allow 0 (body_size sent) 0),
              true,
            )
              ∷ before)

    pub authorize-Authorized :
        (sent : Option Bytes) (before : Trace)
        → Ensures Allowed
            (authorize u tx http net codec body g r s sent)
            (Authorized sent before)
            before
    unfolding authorize aim record_allow
    authorize-Authorized sent before =
        let d = decision_on u tx http net codec body g r s sent in
        let size = body_size sent in
        or_return-Ensures Allowed (is_allowed d)
          (refuse (record_of u tx http net codec body g s d decision_deny 404 size 0) 404)
          (aim u tx http net codec body g s d size) (Authorized sent before) before unrestricted
          (λ y.
            value_or-Ensures Allowed (to_option (apply_policy_target u d))
              (refuse (record_of u tx http net codec body g s d decision_deny 404 size 0) 404)
              (record_allow u tx http net codec body g s d size) (Authorized sent before) before
              unrestricted
              (λ target e. (
                tt,
                λ recorded.
                    or_return-Ensures Allowed recorded (call (respond 503) >> halt)
                      (λ x. done (d, target)) (Authorized sent before)
                      ((
                        record_audit
                            (record_of u tx http net codec body g s d decision_allow 0 size 0),
                        recorded,
                      )
                        ∷ before)
                      (λ q. (tt, λ a. tt))
                      (λ f.
                        rw f (refl, y, to_option-some (apply_policy_target u d) target e, refl)),
              )))
