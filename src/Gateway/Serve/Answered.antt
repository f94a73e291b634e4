-- ===== src/Gateway/Serve/Answered.antt =====
-- The handler answers the client once, whatever happens.
use forcefield.Base.{
  sym, subst, Bool, arith, ◌≡◌, ℕ, ◌==◌, refl, Bytes, Option, [], none, some, true, false, ok, err,
  not, Bool-cases, inl, inr, Result,
}
use forcefield.Policy.Evaluate.{Decision, BodyMatchers}
use forcefield.Gateway.Handler.{
  Act, Answer, Trace, Exchanged, done, halt, respond, ◌>>=◌, ◌>>◌, call, or_return, run,
  decision_deny, charge_bytes,
}
use forcefield.Gateway.Serve.Admit.{to_option, admit}
use forcefield.Gateway.Serve.Reply.{refuse-Refuses}
use forcefield.Gateway.Serve.Flow.{
  record_of, turn_away, give_up, charge, charge_sent, charge_prepared, prepared, decision_on,
  record_allow, aim, authorize, revalidate, usable, take_secret, obtain, forward, conclude, relay,
  serve_authorized, serve_charged, serve_admitted, serve_http, still_valid, unchanged,
}
use forcefield.Library.{Codec, Http, Text, Url}
use forcefield.Gateway.Target.{Net}
use forcefield.Gateway.Serve.{refuse, is_allowed, Claims, Session, Gateway}
use forcefield.Gateway.Exchange.{
  outbound_request, Outbound, TargetUrl, apply_policy_target, body_size, HttpRequest,
}
use forcefield.Gateway.Serve.Reply.{
  run-Settles, AllGeneric, Settles-bind, Possible, count_answers, value_or-Settles,
  or_return-Settles, Unanswered, Settles,
}
use forcefield.Gateway.Adapter.{AdapterError}
use forcefield.Gateway.Serve.AdmitAnswered.{admit-Settles}

module _ (u : Url) (tx : Text) (http : Http) (net : Net) (codec : Codec) {E J D G Q C : Type 0}
    (body : BodyMatchers E J D G Q C) (g : Gateway J G C) (r : HttpRequest)
    (s : Session J G C) where
  charge-Settles : Settles (charge u tx http net codec body g r s) false Unanswered
  unfolding charge charge_prepared charge_sent
  charge-Settles = (
    tt,
    λ admitted x. (
      λ e. refl,
      or_return-Settles admitted (turn_away u tx http net codec body g s 429 0)
          (charge_prepared u tx http net codec body g r s) Unanswered refuse-Refuses
          (value_or-Settles (prepared u tx http net codec body g r s)
            (turn_away u tx http net codec body g s 404 0)
            (charge_sent u tx http net codec body g r s) Unanswered refuse-Refuses
            (λ sent.
              or_return-Settles (r.late_trailers == 0)
                (turn_away u tx http net codec body g s 404 (body_size sent))
                (λ x. call (charge_bytes s.scopes (body_size sent)) >>= λ charged.
                  or_return charged (turn_away u tx http net codec body g s 404 (body_size sent))
                  >> done sent)
                Unanswered refuse-Refuses
                (
                  tt,
                  λ charged y. (
                    λ e. refl,
                    or_return-Settles charged
                        (turn_away u tx http net codec body g s 404 (body_size sent))
                        (λ x. done sent) Unanswered refuse-Refuses refl,
                  ),
                ))),
    ),
  )

  authorize-Settles :
      (sent : Option Bytes)
      → Settles (authorize u tx http net codec body g r s sent) false Unanswered
  unfolding authorize aim record_allow
  authorize-Settles sent =
      let d = decision_on u tx http net codec body g r s sent in
      let size = body_size sent in
      let refusal = record_of u tx http net codec body g s d decision_deny 404 size 0 in
      or_return-Settles (is_allowed d) (refuse refusal 404)
        (aim u tx http net codec body g s d size) Unanswered refuse-Refuses
        (value_or-Settles (to_option (apply_policy_target u d)) (refuse refusal 404)
          (record_allow u tx http net codec body g s d size) Unanswered refuse-Refuses
          (λ target. (
            tt,
            λ recorded x. (
              λ e. refl,
              or_return-Settles recorded (call (respond 503) >> halt) (λ x. done (d, target))
                  Unanswered (refl, λ q z. (λ e. refl, refl)) refl,
            ),
          )))

  revalidate-Settles :
      (size : ℕ) → Settles (revalidate u tx http net codec body g s size) false Unanswered
  unfolding revalidate
  revalidate-Settles size = (tt, λ fresh x. (λ e. refl, renewed fresh))
    where
      renewed :
          (fresh : Option Claims)
          → Settles
              (or_return
                (still_valid u tx http net codec body g s.claims s.grant fresh)
                (turn_away u tx http net codec body g s 404 size))
              false
              Unanswered
      renewed none = refuse-Refuses
      renewed (some fresh) =
          elim (Bool-cases (unchanged u tx http net codec body g s.claims s.grant fresh)) [
            | inl y ↦ rw y refl
            | inr n ↦ rw n refuse-Refuses
          ]

  obtain-Settles : (size : ℕ) → Settles (obtain u tx http net codec body g s size) false Unanswered
  unfolding obtain take_secret
  obtain-Settles size =
      Settles-bind (revalidate u tx http net codec body g s size)
        (take_secret u tx http net codec body g s size) false Unanswered Unanswered
        (revalidate-Settles size)
        (λ x c e.
          subst (λ b. Settles (take_secret u tx http net codec body g s size x) b Unanswered)
            (sym e)
            (
              tt,
              λ lease y. (
                λ e. refl,
                value_or-Settles (usable lease) (give_up u tx http net codec body g s size)
                    (λ secret. revalidate u tx http net codec body g s size >> done secret)
                    Unanswered refuse-Refuses
                    (λ secret.
                      Settles-bind (revalidate u tx http net codec body g s size) (λ x. done secret)
                        false Unanswered Unanswered (revalidate-Settles size) (λ x c e. e)),
              ),
            ))

  -- What follows `forward` answers the client exactly when the upstream's response did not.
  conclude-Settles :
      (d : Decision E) (size : ℕ) (x : Exchanged)
      → (x.failed ≡ false → (x.status == 0) ≡ false)
      → Settles
          (conclude u tx http net codec body g s d size x)
          (not (x.status == 0))
          (λ a b. b ≡ true)
  unfolding conclude
  conclude-Settles d size x w = elim (Bool-cases x.failed) [
    | inr f ↦ simp (f, w f) (tt, λ a p. (λ e. absurd (ground arith), refl))
    | inl f ↦ elim (Bool-cases (x.status == 0)) [
      | inl z ↦
          simp (f, z) (refl, λ a p. (λ e. refl, (tt, λ b q. (λ e. absurd (ground arith), refl))))
      | inr z ↦
          simp (f, z)
            (
              tt,
              λ a p. (λ e. absurd (ground arith), (tt, λ b q. (λ e. absurd (ground arith), refl))),
            )
    ]
  ]

  relay-Settles :
      (sent : Option Bytes) (d : Decision E) (target : TargetUrl) (secret : Bytes)
      → Settles (relay u tx http net codec body g r s sent d target secret) false (λ a b. b ≡ true)
  unfolding relay
  relay-Settles sent d target secret = go (
      outbound_request http net s.service.upstream s.credential.adapter
        (record r { header = s.header }) sent target secret)
    where
      go :
          (o : Result AdapterError Outbound)
          → Settles
              (forward u tx http net codec body g o
                >>= conclude u tx http net codec body g s d (body_size sent))
              false
              (λ a b. b ≡ true)
      go (err e) =
          conclude-Settles d (body_size sent) record { status = 0; bytes_out = 0; failed = true }
            (λ z. absurd (ground arith))
      go (ok o) = (tt, λ x w. (λ e. refl, conclude-Settles d (body_size sent) x w))

module _ (u : Url) (tx : Text) (http : Http) (net : Net) (codec : Codec) {E J D G Q C : Type 0}
    (body : BodyMatchers E J D G Q C) (g : Gateway J G C) (r : HttpRequest) where
  serve_admitted-Settles :
      (s : Session J G C)
      → Settles (serve_admitted u tx http net codec body g r s) false (λ a b. b ≡ true)
  unfolding serve_admitted serve_charged serve_authorized
  serve_admitted-Settles s =
      Settles-bind (charge u tx http net codec body g r s)
        (serve_charged u tx http net codec body g r s) false Unanswered (λ a b. b ≡ true)
        (charge-Settles u tx http net codec body g r s)
        (λ sent c e.
          subst
            (λ b. Settles (serve_charged u tx http net codec body g r s sent) b (λ a b. b ≡ true))
            (sym e)
            (Settles-bind (authorize u tx http net codec body g r s sent)
              (serve_authorized u tx http net codec body g r s sent) false Unanswered
              (λ a b. b ≡ true) (authorize-Settles u tx http net codec body g r s sent)
              (authorized sent)))
    where
      authorized :
          (sent : Option Bytes) (result : Decision E × TargetUrl) (c : Bool)
          → c ≡ false
          → Settles
              (serve_authorized u tx http net codec body g r s sent result)
              c
              (λ a b. b ≡ true)
      authorized sent (d, target) c e =
          subst
            (λ b.
              Settles (serve_authorized u tx http net codec body g r s sent (d, target)) b
                (λ a b. b ≡ true))
            (sym e)
            (Settles-bind (obtain u tx http net codec body g s (body_size sent))
              (relay u tx http net codec body g r s sent d target) false Unanswered
              (λ a b. b ≡ true) (obtain-Settles u tx http net codec body g r s (body_size sent))
              (λ secret c e.
                subst
                  (λ b.
                    Settles (relay u tx http net codec body g r s sent d target secret) b
                      (λ a b. b ≡ true))
                  (sym e) (relay-Settles u tx http net codec body g r s sent d target secret)))

  -- Every run of the handler ends with exactly one answer to the client, whatever fails on the way: the
  -- response of the upstream, another adapter's handler, or a generic answer; and each generic answer
  -- has the status 404, 429, 502 or 503. The answers of the rest of the system are any for which
  -- `forward` has the status of a response when it returns no error.
  pub serve_http-answered :
      (answer : (t : Trace) → (a : Act) → Answer a)
      → ((t : Trace) → (a : Act) → Possible a (answer t a))
      → (count_answers (run answer (serve_http u tx http net codec body g r) []) ≡ 1)
        × AllGeneric (run answer (serve_http u tx http net codec body g r) [])
  unfolding serve_http count_answers
  serve_http-answered answer possible =
      run-Settles answer (serve_http u tx http net codec body g r) false [] possible refl tt (
        Settles-bind (admit u tx http net codec g r) (serve_admitted u tx http net codec body g r)
          false Unanswered (λ a b. b ≡ true) (admit-Settles u tx http net codec g r)
          (λ s c e.
            subst (λ b. Settles (serve_admitted u tx http net codec body g r s) b (λ a b. b ≡ true))
              (sym e) (serve_admitted-Settles s)))
