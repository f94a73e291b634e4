-- ===== src/Gateway/Serve/Obtained.antt =====
-- internal/gateway/gateway.go: lemmas on the fetch of the secret between two validations of the token.
use forcefield.Gateway.Serve.Order.{unrestricted}
use forcefield.Base.{ℕ, refl, arith, Bytes, Option, ◌≡◌, [], ◌∷◌, none, some, Bool-cases, inl, inr}
use forcefield.Policy.Evaluate.{BodyMatchers}
use forcefield.Gateway.Serve.Order.{Permitted, Renewed, Cleared, MayFetch}
use forcefield.Gateway.Serve.Decided.{unchanged-Renewed}
use forcefield.Gateway.Serve.Flow.{
  turn_away, give_up, revalidate, usable, take_secret, obtain, still_valid, unchanged,
}
use forcefield.Gateway.Handler.{
  done, ◌>>◌, or_return, Act, Trace, validate, fetch_secret, Ensures, value_or-Ensures,
  Ensures-bind,
}
use forcefield.Library.{Codec, Http, Text, Url}
use forcefield.Gateway.Target.{Net}
use forcefield.Gateway.Serve.{Claims, Session, Gateway}
use forcefield.Gateway.Exchange.{TargetUrl, HttpRequest}
use forcefield.Gateway.Serve.Admit.{request_of}

usable-some :
    (lease : Option (Option Bytes)) (secret : Bytes)
    → usable lease ≡ some secret
    → lease ≡ some (some secret)
usable-some none secret e = absurd (ground arith)
usable-some (some none) secret e = absurd (ground arith)
usable-some (some (some [])) secret e = absurd (ground arith)
usable-some (some (some (b ∷ s))) secret e = ground arith

module _ (u : Url) (tx : Text) (http : Http) (net : Net) (codec : Codec) {E J D G Q C : Type 0}
    (body : BodyMatchers E J D G Q C) (g : Gateway J G C) (r : HttpRequest) where
  abbrev Allowed : Act → Trace → Type 0
  Allowed = Permitted u tx http net codec body g r

  abbrev AnyEnd : Unit {0} → Trace → Type 0
  AnyEnd x t = Unit

  module _ (s : Session J G C) where
    abbrev Renews : Trace → Trace → Type 0
    Renews before t = Renewed u tx http net codec body g s t before

    revalidate-Renews :
        (size : ℕ) (before : Trace)
        → Ensures Allowed
            (revalidate u tx http net codec body g s size)
            (λ x t. Renews before t)
            before
    unfolding revalidate
    revalidate-Renews size before = (tt, λ fresh. renewed fresh)
      where
        renewed :
            (fresh : Option Claims)
            → Ensures Allowed
                (or_return
                  (still_valid u tx http net codec body g s.claims s.grant fresh)
                  (turn_away u tx http net codec body g s 404 size))
                (λ x t. Renews before t)
                ((validate s.token (request_of u tx http net codec g s.workload), fresh) ∷ before)
        renewed none = (tt, λ a. (tt, λ b. tt))
        renewed (some fresh) =
            elim (Bool-cases (unchanged u tx http net codec body g s.claims s.grant fresh)) [
              | inl y ↦ rw y (unchanged-Renewed u tx http net codec body g s fresh before y)
              | inr n ↦ rw n (tt, λ a. (tt, λ b. tt))
            ]

    -- The secret was fetched after all checks, and the token was checked again.
    pub record Secured (sent : Option Bytes) (target : TargetUrl) (secret : Bytes) (t : Trace)
        : Type 0 where
      pub before : Trace
      pub fetched : MayFetch u tx http net codec body g r s sent target s.credential.ref before
      pub renewed : Renews ((fetch_secret s.credential.ref, some (some secret)) ∷ before) t

    take_secret-Secured :
        (sent : Option Bytes) (target : TargetUrl) (size : ℕ) (before : Trace)
        → MayFetch u tx http net codec body g r s sent target s.credential.ref before
        → Ensures Allowed
            (take_secret u tx http net codec body g s size tt)
            (Secured sent target)
            before
    unfolding take_secret
    take_secret-Secured sent target size before m = (
      (s, (sent, (target, m))),
      λ lease.
          value_or-Ensures Allowed (usable lease) (give_up u tx http net codec body g s size)
            (λ secret. revalidate u tx http net codec body g s size >> done secret)
            (Secured sent target) ((fetch_secret s.credential.ref, lease) ∷ before) unrestricted
            (λ secret e. rw (usable-some lease secret e) (
              Ensures-bind Allowed (revalidate u tx http net codec body g s size) (λ x. done secret)
                (λ x t. Renews ((fetch_secret s.credential.ref, some (some secret)) ∷ before) t)
                (Secured sent target) ((fetch_secret s.credential.ref, some (some secret)) ∷ before)
                (revalidate-Renews size
                  ((fetch_secret s.credential.ref, some (some secret)) ∷ before))
                (λ x t k. record { before = before; fetched = m; renewed = k }))),
    )

    pub obtain-Secured :
        (sent : Option Bytes) (target : TargetUrl) (size : ℕ) (before : Trace)
        → Cleared u tx http net codec body g r s sent target before
        → Ensures Allowed (obtain u tx http net codec body g s size) (Secured sent target) before
    unfolding obtain
    obtain-Secured sent target size before c =
        Ensures-bind Allowed (revalidate u tx http net codec body g s size)
          (take_secret u tx http net codec body g s size) (λ x t. Renews before t)
          (Secured sent target) before (revalidate-Renews size before)
          (λ x t k.
            take_secret-Secured sent target size t
              record { before = before; cleared = c; renewed = k; own = refl })
