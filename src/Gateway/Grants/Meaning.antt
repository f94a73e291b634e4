-- ===== src/Gateway/Grants/Meaning.antt =====
-- What it means that a grant is the only one for a service, and that two grants or two expiries agree.
use forcefield.Base.{
  refl, ap, subst, ◌∙◌, inr, sym, inl, ◌≤◌, Bool-cases, ◌+◌, ℕ, arith, List, bytes_eq, Bytes, ◌≡◌,
  [], ◌∷◌, true, false, bytes_eq_iff,
}
use forcefield.Tokens.Types.{Limits, Grant}
use forcefield.Gateway.Limit.{limits_eq}
use forcefield.Gateway.Grants.{grant_eq, zero_grant, grants_for, one_grant_for_service}

-- No grant is for the service.
pub data NoneFor (service : Bytes) : List Grant → Type 0 where
  nil : NoneFor service []
  skip :
      {h : Grant} {grants : List Grant}
      → ¬ (h.service ≡ service)
      → NoneFor service grants
      → NoneFor service (h ∷ grants)

-- The grant is for the service, and no other is.
pub data OnlyFor (service : Bytes) (g : Grant) : List Grant → Type 0 where
  this :
      {grants : List Grant}
      → g.service ≡ service
      → NoneFor service grants
      → OnlyFor service g (g ∷ grants)
  later :
      {h : Grant} {grants : List Grant}
      → ¬ (h.service ≡ service)
      → OnlyFor service g grants
      → OnlyFor service g (h ∷ grants)

differs : (s t : Bytes) → bytes_eq s t ≡ false → ¬ (s ≡ t)
differs s t e h = ground (arith, (bytes_eq_iff s t).1 h)

hit :
    (service : Bytes) (h : Grant) (grants : List Grant) (found : Grant) (n : ℕ)
    → bytes_eq h.service service ≡ true
    → grants_for service (h ∷ grants) found n ≡ grants_for service grants h (n + 1)
unfolding grants_for
hit service h grants found n y = rw (y, grants_for) refl

miss :
    (service : Bytes) (h : Grant) (grants : List Grant) (found : Grant) (n : ℕ)
    → bytes_eq h.service service ≡ false
    → grants_for service (h ∷ grants) found n ≡ grants_for service grants found n
unfolding grants_for
miss service h grants found n m = rw (m, grants_for) refl

count_up :
    (service : Bytes) (grants : List Grant) (found : Grant) (n : ℕ)
    → n ≤ (grants_for service grants found n).1
unfolding grants_for
count_up service [] found n = omega arith
count_up service (h ∷ grants) found n = elim (Bool-cases (bytes_eq h.service service)) [
  | inl y ↦ rw (hit service h grants found n y) (omega (arith, count_up service grants h (n + 1)))
  | inr m ↦ rw (miss service h grants found n m) (count_up service grants found n)
]

none_found :
    (service : Bytes) (grants : List Grant) (found : Grant) (n : ℕ)
    → (grants_for service grants found n).1 ≡ n
    → NoneFor service grants × ((grants_for service grants found n).0 ≡ found)
unfolding grants_for
none_found service [] found n e = (nil, refl)
none_found service (h ∷ grants) found n e = elim (Bool-cases (bytes_eq h.service service)) [
  | inl y ↦ absurd (
      omega (
        arith,
        count_up service grants h (n + 1),
        sym (ap (λ p. p.1) (hit service h grants found n y)) ∙ e,
      ))
  | inr m ↦
      let q = miss service h grants found n m in
      let (k, f) = none_found service grants found n (sym (ap (λ p. p.1) q) ∙ e) in
      (skip (differs h.service service m) k, ap (λ p. p.0) q ∙ f)
]

one_found :
    (service : Bytes) (grants : List Grant) (found : Grant) (n : ℕ)
    → (grants_for service grants found n).1 ≡ n + 1
    → OnlyFor service (grants_for service grants found n).0 grants
unfolding grants_for
one_found service [] found n e = absurd (omega (arith, e))
one_found service (h ∷ grants) found n e = elim (Bool-cases (bytes_eq h.service service)) [
  | inl y ↦
      let q = hit service h grants found n y in
      let (k, f) = none_found service grants h (n + 1) (sym (ap (λ p. p.1) q) ∙ e) in
      subst (λ x. OnlyFor service x (h ∷ grants)) (sym (ap (λ p. p.0) q ∙ f))
        (this ((bytes_eq_iff h.service service).0 y) k)
  | inr m ↦
      let q = miss service h grants found n m in
      subst (λ x. OnlyFor service x (h ∷ grants)) (sym (ap (λ p. p.0) q))
        (later (differs h.service service m)
          (one_found service grants found n (sym (ap (λ p. p.1) q) ∙ e)))
]

pub one_grant-OnlyFor :
    (service : Bytes) (grants : List Grant)
    → (one_grant_for_service grants service).1 ≡ true
    → OnlyFor service (one_grant_for_service grants service).0 grants
unfolding one_grant_for_service
one_grant-OnlyFor service grants e = one_found service grants zero_grant 0 (ground arith)

pub OnlyFor-service :
    (service : Bytes) (g : Grant) (grants : List Grant)
    → OnlyFor service g grants
    → g.service ≡ service
OnlyFor-service service g [] x = elim x [ ]
OnlyFor-service service g (h ∷ grants) (this e k) = e
OnlyFor-service service g (h ∷ grants) (later n k) = OnlyFor-service service g grants k

pub limits_eq-equal : (a b : Limits) → limits_eq a b ≡ true → a ≡ b
unfolding limits_eq
limits_eq-equal a b e = ground arith

pub grant_eq-equal : (a b : Grant) → grant_eq a b ≡ true → a ≡ b
unfolding grant_eq
grant_eq-equal a b e = ground (
  arith,
  (bytes_eq_iff a.service b.service).0,
  (bytes_eq_iff a.credential_ref b.credential_ref).0,
  (bytes_eq_iff a.policy_revision b.policy_revision).0,
  (bytes_eq_iff a.binding_revision b.binding_revision).0,
  limits_eq-equal a.limits b.limits,
)
