-- ===== src/Gateway/Serve/Carried.antt =====
-- internal/gateway/adapter.go: the token that a header carries.
use forcefield.Base.{
  subst, bytes_eq, ltb, ◌||◌, not, inl, inr, Bool-cases, sym, length, ap, ◌≤◌, refl, bytes, List,
  ◌∙◌, arith, ok, ◌++◌, ◌≡◌, Bytes, [], ◌∷◌, true, bytes_eq_iff, has_prefix, trim_prefix,
}
use forcefield.Library.{Http, Text}
use forcefield.Gateway.Header.{Header, values}
use forcefield.Gateway.Serve.Routed.{trim_prefix-append}
use forcefield.Gateway.Adapter.{HeaderAdapter, broker_token, extract_token}

-- The header has one value under the client's name, which is the prefix and the token; and the token
-- has the form of a broker's token.
pub record Carries (tx : Text) (http : Http) (a : HeaderAdapter) (header : Header) (token : Bytes)
    : Type 0 where
  pub only : values http a.client_header header ≡ (a.client_prefix ++ token) ∷ []
  pub marked : (rest : Bytes) × (token ≡ bytes "ff_" ++ rest)
  pub long : 16 ≤ length token
  pub trimmed : tx.trim_space token ≡ token

pub split_prefix : (s p : Bytes) → has_prefix s p ≡ true → (rest : Bytes) × (s ≡ p ++ rest)
unfolding has_prefix
split_prefix s [] e = (s, refl)
split_prefix [] (p ∷ ps) e = absurd (ground arith)
split_prefix (c ∷ s) (p ∷ ps) e =
    let (rest, q) = split_prefix s ps (ground arith) in (rest, ground (arith, q))

trim_prefix-split : (s p : Bytes) → has_prefix s p ≡ true → s ≡ p ++ trim_prefix s p
unfolding trim_prefix
trim_prefix-split s p e =
    let (rest, q) = split_prefix s p e in
    q ∙ ap (λ z. p ++ z) (sym (trim_prefix-append p rest) ∙ ap (λ z. trim_prefix z p) (sym q))

broker_token-Carries :
    (tx : Text) (http : Http) (a : HeaderAdapter) (value token : Bytes)
    → broker_token tx http a (value ∷ []) ≡ ok token
    → (value ≡ a.client_prefix ++ token)
      × ((rest : Bytes) × (token ≡ bytes "ff_" ++ rest))
      × (16 ≤ length token)
      × (tx.trim_space token ≡ token)
unfolding broker_token
broker_token-Carries tx http a value token e =
    let found = trim_prefix value a.client_prefix in
    elim (Bool-cases (has_prefix value a.client_prefix)) [
      | inr n ↦ absurd (ground arith)
      | inl y ↦
          elim (Bool-cases (
            not (has_prefix found (bytes "ff_"))
            || ltb (length found) 16
            || not (bytes_eq (tx.trim_space found) found))) [
              | inl n ↦ absurd (ground arith)
              | inr m ↦
                  let same : found ≡ token = ground arith in
                  (
                    trim_prefix-split value a.client_prefix y ∙ ap (λ z. a.client_prefix ++ z) same,
                    subst (λ z. (rest : Bytes) × (z ≡ bytes "ff_" ++ rest)) same
                        (split_prefix found (bytes "ff_") (ground (arith, m))),
                    subst (λ z. 16 ≤ length z) same (ground (arith, m)),
                    subst (λ z. tx.trim_space z ≡ z) same
                        ((bytes_eq_iff (tx.trim_space found) found).0 (ground (arith, m))),
                  )
            ]
    ]

pub extract_token-Carries :
    (tx : Text) (http : Http) (a : HeaderAdapter) (header : Header) (token : Bytes)
    → extract_token tx http a header ≡ ok token
    → Carries tx http a header token
unfolding extract_token broker_token
extract_token-Carries tx http a header token e = one (values http a.client_header header) refl e
  where
    one :
        (vs : List Bytes)
        → values http a.client_header header ≡ vs
        → broker_token tx http a vs ≡ ok token
        → Carries tx http a header token
    one [] q e = absurd (ground arith)
    one (v ∷ w ∷ vs) q e = absurd (ground arith)
    one (v ∷ []) q e =
        let (k, marked, long, trimmed) = broker_token-Carries tx http a v token e in
        record { only = q ∙ ap (λ z. z ∷ []) k; marked = marked; long = long; trimmed = trimmed }
