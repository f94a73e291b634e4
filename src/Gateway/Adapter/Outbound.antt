-- ===== src/Gateway/Adapter/Outbound.antt =====
-- The headers of the request that goes to the upstream.
use forcefield.Base.{
  Result, not, Option-cases, bind-ok, bytes_eq_refl, reject, bytes_eq_iff, has_key_lem, chain-ok,
  subst, ok-injective, ap, delete, bytes_eq, arith, Bool, Bool-cases, IsMap, lookup, member, ◌≡◌,
  List, has_key, All, Bytes, true, false, append-nil, refl, sym, none, some, ok, [], ◌∷◌, ◌++◌, inl,
  inr, if◌then◌else◌, ◌∙◌,
}
use forcefield.Gateway.Header.{
  or_empty, values, values_at, Header, add_values, delete_name, set_value,
}
use forcefield.Library.{IsHttp, Http}
use forcefield.Gateway.Adapter.{
  AdapterError, valid_header_credential, new_header_adapter, HeaderAdapterConfig, Text,
  no_credential, credential_value, rewrite_headers, HeaderAdapter, bad_value, delete_all,
  forward_all, add_static,
}
use forcefield.Gateway.Adapter.Built.{new_header_adapter-IsBuilt, IsBuilt, IsFree, Distinct}
use forcefield.Gateway.Header.Laws.{values_at-put, values_at-delete, values_at-add_values}

module _ (http : Http) where
  abbrev IsCanonical : Bytes → Type 0
  IsCanonical k = http.canonical_key k ≡ k

  -- The keys of a header that net/http has read are canonical.
  abbrev pub HasCanonicalKeys : Header → Type 0
  HasCanonicalKeys h = (k : Bytes) (vs : List Bytes) → lookup k h ≡ some vs → IsCanonical k

  abbrev AllCanonical : Header → Type 0
  AllCanonical = All (λ e. IsCanonical e.0)

  delete_all_kept :
      (k : Bytes) (names out : Header)
      → values_at k out ≡ []
      → values_at k (delete_all http names out) ≡ []
  unfolding delete_all delete_name
  delete_all_kept k [] out h = h
  delete_all_kept k ((name, vs) ∷ names) out h =
      delete_all_kept k names (delete (http.canonical_key name) out) (
        values_at-delete (http.canonical_key name) k out
        ∙ either (bytes_eq (http.canonical_key name) k))
    where
      either : (b : Bool) → (if b then [] else values_at k out) ≡ []
      either true = refl
      either false = h

  delete_all-has_key :
      (k : Bytes) (names out : Header)
      → AllCanonical names
      → has_key k names ≡ true
      → values_at k (delete_all http names out) ≡ []
  unfolding delete_all delete_name has_key
  delete_all-has_key k [] out c h = absurd (ground arith)
  delete_all-has_key k ((name, vs) ∷ names) out (c, cs) h = elim (Bool-cases (bytes_eq name k)) [
    | inl e ↦
        delete_all_kept k names (delete (http.canonical_key name) out)
          (values_at-delete (http.canonical_key name) k out ∙ rw (c, e) refl)
    | inr e ↦ delete_all-has_key k names (delete (http.canonical_key name) out) cs (ground arith)
  ]

  -- Nothing is left of what the request held before.
  delete_all_self :
      (k : Bytes) (out : Header) → AllCanonical out → values_at k (delete_all http out out) ≡ []
  unfolding values_at
  delete_all_self k out c = elim (Bool-cases (has_key k out)) [
    | inl e ↦ delete_all-has_key k out out c e
    | inr e ↦ delete_all_kept k out out (ap or_empty ((has_key_lem k out).0 e))
  ]

  values_at-forward_all :
      (header : Header) (names : List Bytes) (out r : Header)
      → forward_all http header names out ≡ ok r
      → All IsCanonical names
      → Distinct names
      → (k : Bytes)
      → values_at k r ≡ values_at k out ++ (if member k names then values_at k header else [])
  unfolding forward_all member values
  values_at-forward_all header [] out r h c d k =
      ap (values_at k) (sym (ok-injective out r h)) ∙ sym (append-nil (values_at k out))
  values_at-forward_all header (name ∷ names) out r h (c, cs) (n, d) k =
      let (_, rest) = chain-ok (reject _ bad_value) _ r h in
      let vs = values_at (http.canonical_key name) header in
      values_at-forward_all header names (add_values http name vs out) r rest cs d k
      ∙ rw (values_at-add_values http name c k vs out) (elim (Bool-cases (bytes_eq name k)) [
        | inl e ↦
            let same = (bytes_eq_iff name k).0 e in
            let absent = subst (λ t. member t names ≡ false) same n in
            rw (e, absent, c)
              (append-nil (values_at k out ++ values_at name header)
                ∙ ap (λ t. values_at k out ++ values_at t header) same)
        | inr e ↦ rw e refl
      ])

  values_at-add_static :
      (entries out : Header)
      → AllCanonical entries
      → IsMap entries
      → (k : Bytes)
      → values_at k (add_static http entries out) ≡ values_at k out ++ values_at k entries
  unfolding add_static values_at lookup
  values_at-add_static [] out c m k = sym (append-nil (values_at k out))
  values_at-add_static ((name, vs) ∷ entries) out (c, cs) (n, m) k =
      values_at-add_static entries (add_values http name vs out) cs m k
      ∙ rw (values_at-add_values http name c k vs out) (elim (Bool-cases (bytes_eq name k)) [
        | inl e ↦
            let absent = subst (λ t. lookup t entries ≡ none) ((bytes_eq_iff name k).0 e) n in
            rw (e, absent) (append-nil (values_at k out ++ vs))
        | inr e ↦ rw e refl
      ])

  All-IsFree→IsCanonical :
      (client upstream : Bytes) (names : List Bytes)
      → All (IsFree http client upstream) names
      → All IsCanonical names
  All-IsFree→IsCanonical client upstream [] a = tt
  All-IsFree→IsCanonical client upstream (n ∷ ns) (a, as') =
      (a.0, All-IsFree→IsCanonical client upstream ns as')

  member-IsFree :
      (client upstream k : Bytes) (names : List Bytes)
      → All (IsFree http client upstream) names
      → member k names ≡ true
      → bytes_eq k client ≡ false
  unfolding member
  member-IsFree client upstream k [] a h = absurd (ground arith)
  member-IsFree client upstream k (n ∷ ns) (a, rest) h = elim (Bool-cases (bytes_eq n k)) [
    | inl e ↦ subst (λ t. bytes_eq t client ≡ false) ((bytes_eq_iff n k).0 e) a.1
    | inr e ↦ member-IsFree client upstream k ns rest (ground arith)
  ]

  lookup→AllCanonical : (h : Header) → IsMap h → HasCanonicalKeys h → AllCanonical h
  unfolding lookup
  lookup→AllCanonical [] m c = tt
  lookup→AllCanonical ((k, vs) ∷ h) (n, m) c = (
    c k vs (ground (arith, bytes_eq_refl k)),
    lookup→AllCanonical h m (λ j ws e. c j ws (ground (arith, bytes_eq_iff k j))),
  )

  module _ (a : HeaderAdapter) (built : IsBuilt http a) where
    -- The values of each key of the request that is sent.
    rewritten :
        (header out r : Header) (secret : Bytes)
        → IsMap out
        → HasCanonicalKeys out
        → rewrite_headers http a header out secret ≡ ok r
        → (k : Bytes)
        → values_at k r ≡ (
            if bytes_eq a.upstream_header k
            then credential_value http a secret ∷ []
            else (if member k a.forward_headers then values_at k header else [])
              ++ values_at k a.static_headers)
    unfolding rewrite_headers set_value
    rewritten header out r secret m c h k =
        let (_, h1) =
          chain-ok (reject (not (valid_header_credential secret)) no_credential) _ r h in
        let finish : Header → Result AdapterError Header = λ sent. ok (
          set_value http a.upstream_header (credential_value http a secret)
            (add_static http a.static_headers sent)) in
        let (sent, e, h2) =
          bind-ok (forward_all http header a.forward_headers (delete_all http out out)) finish r
            h1 in
        let keys =
          lookup→AllCanonical a.static_headers built.static_map
            (λ j vs f. (built.static j vs f).0) in
        let last =
          set_value http a.upstream_header (credential_value http a secret)
            (add_static http a.static_headers sent) in
        let step : values_at k r ≡ values_at k last =
          ap (values_at k) (sym (ok-injective last r h2)) in
        step
        ∙ rw
            (
              built.upstream,
              values_at-put a.upstream_header k (credential_value http a secret ∷ [])
                  (add_static http a.static_headers sent),
            )
            (elim (Bool-cases (bytes_eq a.upstream_header k)) [
              | inl f ↦ rw f refl
              | inr f ↦
                  rw
                    (
                      f,
                      values_at-add_static a.static_headers sent keys built.static_map k,
                      values_at-forward_all header a.forward_headers (delete_all http out out) sent
                          e
                          (All-IsFree→IsCanonical a.client_header a.upstream_header
                            a.forward_headers built.forward)
                          built.distinct k,
                      delete_all_self k out (lookup→AllCanonical out m c),
                    )
                    refl
            ])

    -- The client's own header is neither forwarded nor static.
    unauthenticated :
        (header : Header)
        → (if member a.client_header a.forward_headers
              then values_at a.client_header header
              else [])
            ++ values_at a.client_header a.static_headers
          ≡ []
    unfolding values_at
    unauthenticated header =
        let k = a.client_header in
        elim (Bool-cases (member k a.forward_headers)) [
          | inl e ↦ absurd (
              let z =
                member-IsFree a.client_header a.upstream_header k a.forward_headers built.forward
                  e in
              let w = bytes_eq_refl k in ground arith)
          | inr e ↦ elim (Option-cases (lookup k a.static_headers)) [
            | inl f ↦ rw (e, f) refl
            | inr (vs, f) ↦
                absurd (let z = (built.static k vs f).1 in let w = bytes_eq_refl k in ground arith)
          ]
        ]

-- Of an adapter that was built without an error, whatever the client sent: under the upstream's
-- header goes the credential alone, under any other key only the values that the client gave for a
-- forwarded header and the configured static ones, and the header in which the client sent its
-- broker token is empty, unless the credential goes there. The header that is written over has the
-- canonical keys that net/http gives.
pub rewrite_headers-outbound :
    (tx : Text) (http : Http)
    → IsHttp http
    → (cfg : HeaderAdapterConfig) (a : HeaderAdapter) (header out r : Header) (secret : Bytes)
    → new_header_adapter tx http cfg ≡ ok a
    → IsMap out
    → HasCanonicalKeys http out
    → rewrite_headers http a header out secret ≡ ok r
    → ((k : Bytes)
        → values_at k r ≡ (
            if bytes_eq a.upstream_header k
            then credential_value http a secret ∷ []
            else (if member k a.forward_headers then values_at k header else [])
              ++ values_at k a.static_headers))
      × (bytes_eq a.upstream_header a.client_header ≡ false → values_at a.client_header r ≡ [])
rewrite_headers-outbound tx http laws cfg a header out r secret e m c h =
    let built = new_header_adapter-IsBuilt tx http laws cfg a e in
    let each = rewritten http a built header out r secret m c h in
    (each, λ other. each a.client_header ∙ rw other (unauthenticated http a built header))
