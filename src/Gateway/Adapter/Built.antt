-- ===== src/Gateway/Adapter/Built.antt =====
-- What a header adapter that was built without an error is like.
use forcefield.Gateway.Header.{set_value}
use forcefield.Base.{
  lookup-put, ◌∙◌, put-IsMap, put, has_key, ◌||◌, Bool, bind-ok, bytes_eq_iff, reject, reject-ok,
  chain-ok, subst, arith, IsMap, Bool-cases, ok-injective, All, lookup, bytes_eq, false, ◌≡◌,
  member, Bytes, List, sym, some, ok, [], ◌∷◌, inl, inr,
}
use forcefield.Library.{IsHttp, Http, Text}
use forcefield.Gateway.Adapter.{
  duplicate_static, forwarded_static, unsafe_static, Header, bad_basic, duplicate_forwarded,
  bad_prefix, unsafe_forwarded, HeaderAdapterConfig, static_set, forward_set, new_header_adapter,
  reserved, HeaderAdapter,
}

abbrev pub Distinct : List Bytes → Type 0
Distinct [] = Unit
Distinct (x ∷ xs) = (member x xs ≡ false) × Distinct xs

module _ (http : Http) where
  -- A canonical key that is neither of the two authentication headers.
  abbrev pub IsFree : Bytes → Bytes → Bytes → Type 0
  IsFree client upstream name =
      (http.canonical_key name ≡ name)
      × (bytes_eq name client ≡ false)
      × (bytes_eq name upstream ≡ false)

  pub record IsBuilt (a : HeaderAdapter) : Type 0 where
    pub client : http.canonical_key a.client_header ≡ a.client_header
    pub upstream : http.canonical_key a.upstream_header ≡ a.upstream_header
    pub forward : All (IsFree a.client_header a.upstream_header) a.forward_headers
    pub distinct : Distinct a.forward_headers
    pub static_map : IsMap a.static_headers
    pub static :
        (k : Bytes) (vs : List Bytes)
        → lookup k a.static_headers ≡ some vs
        → IsFree a.client_header a.upstream_header k

or-left : (a b : Bool) → a || b ≡ false → a ≡ false
or-left a b h = ground arith

module _ (tx : Text) (http : Http) (laws : IsHttp http) where
  unfolded : (s t : Bytes) → http.equal_fold s t ≡ false → bytes_eq s t ≡ false
  unfolded s t h = elim (Bool-cases (bytes_eq s t)) [
    | inl e ↦ absurd (
        let f = subst (λ r. http.equal_fold s r ≡ false) (sym ((bytes_eq_iff s t).0 e)) h in
        let g = laws.fold_refl s in ground arith)
    | inr e ↦ e
  ]

  reserved-IsFree :
      (client upstream raw : Bytes)
      → reserved tx http client upstream (http.canonical_key raw) ≡ false
      → IsFree http client upstream (http.canonical_key raw)
  unfolding reserved
  reserved-IsFree client upstream raw h =
      let name = http.canonical_key raw in
      (
        laws.idempotent raw,
        unfolded name client (ground arith),
        unfolded name upstream (ground arith),
      )

  forward_set-ok :
      (client upstream : Bytes) (names seen r : List Bytes)
      → forward_set tx http client upstream names seen ≡ ok r
      → All (IsFree http client upstream) seen
      → Distinct seen
      → All (IsFree http client upstream) r × Distinct r
  unfolding forward_set
  forward_set-ok client upstream [] seen r h a d =
      let e = ok-injective seen r h in
      (subst (All (IsFree http client upstream)) e a, subst Distinct e d)
  forward_set-ok client upstream (raw ∷ names) seen r h a d =
      let name = http.canonical_key raw in
      let (h1, k) = chain-ok _ _ r h in
      let free = reject-ok _ unsafe_forwarded h1 in
      let (h2, rest) = chain-ok (reject (member name seen) duplicate_forwarded) _ r k in
      forward_set-ok client upstream names (name ∷ seen) r rest
        (reserved-IsFree client upstream raw (or-left _ _ (or-left _ _ free)), a)
        (reject-ok (member name seen) duplicate_forwarded h2, d)

  static_set-ok :
      (client upstream : Bytes) (forward : List Bytes) (entries : List (Bytes × Bytes))
      (header r : Header)
      → static_set tx http client upstream forward entries header ≡ ok r
      → IsMap header
      → ((k : Bytes) (vs : List Bytes) → lookup k header ≡ some vs → IsFree http client upstream k)
      → IsMap r
        × ((k : Bytes) (vs : List Bytes) → lookup k r ≡ some vs → IsFree http client upstream k)
  unfolding static_set set_value
  static_set-ok client upstream forward [] header r h m f =
      subst
        (λ t.
          IsMap t
          × ((k : Bytes) (vs : List Bytes) → lookup k t ≡ some vs → IsFree http client upstream k))
        (ok-injective header r h) (m, f)
  static_set-ok client upstream forward ((raw, value) ∷ entries) header r h m f =
      let name = http.canonical_key raw in
      let (h1, k) = chain-ok _ _ r h in
      let safe = reject-ok _ unsafe_static h1 in
      let (_, k2) = chain-ok (reject (member name forward) forwarded_static) _ r k in
      let (_, rest) = chain-ok (reject (has_key name header) duplicate_static) _ r k2 in
      let free =
        reserved-IsFree client upstream raw
          (or-left _ _ (or-left _ _ (or-left _ _ (or-left _ _ safe)))) in
      let key = http.canonical_key name in
      static_set-ok client upstream forward entries (put key (value ∷ []) header) r rest
        (put-IsMap key (value ∷ []) header m)
        (λ k vs e. elim (Bool-cases (bytes_eq key k)) [
          | inl same ↦
              subst (IsFree http client upstream)
                (sym (laws.idempotent raw) ∙ (bytes_eq_iff key k).0 same) free
          | inr other ↦ f k vs (ground (arith, lookup-put key k (value ∷ []) header))
        ])

  nothing : {P : Type 0} (k : Bytes) (vs : List Bytes) → lookup k [] ≡ some vs → P
  unfolding lookup
  nothing k vs e = absurd (ground arith)

  pub new_header_adapter-IsBuilt :
      (cfg : HeaderAdapterConfig) (a : HeaderAdapter)
      → new_header_adapter tx http cfg ≡ ok a
      → IsBuilt http a
  unfolding new_header_adapter lookup
  new_header_adapter-IsBuilt cfg a h =
      let client = http.canonical_key cfg.client_header in
      let upstream = http.canonical_key cfg.upstream_header in
      let (_, k1) = chain-ok _ _ a h in
      let (_, k2) = chain-ok (reject _ bad_prefix) _ a k1 in
      let (_, k3) = chain-ok (reject _ bad_basic) _ a k2 in
      let (forward, e, k4) =
        bind-ok (forward_set tx http client upstream cfg.forward_headers []) _ a k3 in
      let (static, f, k5) =
        bind-ok (static_set tx http client upstream forward cfg.static_headers []) _ a k4 in
      let (all, distinct) = forward_set-ok client upstream cfg.forward_headers [] forward e tt tt in
      let (m, free) =
        static_set-ok client upstream forward cfg.static_headers [] static f tt
          (λ k vs e. nothing k vs e) in
      subst (IsBuilt http) (ok-injective _ a k5) record {
        client = laws.idempotent cfg.client_header;
        upstream = laws.idempotent cfg.upstream_header;
        forward = all;
        distinct = distinct;
        static_map = m;
        static = free;
      }
