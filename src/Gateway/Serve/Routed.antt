-- ===== src/Gateway/Serve/Routed.antt =====
-- internal/gateway/gateway.go: where a request goes, by the tables of the routes.
use forcefield.Base.{
  sym, length, bytes_eq, Bool-cases, drop, ap, ◌∙◌, subst, inr, refl, inl, arith, Option-cases,
  lookup, ◌++◌, bytes, ◌≡◌, Map, Bytes, List, [], ◌∷◌, none, some, true, bytes_eq_iff, has_prefix,
  trim_prefix,
}
use forcefield.Library.{Http}
use forcefield.Gateway.Filter.Contains.{has_prefix-append}
use forcefield.Gateway.Target.{route, path_route, Net}

-- The first entry of the table whose prefix is the path or ends in it at a "/", and the path that is
-- left, "/" where it is the whole prefix.
pub data PathRoute {S : Type 0} : List (Bytes × S) → Bytes → S → Bytes → Type 0 where
  exact :
      {prefix : Bytes} {service : S} {routes : List (Bytes × S)}
      → PathRoute ((prefix, service) ∷ routes) prefix service (bytes "/")
  below :
      {prefix : Bytes} {service : S} {routes : List (Bytes × S)} (rest : Bytes)
      → ¬ (prefix ++ (bytes "/" ++ rest) ≡ prefix)
      → PathRoute
          ((prefix, service) ∷ routes)
          (prefix ++ (bytes "/" ++ rest))
          service
          (bytes "/" ++ rest)
  later :
      {prefix path relative : Bytes} {other service : S} {routes : List (Bytes × S)}
      → ¬ (path ≡ prefix)
      → ((rest : Bytes) → ¬ (path ≡ prefix ++ (bytes "/" ++ rest)))
      → PathRoute routes path service relative
      → PathRoute ((prefix, other) ∷ routes) path service relative

-- The service of the host with the whole path, or else that of a path's prefix.
pub data Routed {S : Type 0} (http : Http) (hosts : Map S) (routes : List (Bytes × S))
    (host path : Bytes) (service : S) : Bytes → Type 0 where
  by_host :
      lookup (http.to_lower host) hosts ≡ some service
      → Routed http hosts routes host path service path
  by_path :
      {relative : Bytes}
      → lookup (http.to_lower host) hosts ≡ none
      → PathRoute routes path service relative
      → Routed http hosts routes host path service relative

-- The host without the port, where there is one.
pub data HostOf (net : Net) (raw : Bytes) : Bytes → Type 0 where
  plain : net.split_host raw ≡ none → HostOf net raw raw
  with_port : {host : Bytes} → net.split_host raw ≡ some host → HostOf net raw host

prefixed :
    (s p : Bytes)
    → has_prefix s (p ++ bytes "/") ≡ true
    → (rest : Bytes) × (s ≡ p ++ (bytes "/" ++ rest))
unfolding has_prefix
prefixed [] [] e = absurd (ground arith)
prefixed (c ∷ s) [] e = (s, ground arith)
prefixed [] (p ∷ ps) e = absurd (ground arith)
prefixed (c ∷ s) (p ∷ ps) e =
    let (rest, q) = prefixed s ps (ground arith) in (rest, ground (arith, q))

has_prefix-longer : (p rest : Bytes) → has_prefix (p ++ (bytes "/" ++ rest)) (p ++ bytes "/") ≡ true
unfolding has_prefix
has_prefix-longer [] rest = refl
has_prefix-longer (c ∷ p) rest = ground (arith, has_prefix-longer p rest)

pub trim_prefix-append : (p t : Bytes) → trim_prefix (p ++ t) p ≡ t
unfolding trim_prefix
trim_prefix-append p t = rw (has_prefix-append p t, trim_prefix) (dropped p t)
  where
    dropped : (p t : Bytes) → drop (length p) (p ++ t) ≡ t
    dropped [] t = refl
    dropped (c ∷ p) t = dropped p t

pub path_route-PathRoute :
    {S : Type 0} (routes : List (Bytes × S)) (path : Bytes) (service : S) (relative : Bytes)
    → path_route routes path ≡ some (service, relative)
    → PathRoute routes path service relative
unfolding path_route
path_route-PathRoute [] path service relative e = absurd (ground arith)
path_route-PathRoute {S = S} ((prefix, other) ∷ routes) path service relative e =
    elim (Bool-cases (bytes_eq path prefix)) [
      | inl y ↦
          let f : other ≡ service = ground (arith, e) in
          let k : bytes "/" ≡ relative = ground (arith, e) in
          subst3 prefix other (bytes "/") path service relative
            (sym ((bytes_eq_iff path prefix).0 y)) f k exact
      | inr n ↦
          let differs : ¬ (path ≡ prefix) =
            λ q. ground (arith, n, (bytes_eq_iff path prefix).1 q) in
          elim (Bool-cases (has_prefix path (prefix ++ bytes "/"))) [
            | inl y ↦
                let (rest, q) = prefixed path prefix y in
                let f : other ≡ service = ground (arith, e) in
                let t : trim_prefix path prefix ≡ relative = ground (arith, e) in
                let k =
                  sym (trim_prefix-append prefix (bytes "/" ++ rest))
                  ∙ ap (λ z. trim_prefix z prefix) (sym q)
                  ∙ t in
                subst3 (prefix ++ (bytes "/" ++ rest)) other (bytes "/" ++ rest) path service
                  relative (sym q) f k (below rest (λ z. differs (q ∙ z)))
            | inr m ↦
                later differs (λ rest q. ground (arith, q, m, has_prefix-longer prefix rest))
                  (path_route-PathRoute routes path service relative (ground arith))
          ]
    ]
  where
    subst3 :
        (p : Bytes) (o : S) (r p' : Bytes) (o' : S) (r' : Bytes)
        → p ≡ p'
        → o ≡ o'
        → r ≡ r'
        → PathRoute ((prefix, other) ∷ routes) p o r
        → PathRoute ((prefix, other) ∷ routes) p' o' r'
    subst3 p o r p' o' r' a b c k =
        subst (λ z. PathRoute ((prefix, other) ∷ routes) p' o' z) c
          (subst (λ z. PathRoute ((prefix, other) ∷ routes) p' z r) b
            (subst (λ z. PathRoute ((prefix, other) ∷ routes) z o r) a k))

pub route-Routed :
    {S : Type 0} (http : Http) (net : Net) (hosts : Map S) (routes : List (Bytes × S))
    (raw path : Bytes) (service : S) (relative : Bytes)
    → route http net hosts routes raw path ≡ some (service, relative)
    → (host : Bytes) × HostOf net raw host × Routed http hosts routes host path service relative
unfolding route
route-Routed {S = S} http net hosts routes raw path service relative e =
    elim (Option-cases (net.split_host raw)) [
      | inl n ↦ (raw, plain n, looked raw (ground (arith, n, e)))
      | inr (host, y) ↦ (host, with_port y, looked host (ground (arith, y, e)))
    ]
  where
    looked :
        (host : Bytes)
        → elim (lookup (http.to_lower host) hosts) [
          | some service ↦ some (service, path)
          | none ↦ path_route routes path
        ]
          ≡ some (service, relative)
        → Routed http hosts routes host path service relative
    looked host e = elim (Option-cases (lookup (http.to_lower host) hosts)) [
      | inl n ↦ by_path n (path_route-PathRoute routes path service relative (ground arith))
      | inr (found, y) ↦
          let f : found ≡ service = ground arith in
          subst (λ z. Routed http hosts routes host path service z) (ground arith)
            (by_host (y ∙ ap (λ z. some z) f))
    ]
