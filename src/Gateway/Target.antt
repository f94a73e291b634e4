-- ===== src/Gateway/Target.antt =====
-- internal/gateway/canonical.go and gateway.go: the request target, its route, its headers and its body.
use forcefield.Base.{
  ◌>>=◌, ◌++◌, ◌>>◌, length, ◌&&◌, ltb, bytes, if◌then◌else◌, ◌+◌, not, reject, trim_prefix, retain,
  List, contains, ◌||◌, member, Map, has_prefix, bytes_eq, lookup, Result, Option, Bytes, Bool, ℕ,
  [], ◌∷◌, none, some, false, ok, err,
}
use forcefield.Policy.Path.{canonical_path}
use forcefield.Library.{Http, Url, Text}
use forcefield.Policy.Query.{canonical_query}
use forcefield.Gateway.Header.{contains_header_control, Header, set_value, values}

-- `net/url`, `net` and `mime`: the escaped spelling of a path and its raw path, the host of a
-- `host:port`, `strings.ToUpper`, and whether `mime.ParseMediaType` accepts a media type.
pub record Net : Type 0 where
  pub escaped_path : Bytes → Bytes → Bytes
  pub split_host : Bytes → Option Bytes
  pub to_upper : Bytes → Bytes
  pub media_type : Bytes → Bool

-- `*url.URL` of a request.
pub record RequestUrl : Type 0 where
  pub is_abs : Bool
  pub host : Bytes
  pub opaque : Bytes
  pub path : Bytes
  pub raw_path : Bytes
  pub raw_query : Bytes

pub data TargetError : Type 0 where
  invalid_target invalid_policy_target : TargetError
  invalid_global_limit over_grant_limit encoded_body unbounded_body : TargetError

pub record CanonicalUrl : Type 0 where
  pub path : Bytes
  pub raw_query : Bytes
  pub query : Map (List Bytes)

abbrev pub default_max_query_bytes : ℕ
default_max_query_bytes = 16384

abbrev pub default_max_query_pairs : ℕ
default_max_query_pairs = 256

-- The loop over the pairs; `none` at an empty key.
unfoldable pub count_pairs : Map (List Bytes) → ℕ → Option ℕ
unfolding bytes_eq
count_pairs [] pairs = some pairs
count_pairs ((key, vs) ∷ query) pairs =
    let rest = count_pairs query (pairs + length vs) in if bytes_eq key [] then none else rest

-- `RawPath`, where there is one, spells `Path`.
unfoldable pub raw_path_agrees : Url → RequestUrl → Bool
unfolding bytes_eq
raw_path_agrees u r =
    bytes_eq r.raw_path []
    || elim (u.path_unescape r.raw_path) [ none ↦ false | some decoded ↦ bytes_eq decoded r.path ]

-- After the query was parsed.
unfoldable pub bounded_url :
    Bytes → Bytes → Map (List Bytes) → Option ℕ → Result TargetError CanonicalUrl
bounded_url path query parsed none = err invalid_target
bounded_url path query parsed (some pairs) =
    reject (ltb default_max_query_pairs pairs) invalid_target
    >> ok record { path = path; raw_query = query; query = parsed }

abbrev pub or_invalid {ℓ} : {A : Type ℓ} → TargetError → Option A → Result TargetError A
or_invalid e none = err e
or_invalid e (some a) = ok a

abbrev pub as_target {ℓ κ} : {E : Type ℓ} {A : Type κ} → Result E A → Result TargetError A
as_target (ok a) = ok a
as_target (err e) = err invalid_target

unfoldable pub canonicalize_url : Url → Text → Net → RequestUrl → Result TargetError CanonicalUrl
unfolding raw_path_agrees canonical_path canonical_query count_pairs bounded_url bytes_eq
canonicalize_url u tx net r =
    reject (r.is_abs || not (bytes_eq r.host []) || not (bytes_eq r.opaque [])) invalid_target
    >> reject (not (raw_path_agrees u r)) invalid_target
    >> (as_target (canonical_path u tx (net.escaped_path r.path r.raw_path)) >>= λ escaped.
        or_invalid invalid_target (u.path_unescape escaped) >>= λ path.
        reject (ltb default_max_query_bytes (length r.raw_query)) invalid_target
        >> (as_target (canonical_query u tx r.raw_query) >>= λ (values, query).
            or_invalid invalid_target (u.parse_query query) >>= λ parsed.
            bounded_url path query parsed (count_pairs parsed 0)))

-- The loop over the path routes, the longest prefixes first.
unfoldable pub path_route {ℓ} : {S : Type ℓ} → List (Bytes × S) → Bytes → Option (S × Bytes)
unfolding bytes_eq has_prefix trim_prefix
path_route [] path = none
path_route ((prefix, service) ∷ routes) path =
    let rest = path_route routes path in
    if bytes_eq path prefix
    then some (service, bytes "/")
    else if has_prefix path (prefix ++ bytes "/")
    then some (service, trim_prefix path prefix)
    else rest

unfoldable pub route {ℓ} :
    {S : Type ℓ} → Http → Net → Map S → List (Bytes × S) → Bytes → Bytes → Option (S × Bytes)
unfolding path_route lookup
route http net hosts paths raw_host path =
    let host : Bytes = elim (net.split_host raw_host) [ none ↦ raw_host | some h ↦ h ] in
    elim (lookup (http.to_lower host) hosts) [
      | some service ↦ some (service, path)
      | none ↦ path_route paths path
    ]

module _ (tx : Text) (http : Http) where
  -- The values of every spelling of the name.
  unfoldable pub folded_values : Bytes → Header → List Bytes
  folded_values name [] = []
  folded_values name ((key, vs) ∷ header) =
      let rest = folded_values name header in if http.equal_fold key name then vs ++ rest else rest

  unfoldable pub singleton_value : Bytes → List Bytes → Header → Option (Bytes × Header)
  unfolding bytes_eq set_value contains_header_control
  singleton_value name [] rest = some ([], rest)
  singleton_value name (value ∷ []) rest =
      let trimmed = tx.trim_space value in
      if contains_header_control value
      then none
      else if bytes_eq trimmed []
      then some ([], rest)
      else some (trimmed, set_value http name trimmed rest)
  singleton_value name (v ∷ w ∷ vs) rest = none

  -- The one value of a header, trimmed, and the header with this spelling alone; `none` is `false`.
  unfoldable pub singleton_header : Header → Bytes → Option (Bytes × Header)
  unfolding folded_values singleton_value retain
  singleton_header header name =
      singleton_value name (folded_values name header)
        (retain (λ key vs. not (http.equal_fold key name)) header)

  unfoldable pub normalize_request_representation : Net → Header → Option Header
  unfolding singleton_header bytes_eq member
  normalize_request_representation net header =
      elim (singleton_header header (bytes "Content-Type")) [
        | none ↦ none
        | some (content_type, h) ↦
            if not (bytes_eq content_type []) && not (net.media_type content_type)
            then none
            else elim (singleton_header h (bytes "Content-Encoding")) [
              | none ↦ none
              | some (raw, h') ↦
                  if member (http.to_lower (tx.trim_space raw))
                    ([] ∷ bytes "identity" ∷ bytes "gzip" ∷ bytes "x-gzip" ∷ [])
                  then some h'
                  else none
            ]
      ]

  -- `r.Header.Get`
  unfoldable pub get_header : Bytes → Header → Bytes
  unfolding values
  get_header name header = elim (values http name header) [ [] ↦ [] | v ∷ vs ↦ v ]

  unfoldable pub request_has_upgrade : Header → Bool
  unfolding get_header bytes_eq contains
  request_has_upgrade header =
      not (bytes_eq (get_header (bytes "Upgrade") header) [])
      || contains (http.to_lower (get_header (bytes "Connection") header)) (bytes "upgrade")
