-- ===== src/Gateway/Adapter.antt =====
-- internal/gateway/adapter.go: the header adapter takes the broker token from one header and puts the
-- upstream credential into another.
pub mod Built
pub mod Outbound
use forcefield.Base.{
  ltb, ◌>>=◌, bytes, ◌>>◌, ◌==◌, ◌||◌, has_key, ◌++◌, ◌&&◌, false, reject, trim_prefix, member,
  length, ◌∷◌, [], leb, true, has_prefix, not, List, if◌then◌else◌, Result, bytes_eq, Bytes, Bool,
  ℕ, none, some, ok, err,
}
use forcefield.Library.{Text, Http}
use forcefield.Gateway.Header.{
  values, values, values, values, values, values, values, values, values, values, values, values,
  values, values, values, values, Header, credential_bearing, unsafe_credential_header, add_values,
  contains_header_control, is_hop_by_hop_header, valid_header_name, set_value, delete_name,
}

pub data AdapterError : Type 0 where
  bad_header bad_prefix bad_basic unsafe_forwarded duplicate_forwarded unsafe_static : AdapterError
  forwarded_static duplicate_static broker_credential no_credential bad_value : AdapterError

-- The sets and the header of the adapter; `forward` is the list of the keys of its map.
pub record HeaderAdapter : Type 0 where
  pub client_header : Bytes
  pub client_prefix : Bytes
  pub upstream_header : Bytes
  pub upstream_prefix : Bytes
  pub basic_username : Bytes
  pub forward_headers : List Bytes
  pub static_headers : Header

pub record HeaderAdapterConfig : Type 0 where
  pub client_header : Bytes
  pub client_prefix : Bytes
  pub upstream_header : Bytes
  pub upstream_prefix : Bytes
  pub upstream_basic_username : Bytes
  pub forward_headers : List Bytes
  pub static_headers : List (Bytes × Bytes)

unfoldable pub printable : ℕ → Bool
printable b = leb 33 b && leb b 126

unfoldable pub all_printable : Bytes → Bool
unfolding printable
all_printable [] = true
all_printable (b ∷ s) = printable b && all_printable s

-- Visible ASCII without a colon.
unfoldable pub basic_username_bytes : Bytes → Bool
unfolding printable
basic_username_bytes [] = true
basic_username_bytes (b ∷ s) = printable b && not (b == 58) && basic_username_bytes s

unfoldable pub valid_basic_username : Bytes → Bool
unfolding basic_username_bytes bytes_eq
valid_basic_username v = not (bytes_eq v []) && leb (length v) 256 && basic_username_bytes v

unfoldable pub valid_header_credential : Bytes → Bool
unfolding all_printable
valid_header_credential secret =
    not (length secret == 0) && leb (length secret) 16384 && all_printable secret

module _ (tx : Text) (http : Http) where
  -- What a forwarded or static header may not be.
  unfoldable pub reserved : Bytes → Bytes → Bytes → Bool
  unfolding valid_header_name credential_bearing
  reserved client upstream name =
      not (valid_header_name name)
      || credential_bearing tx http name
      || http.equal_fold name (bytes "Accept-Encoding")
      || http.equal_fold name client
      || http.equal_fold name upstream

  -- The loop over `cfg.ForwardHeaders`, with the names so far.
  unfoldable pub forward_set :
      Bytes → Bytes → List Bytes → List Bytes → Result AdapterError (List Bytes)
  unfolding reserved is_hop_by_hop_header member
  forward_set client upstream [] seen = ok seen
  forward_set client upstream (raw ∷ names) seen =
      let name = http.canonical_key raw in
      reject
        (reserved client upstream name
          || is_hop_by_hop_header http name
          || http.equal_fold name (bytes "Content-Length"))
        unsafe_forwarded
      >> (reject (member name seen) duplicate_forwarded
          >> forward_set client upstream names (name ∷ seen))

  -- The loop over `cfg.StaticHeaders`, with the header so far.
  unfoldable pub static_set :
      Bytes → Bytes → List Bytes → List (Bytes × Bytes) → Header → Result AdapterError Header
  unfolding reserved unsafe_credential_header member has_key set_value contains_header_control
      bytes_eq
  static_set client upstream forward [] header = ok header
  static_set client upstream forward ((raw, value) ∷ entries) header =
      let name = http.canonical_key raw in
      reject
        (reserved client upstream name
          || unsafe_credential_header http name
          || ltb 8192 (length value)
          || not (bytes_eq (tx.trim_space value) value)
          || contains_header_control value)
        unsafe_static
      >> (reject (member name forward) forwarded_static
          >> (reject (has_key name header) duplicate_static
              >> static_set client upstream forward entries (set_value http name value header)))

  unfoldable pub new_header_adapter : HeaderAdapterConfig → Result AdapterError HeaderAdapter
  unfolding valid_header_name unsafe_credential_header contains_header_control valid_basic_username
      forward_set static_set bytes_eq
  new_header_adapter cfg =
      let client = http.canonical_key cfg.client_header in
      let upstream = http.canonical_key cfg.upstream_header in
      reject
        (not (valid_header_name client)
          || not (valid_header_name upstream)
          || unsafe_credential_header http client
          || unsafe_credential_header http upstream)
        bad_header
      >> (reject
            (contains_header_control cfg.client_prefix
              || contains_header_control cfg.upstream_prefix)
            bad_prefix
          >> (reject
                (not (bytes_eq cfg.upstream_basic_username [])
                  && (not (bytes_eq upstream (bytes "Authorization"))
                      || not (bytes_eq cfg.upstream_prefix [])
                      || not (valid_basic_username cfg.upstream_basic_username)))
                bad_basic
              >> (forward_set client upstream cfg.forward_headers [] >>= λ forward.
                  static_set client upstream forward cfg.static_headers [] >>= λ static. ok record {
                    client_header = client;
                    client_prefix = cfg.client_prefix;
                    upstream_header = upstream;
                    upstream_prefix = cfg.upstream_prefix;
                    basic_username = cfg.upstream_basic_username;
                    forward_headers = forward;
                    static_headers = static;
                  })))

  -- `values` with one element; the tests on the token.
  unfoldable pub broker_token : HeaderAdapter → List Bytes → Result AdapterError Bytes
  unfolding has_prefix trim_prefix bytes_eq
  broker_token a (value ∷ []) =
      let token = trim_prefix value a.client_prefix in
      reject (not (has_prefix value a.client_prefix)) broker_credential
      >> (reject
            (not (has_prefix token (bytes "ff_"))
              || ltb (length token) 16
              || not (bytes_eq (tx.trim_space token) token))
            broker_credential
          >> ok token)
  broker_token a _ = err broker_credential

  unfoldable pub extract_token : HeaderAdapter → Header → Result AdapterError Bytes
  unfolding broker_token values
  extract_token a header = broker_token a (values http a.client_header header)

module _ (http : Http) where
  -- `for name := range out { out.Del(name) }`
  unfoldable pub delete_all : Header → Header → Header
  unfolding delete_name
  delete_all [] out = out
  delete_all ((name, vs) ∷ names) out = delete_all names (delete_name http name out)

  unfoldable pub any_bad_value : List Bytes → Bool
  unfolding contains_header_control
  any_bad_value [] = false
  any_bad_value (v ∷ vs) = contains_header_control v || any_bad_value vs

  -- The loop over the forwarded names. What was added before a bad value is not observed: the caller
  -- drops `out` when there is an error.
  unfoldable pub forward_all : Header → List Bytes → Header → Result AdapterError Header
  unfolding any_bad_value values add_values
  forward_all header [] out = ok out
  forward_all header (name ∷ names) out =
      reject (any_bad_value (values http name header)) bad_value
      >> forward_all header names (add_values http name (values http name header) out)

  unfoldable pub add_static : Header → Header → Header
  unfolding add_values
  add_static [] out = out
  add_static ((name, vs) ∷ entries) out = add_static entries (add_values http name vs out)

  unfoldable pub credential_value : HeaderAdapter → Bytes → Bytes
  unfolding bytes_eq
  credential_value a secret =
      if bytes_eq a.basic_username []
      then a.upstream_prefix ++ secret
      else bytes "Basic " ++ http.base64_standard (a.basic_username ++ (bytes ":" ++ secret))

  unfoldable pub rewrite_headers :
      HeaderAdapter → Header → Header → Bytes → Result AdapterError Header
  unfolding valid_header_credential delete_all forward_all add_static credential_value set_value
  rewrite_headers a header out secret =
      reject (not (valid_header_credential secret)) no_credential
      >> (forward_all header a.forward_headers (delete_all out out) >>= λ forwarded. ok (
          set_value http a.upstream_header (credential_value a secret)
            (add_static a.static_headers forwarded)))

  unfoldable pub leak_patterns : HeaderAdapter → Bytes → Result AdapterError (List Bytes)
  unfolding valid_header_credential bytes_eq
  leak_patterns a secret =
      reject (not (valid_header_credential secret)) no_credential
      >> ok (
          secret
          ∷ (if bytes_eq a.basic_username []
              then []
              else http.base64_standard (a.basic_username ++ (bytes ":" ++ secret)) ∷ []))
