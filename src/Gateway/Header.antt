-- ===== src/Gateway/Header.antt =====
-- internal/gateway/adapter.go and internal/headersafety/headers.go: header maps and the names that
-- may not pass.
pub mod Laws
use forcefield.Base.{
  ◌==◌, map, ◌&&◌, leb, false, [], not, ◌||◌, true, if◌then◌else◌, Option, ◌∷◌, ◌++◌, bytes, Bool,
  split, delete, Bytes, put, member, bytes_eq, contains_any, lookup, mem_byte, List, Map, ℕ, none,
  some,
}
use forcefield.Library.{Http, Text}
use forcefield.Policy.Path.{method_marks}

-- `http.Header`: the values of each key. The methods of the type use the canonical key.
abbrev pub Header : Type 0
Header = Map (List Bytes)

abbrev pub or_empty : Option (List Bytes) → List Bytes
or_empty none = []
or_empty (some vs) = vs

unfoldable pub values_at : Bytes → Header → List Bytes
unfolding lookup
values_at k h = or_empty (lookup k h)

unfoldable pub valid_header_name_bytes : Bytes → Bool
unfolding mem_byte
valid_header_name_bytes [] = true
valid_header_name_bytes (b ∷ s) =
    (leb 97 b && leb b 122
      || leb 65 b && leb b 90
      || leb 48 b && leb b 57
      || mem_byte b method_marks)
    && valid_header_name_bytes s

unfoldable pub valid_header_name : Bytes → Bool
unfolding valid_header_name_bytes bytes_eq
valid_header_name name = not (bytes_eq name []) && valid_header_name_bytes name

unfoldable pub contains_header_control : Bytes → Bool
unfolding contains_any
contains_header_control value = contains_any value (13 ∷ 10 ∷ 0 ∷ [])

abbrev pub hop_by_hop_headers : List Bytes
hop_by_hop_headers =
    bytes "Connection"
    ∷ bytes "Proxy-Connection"
    ∷ bytes "Keep-Alive"
    ∷ bytes "Proxy-Authenticate"
    ∷ bytes "Proxy-Authorization"
    ∷ bytes "Te"
    ∷ bytes "Trailer"
    ∷ bytes "Transfer-Encoding"
    ∷ bytes "Upgrade"
    ∷ bytes "Forwarded"
    ∷ bytes "X-Forwarded-For"
    ∷ bytes "X-Forwarded-Host"
    ∷ bytes "X-Forwarded-Proto"
    ∷ []

abbrev pub framing_headers : List Bytes
framing_headers = bytes "Content-Length" ∷ bytes "Content-Encoding" ∷ bytes "Content-Type" ∷ []

abbrev pub credential_words : List Bytes
credential_words =
    bytes "apikey"
    ∷ bytes "auth"
    ∷ bytes "authentication"
    ∷ bytes "authorization"
    ∷ bytes "bearer"
    ∷ bytes "credential"
    ∷ bytes "credentials"
    ∷ bytes "jwt"
    ∷ bytes "password"
    ∷ bytes "passwd"
    ∷ bytes "secret"
    ∷ bytes "session"
    ∷ bytes "signature"
    ∷ bytes "token"
    ∷ []

unfoldable pub non_empty : List Bytes → List Bytes
unfolding bytes_eq
non_empty [] = []
non_empty (p ∷ ps) = let rest = non_empty ps in if bytes_eq p [] then rest else p ∷ rest

-- `strings.FieldsFunc` at `-` and `_`: the parts that are not empty.
unfoldable pub name_parts : Bytes → List Bytes
unfolding non_empty split
name_parts name = non_empty (split 45 (map (λ c. if c == 95 then 45 else c) name))

-- The loop over the parts; `key` is fine only behind `idempotency`.
unfoldable pub bearing_parts : Bytes → List Bytes → Bool
unfolding member bytes_eq
bearing_parts previous [] = false
bearing_parts previous (part ∷ parts) =
    member part credential_words
    || bytes_eq part (bytes "key") && not (bytes_eq previous (bytes "idempotency"))
    || bearing_parts part parts

module _ (tx : Text) (http : Http) where
  unfoldable pub credential_bearing : Bytes → Bool
  unfolding bearing_parts name_parts member
  credential_bearing raw =
      let name = http.to_lower (tx.trim_space raw) in
      member name (bytes "cookie" ∷ bytes "cookie2" ∷ bytes "set-cookie" ∷ [])
      || bearing_parts [] (name_parts name)

module _ (http : Http) where
  unfoldable pub is_hop_by_hop_header : Bytes → Bool
  unfolding member
  is_hop_by_hop_header name = member (http.canonical_key name) hop_by_hop_headers

  unfoldable pub unsafe_framing_header : Bytes → Bool
  unfolding member
  unsafe_framing_header name = member (http.canonical_key name) framing_headers

  unfoldable pub unsafe_credential_header : Bytes → Bool
  unfolding is_hop_by_hop_header unsafe_framing_header
  unsafe_credential_header name =
      is_hop_by_hop_header name || unsafe_framing_header name || http.equal_fold name (bytes "Host")

  -- The methods of `http.Header`.
  unfoldable pub values : Bytes → Header → List Bytes
  unfolding values_at
  values name h = values_at (http.canonical_key name) h

  unfoldable pub add_value : Bytes → Bytes → Header → Header
  unfolding put values
  add_value name v h = put (http.canonical_key name) (values name h ++ v ∷ []) h

  unfoldable pub set_value : Bytes → Bytes → Header → Header
  unfolding put
  set_value name v h = put (http.canonical_key name) (v ∷ []) h

  unfoldable pub delete_name : Bytes → Header → Header
  unfolding delete
  delete_name name h = delete (http.canonical_key name) h

  unfoldable pub add_values : Bytes → List Bytes → Header → Header
  unfolding add_value
  add_values name [] h = h
  add_values name (v ∷ vs) h = add_values name vs (add_value name v h)
