-- ===== src/Library.antt =====
-- What the program takes from Go's standard library, as parameters of the model. A definition that
-- calls one of these functions has the record as an argument. `IsPathEscape` has the laws that one
-- theorem assumes.
use forcefield.Base.{true, ℕ, ◌≡◌, Bool, false, Option, some, List, [], Bytes, Map, mem_byte}

-- `unicode/utf8`, `unicode` and `strings`: the runes of a string are what `range` goes through.
pub record Text : Type 0 where
  pub valid_utf8 : Bytes → Bool
  pub trim_space : Bytes → Bytes
  pub runes : Bytes → List ℕ
  pub is_control : ℕ → Bool

-- `crypto/sha256`, `encoding/base64` (RawURLEncoding) and `encoding/hex`; `none` is an error.
pub record Codec : Type 0 where
  pub sha256 : Bytes → Bytes
  pub base64_encode : Bytes → Bytes
  pub base64_decode : Bytes → Option Bytes
  pub hex_encode : Bytes → Bytes
  pub hex_decode : Bytes → Option Bytes

-- `net/url`: the escaping of path segments and of queries; `none` is an error.
pub record Url : Type 0 where
  pub path_escape : Bytes → Bytes
  pub path_unescape : Bytes → Option Bytes
  pub query_escape : Bytes → Bytes
  pub parse_query : Bytes → Option (Map (List Bytes))

-- What the escapes of path segments promise: unescaping undoes escaping, only the empty text is
-- unescaped to the empty text, and no `/`, `?` or `#` is left in an escaped segment.
pub record IsPathEscape (u : Url) : Type 0 where
  pub round : (s : Bytes) → u.path_unescape (u.path_escape s) ≡ some s
  pub empty : (raw : Bytes) → u.path_unescape raw ≡ some [] → raw ≡ []
  pub slash : (s : Bytes) → mem_byte 47 (u.path_escape s) ≡ false
  pub question : (s : Bytes) → mem_byte 63 (u.path_escape s) ≡ false
  pub hash : (s : Bytes) → mem_byte 35 (u.path_escape s) ≡ false

-- `net/http`, `strings` on header names, and the standard base64: what the header adapter calls.
pub record Http : Type 0 where
  pub canonical_key : Bytes → Bytes
  pub equal_fold : Bytes → Bytes → Bool
  pub to_lower : Bytes → Bytes
  pub base64_standard : Bytes → Bytes

-- `http.CanonicalHeaderKey` gives a key that it leaves alone, and a text folds to itself.
pub record IsHttp (http : Http) : Type 0 where
  pub idempotent : (s : Bytes) → http.canonical_key (http.canonical_key s) ≡ http.canonical_key s
  pub fold_refl : (s : Bytes) → http.equal_fold s s ≡ true
