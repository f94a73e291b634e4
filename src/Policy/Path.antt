-- ===== src/Policy/Path.antt =====
-- internal/policy/canonical.go: the one spelling of a path that the rules are matched against, the
-- methods, and the compilation of path patterns.
pub mod Segments
pub mod Spelling
pub mod Canonical
use forcefield.Base.{
  err, none, some, ◌++◌, drop, ◌||◌, ◌>>◌, map, bytes, ◌&&◌, ok, if◌then◌else◌, has_prefix, ◌==◌,
  ltb, reject, ◌>>=◌, [], leb, false, not, join, ◌∷◌, true, Result, bytes_eq, contains_any, List,
  Bool, mem_byte, split, Bytes, ℕ,
}
use forcefield.Library.{Url, Text}
use forcefield.Policy.Glob.{literal, many, one, PathSegment}

-- What `canonicalPathParts` reports, one for each message.
pub data PathError : Type 0 where
  not_absolute delimiter repeated_slash invalid_escape not_utf8 encoded_separator double_encoded :
      PathError
  dot_segment control_character : PathError

unfoldable pub is_hex : ℕ → Bool
is_hex c = leb 48 c && leb c 57 || leb 97 c && leb c 102 || leb 65 c && leb c 70

unfoldable pub contains_percent_triplet : Bytes → Bool
unfolding is_hex
contains_percent_triplet (a ∷ b ∷ c ∷ s) =
    a == 37 && is_hex b && is_hex c || contains_percent_triplet (b ∷ c ∷ s)
contains_percent_triplet _ = false

-- The runes that `containsControl` looks for.
unfoldable pub any_c0 : List ℕ → Bool
any_c0 [] = false
any_c0 (r ∷ rs) = ltb r 32 || r == 127 || any_c0 rs

unfoldable pub contains_control : Text → Bytes → Bool
unfolding any_c0
contains_control tx s = any_c0 (tx.runes s)

-- The bytes `!#$%&'*+-.^_`|~`.
abbrev pub method_marks : Bytes
method_marks = 33 ∷ 35 ∷ 36 ∷ 37 ∷ 38 ∷ 39 ∷ 42 ∷ 43 ∷ 45 ∷ 46 ∷ 94 ∷ 95 ∷ 96 ∷ 124 ∷ 126 ∷ []

unfoldable pub method_bytes : Bytes → Bool
unfolding mem_byte
method_bytes [] = true
method_bytes (c ∷ s) =
    not (
      leb 97 c && leb c 122
      || not (leb 48 c && leb c 57) && not (leb 65 c && leb c 90) && not (mem_byte c method_marks))
    && method_bytes s

unfoldable pub valid_method : Bytes → Bool
unfolding method_bytes bytes_eq
valid_method m = not (bytes_eq m []) && method_bytes m

-- The checks of an unescaped segment.
unfoldable pub check_segment : Text → Bytes → Result PathError Bytes
unfolding contains_any contains_percent_triplet bytes_eq contains_control
check_segment tx s =
    reject (not (tx.valid_utf8 s)) not_utf8
    >> reject (contains_any s (47 ∷ 92 ∷ 59 ∷ [])) encoded_separator
    >> reject (contains_percent_triplet s) double_encoded
    >> reject (bytes_eq s (bytes ".") || bytes_eq s (bytes "..")) dot_segment
    >> reject (contains_control tx s) control_character
    >> ok s

-- One round of the loop over the raw segments; `more` says that others follow.
unfoldable pub decode_segment : Url → Text → Bytes → Bool → Result PathError Bytes
unfolding check_segment bytes_eq
decode_segment u tx raw more =
    reject (bytes_eq raw [] && more) repeated_slash
    >> elim (u.path_unescape raw) [ none ↦ err invalid_escape | some s ↦ check_segment tx s ]

abbrev pub follows : List Bytes → Bool
follows [] = false
follows (r ∷ rest) = true

unfoldable pub decode_segments : Url → Text → List Bytes → Result PathError (List Bytes)
unfolding decode_segment
decode_segments u tx [] = ok []
decode_segments u tx (raw ∷ rest) = decode_segment u tx raw (follows rest) >>= λ s.
    decode_segments u tx rest >>= λ segments. ok (s ∷ segments)

-- After the tests on the whole path, which is not empty here.
unfoldable pub path_parts : Url → Text → Bytes → Result PathError (Bytes × List Bytes)
unfolding decode_segments split join has_prefix contains_any bytes_eq
path_parts u tx path =
    reject (not (has_prefix path (bytes "/"))) not_absolute
    >> reject (contains_any path (bytes "?#")) delimiter
    >> (if bytes_eq path (bytes "/")
        then ok (bytes "/", [])
        else decode_segments u tx (split 47 (drop 1 path)) >>= λ segments.
            ok (bytes "/" ++ join (bytes "/") (map u.path_escape segments), segments))

unfoldable pub canonical_path_parts : Url → Text → Bytes → Result PathError (Bytes × List Bytes)
unfolding path_parts bytes_eq
canonical_path_parts u tx escaped_path =
    path_parts u tx (if bytes_eq escaped_path [] then bytes "/" else escaped_path)

unfoldable pub canonical_path : Url → Text → Bytes → Result PathError Bytes
unfolding canonical_path_parts
canonical_path u tx escaped_path =
    canonical_path_parts u tx escaped_path >>= λ (path, segments). ok path

unfoldable pub compile_segment : Bytes → PathSegment
unfolding bytes_eq
compile_segment s =
    if bytes_eq s (bytes "*") then one else if bytes_eq s (bytes "**") then many else literal s

unfoldable pub compile_path_glob : Url → Text → Bytes → Result PathError (List PathSegment)
unfolding canonical_path_parts compile_segment
compile_path_glob u tx pattern =
    canonical_path_parts u tx pattern >>= λ (path, segments). ok (map compile_segment segments)
