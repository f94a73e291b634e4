-- ===== src/Policy/Query.antt =====
-- internal/policy/canonical.go and internal/policy/compile.go: the query of a request and the
-- matchers of its parameters.
pub mod Accepts
use forcefield.Base.{
  member, map, err, ◌>>=◌, ◌>>◌, not, bytes, ◌==◌, ◌||◌, ◌&&◌, reject, true, ok, false,
  if◌then◌else◌, [], ◌++◌, Map, ◌∷◌, join, Result, Option, Bool, sort_strings, List, bytes_eq,
  contains, Bytes, lookup, ℕ, none, some,
}
use forcefield.Policy.Path.{contains_percent_triplet, contains_control}
use forcefield.Library.{Text, Url}

pub data QueryError : Type 0 where
  raw_plus invalid_query invalid_key invalid_value : QueryError

unfoldable pub clean : Text → Bytes → Bool
unfolding contains_control contains_percent_triplet
clean tx s = tx.valid_utf8 s && not (contains_control tx s) && not (contains_percent_triplet s)

unfoldable pub all_clean : Text → List Bytes → Bool
unfolding clean
all_clean tx [] = true
all_clean tx (s ∷ ss) = clean tx s && all_clean tx ss

-- The loop over the parsed parameters, with `sort.Strings(entries)` in it.
unfoldable pub check_values : Text → Map (List Bytes) → Result QueryError (Map (List Bytes))
unfolding all_clean sort_strings
check_values tx [] = ok []
check_values tx ((key, entries) ∷ values) =
    reject (not (clean tx key)) invalid_key
    >> reject (not (all_clean tx entries)) invalid_value
    >> (check_values tx values >>= λ rest. ok ((key, sort_strings entries) ∷ rest))

-- `strings.ReplaceAll(s, "+", "%20")`
unfoldable pub plus_to_percent : Bytes → Bytes
plus_to_percent [] = []
plus_to_percent (c ∷ s) =
    let rest = plus_to_percent s in if c == 43 then 37 ∷ 50 ∷ 48 ∷ rest else c ∷ rest

unfoldable pub rfc3986_query_escape : Url → Bytes → Bytes
unfolding plus_to_percent
rfc3986_query_escape u s = plus_to_percent (u.query_escape s)

unfoldable pub value_parts : Url → Bytes → List Bytes → List Bytes
unfolding rfc3986_query_escape
value_parts u key [] = []
value_parts u key (v ∷ vs) =
    (rfc3986_query_escape u key ++ (bytes "=" ++ rfc3986_query_escape u v)) ∷ value_parts u key vs

-- The loop over the sorted keys.
unfoldable pub key_parts : Url → Map (List Bytes) → List Bytes → List Bytes
unfolding value_parts lookup
key_parts u values [] = []
key_parts u values (key ∷ keys) =
    value_parts u key (elim (lookup key values) [ some vs ↦ vs | none ↦ [] ])
    ++ key_parts u values keys

unfoldable pub canonical_query : Url → Text → Bytes → Result QueryError (Map (List Bytes) × Bytes)
unfolding contains check_values key_parts sort_strings join
canonical_query u tx raw = reject (contains raw (bytes "+")) raw_plus >> elim (u.parse_query raw) [
  | none ↦ err invalid_query
  | some parsed ↦ check_values tx parsed >>= λ values.
      ok (values, join (bytes "&") (key_parts u values (sort_strings (map (λ e. e.0) values))))
]

-- `unknown` is any text that is not one of the four operations.
pub data QueryOp : Type 0 where
  present absent equal within unknown : QueryOp

pub record QueryMatcherSpec : Type 0 where
  pub key : Bytes
  pub op : QueryOp
  pub value : Bytes
  pub values : List Bytes

-- The map `values` is the list of its keys.
pub record QueryMatcher : Type 0 where
  pub key : Bytes
  pub op : QueryOp
  pub value : Bytes
  pub values : List Bytes

pub data CompileError : Type 0 where
  bad_key forbids_values needs_one_value needs_values bad_value duplicate_value unsupported :
      CompileError

unfoldable pub valid_query_component : Text → Bytes → Bool
unfolding contains_control
valid_query_component tx s = tx.valid_utf8 s && not (contains_control tx s)

-- The loop over `spec.Values`, with the values so far.
unfoldable pub collect_values : Text → List Bytes → List Bytes → Result CompileError (List Bytes)
unfolding valid_query_component member
collect_values tx [] seen = ok seen
collect_values tx (v ∷ vs) seen =
    reject (not (valid_query_component tx v)) bad_value
    >> reject (member v seen) duplicate_value
    >> collect_values tx vs (v ∷ seen)

unfoldable pub no_values : List Bytes → Bool
no_values [] = true
no_values (v ∷ vs) = false

unfoldable pub matcher_values : Text → QueryMatcherSpec → QueryOp → Result CompileError (List Bytes)
unfolding no_values bytes_eq collect_values valid_query_component
matcher_values tx spec present =
    reject (not (bytes_eq spec.value []) || not (no_values spec.values)) forbids_values >> ok []
matcher_values tx spec absent =
    reject (not (bytes_eq spec.value []) || not (no_values spec.values)) forbids_values >> ok []
matcher_values tx spec equal =
    reject (not (no_values spec.values) || not (valid_query_component tx spec.value))
      needs_one_value
    >> ok []
matcher_values tx spec within =
    reject (not (bytes_eq spec.value []) || no_values spec.values) needs_values
    >> collect_values tx spec.values []
matcher_values tx spec unknown = err unsupported

unfoldable pub compile_query_matcher : Text → QueryMatcherSpec → Result CompileError QueryMatcher
unfolding valid_query_component matcher_values
compile_query_matcher tx spec =
    reject (not (valid_query_component tx spec.key)) bad_key
    >> (matcher_values tx spec spec.op >>= λ vs.
        ok record { key = spec.key; op = spec.op; value = spec.value; values = vs })

unfoldable pub all_member : List Bytes → List Bytes → Bool
unfolding member
all_member [] allowed = true
all_member (v ∷ vs) allowed = member v allowed && all_member vs allowed

-- A parameter that is not given is none.
unfoldable pub op_matches : QueryOp → QueryMatcher → Option (List Bytes) → Bool
unfolding all_member bytes_eq
op_matches present m none = false
op_matches present m (some vs) = true
op_matches absent m none = true
op_matches absent m (some vs) = false
op_matches equal m (some (v ∷ [])) = bytes_eq v m.value
op_matches equal m _ = false
op_matches within m (some (v ∷ vs)) = all_member (v ∷ vs) m.values
op_matches within m _ = false
op_matches unknown m _ = false

unfoldable pub query_matches : QueryMatcher → Map (List Bytes) → Bool
unfolding op_matches lookup
query_matches m query = op_matches m.op m (lookup m.key query)
