-- ===== src/Policy/Tests.antt =====
-- Tests of the policy engine and instances of its theorems.
use mathlib.Core.Option
use forcefield.Base.{
  ◌⊎◌, ◌≤◌, lookup, map, join, ◌++◌, length, Bool, ◌↔◌, bytes, List, Map, ◌-◌, ◌∙◌, inr, ap, ◌≢◌,
  inl, ◌+◌, ◌||◌, if◌then◌else◌, ltb, Bool-cases, arith, false, ◌≡◌, ◌==◌, true, Option, ◌∷◌, [],
  Bytes, mem_byte, ℕ, refl, none, some, ok, err,
}
use forcefield.Library.{IsPathEscape, Url, Text}
use forcefield.Policy.Query.{
  within, query_matches, QueryMatcherSpec, QueryMatcher, compile_query_matcher,
}
use forcefield.Policy.Glob.{Matches, many, literal, matches}
use forcefield.Policy.Evaluate.{
  canonicalize_request, CanonicalRequest, deny, explicit_deny, allow, CompiledRule, BodyMatchers,
  evaluate, Policy, Effect, Request,
}
use forcefield.Policy.Path.{dot_segment, canonical_path_parts}
use forcefield.Policy.Query.Accepts.{compile_query_matcher-Accepts, Accepts}
use forcefield.Policy.Glob.Correct.{matches_iff}
use forcefield.Policy.Path.Segments.{SafePath}
use forcefield.Policy.Evaluate.Decides.{evaluate-Allows, LetThrough}
use forcefield.Policy.Path.Canonical.{canonical_path_parts-Accepted}
use forcefield.Policy.Evaluate.Order.{evaluate_reorder, Member}

abbrev ascii : Text
ascii = record {
  valid_utf8 = λ s. true;
  trim_space = λ s. s;
  runes = λ s. s;
  is_control = λ r. ltb r 32;
}

-- Escapes by `%` and a shifted byte: enough to keep the promises.
escape : Bytes → Bytes
escape [] = []
escape (c ∷ s) =
    let rest = escape s in
    if c == 35 || c == 37 || c == 47 || c == 63 then 37 ∷ (c + 100) ∷ rest else c ∷ rest

unescape : Bytes → Option Bytes
unescape [] = some []
unescape (c ∷ []) = if c == 37 then none else some (c ∷ [])
unescape (c ∷ d ∷ s) =
    let one = unescape (d ∷ s) in
    let two = unescape s in
    if c == 37 then Option.map (λ r. (d - 100) ∷ r) two else Option.map (λ r. c ∷ r) one

unescape-other :
    (c : ℕ) (s : Bytes)
    → (c == 37) ≡ false
    → unescape (c ∷ s) ≡ Option.map (λ r. c ∷ r) (unescape s)
unfolding unescape
unescape-other c [] h = rw h refl
unescape-other c (d ∷ s) h = rw h refl

escape-round : (s : Bytes) → unescape (escape s) ≡ some s
unfolding escape unescape
escape-round [] = refl
escape-round (c ∷ s) = elim (Bool-cases (c == 35 || c == 37 || c == 47 || c == 63)) [
  | inl e ↦ rw (e, escape-round s) (ap (λ d. some (d ∷ s)) (omega arith))
  | inr e ↦
      rw e
        (unescape-other c (escape s) (ground arith) ∙ ap (Option.map (λ r. c ∷ r)) (escape-round s))
]

unescape-empty : (s : Bytes) → unescape s ≡ some [] → s ≡ []
unfolding unescape
unescape-empty [] h = refl
unescape-empty (c ∷ []) h = absurd (ground arith)
unescape-empty (c ∷ d ∷ s) h = absurd (elim (Bool-cases (c == 37)) [
  | inl e ↦ not_empty (λ r. (d - 100) ∷ r) (λ r z. ground arith) (unescape s) (ground arith)
  | inr e ↦ not_empty (λ r. c ∷ r) (λ r z. ground arith) (unescape (d ∷ s)) (ground arith)
])
  where
    not_empty :
        (f : Bytes → Bytes)
        → ((r : Bytes) → f r ≢ [])
        → (o : Option Bytes) → Option.map f o ≢ some []
    not_empty f n none e = ground arith
    not_empty f n (some r) e = n r (ground arith)

escape-free :
    (b : ℕ) (s : Bytes) → (b == 35 || b == 47 || b == 63) ≡ true → mem_byte b (escape s) ≡ false
unfolding escape mem_byte
escape-free b [] h = refl
escape-free b (c ∷ s) h = ground (arith, escape-free b s h)

abbrev percent : Url
percent = record {
  path_escape = escape;
  path_unescape = unescape;
  query_escape = escape;
  parse_query = λ q. some [];
}

percent-IsPathEscape : IsPathEscape percent
percent-IsPathEscape = record {
  round = escape-round;
  empty = unescape-empty;
  slash = λ s. escape-free 47 s refl;
  question = λ s. escape-free 63 s refl;
  hash = λ s. escape-free 35 s refl;
}

matches_iff_example :
    (matches (literal (bytes "v1") ∷ many ∷ []) (bytes "v1" ∷ bytes "repos" ∷ bytes "x" ∷ [])
      ≡ true)
    ↔ Matches (literal (bytes "v1") ∷ many ∷ []) (bytes "v1" ∷ bytes "repos" ∷ bytes "x" ∷ [])
matches_iff_example =
    matches_iff (literal (bytes "v1") ∷ many ∷ []) (bytes "v1" ∷ bytes "repos" ∷ bytes "x" ∷ [])

glob_test :
    matches (literal (bytes "v1") ∷ many ∷ []) (bytes "v1" ∷ bytes "repos" ∷ bytes "x" ∷ []) ≡ true
unfolding matches
glob_test = refl

-- The escaped question mark is kept escaped.
path_test :
    canonical_path_parts percent ascii (bytes "/a/b%" ++ (163 ∷ []))
    ≡ ok (bytes "/a/b%" ++ (163 ∷ []), bytes "a" ∷ bytes "b?" ∷ [])
unfolding canonical_path_parts unescape escape
path_test = refl

dots_test : canonical_path_parts percent ascii (bytes "/a/../b") ≡ err dot_segment
unfolding canonical_path_parts unescape
dots_test = refl

canonical_path_parts-Accepted_example :
    (bytes "/a/b/" ≡ 47 ∷ join (bytes "/") (map escape (bytes "a" ∷ bytes "b" ∷ [] ∷ [])))
    × (canonical_path_parts percent ascii (bytes "/a/b/")
        ≡ ok (bytes "/a/b/", bytes "a" ∷ bytes "b" ∷ [] ∷ []))
    × ((bytes "a" ∷ bytes "b" ∷ [] ∷ [] ≡ []) ⊎ SafePath ascii (bytes "a" ∷ bytes "b" ∷ [] ∷ []))
unfolding canonical_path_parts unescape escape
canonical_path_parts-Accepted_example =
    canonical_path_parts-Accepted percent ascii percent-IsPathEscape (bytes "/a/b/") (bytes "/a/b/")
      (bytes "a" ∷ bytes "b" ∷ [] ∷ []) refl

abbrev page_spec : QueryMatcherSpec
page_spec = record {
  key = bytes "page";
  op = within;
  value = [];
  values = bytes "1" ∷ bytes "2" ∷ [];
}

abbrev page_matcher : QueryMatcher
page_matcher = record {
  key = bytes "page";
  op = within;
  value = [];
  values = bytes "2" ∷ bytes "1" ∷ [];
}

abbrev page_query : Map (List Bytes)
page_query = (bytes "page", bytes "1" ∷ bytes "1" ∷ []) ∷ []

compile_query_matcher-Accepts_example :
    (query_matches page_matcher page_query ≡ true)
    ↔ Accepts within page_spec (lookup (bytes "page") page_query)
unfolding compile_query_matcher
compile_query_matcher-Accepts_example =
    compile_query_matcher-Accepts ascii page_spec page_matcher page_query refl

-- A second occurrence that is not among the values is not let through.
smuggled_test : query_matches page_matcher ((bytes "page", bytes "1" ∷ bytes "9" ∷ []) ∷ []) ≡ false
unfolding query_matches
smuggled_test = refl

-- Matchers of the body that fail, match and compare lengths.
abbrev bodies : BodyMatchers ℕ ℕ ℕ Bool Bool Bool
bodies = record {
  parse_json = λ c. ok (length c.body);
  json_matches = λ n m. n == m;
  parse_graphql = λ c. err 7;
  graphql_matches = λ g q. q;
  cel_matches = λ b c. ok b;
}

abbrev rule : Bytes → Effect → Bytes → CompiledRule ℕ Bool Bool
rule id effect pattern = record {
  id = id;
  effect = effect;
  methods = some (bytes "GET" ∷ []);
  paths = (literal pattern ∷ many ∷ []) ∷ [];
  query = [];
  json = [];
  graphql = none;
  cel = none;
}

abbrev two_rules : Policy ℕ Bool Bool
two_rules = record {
  rules = rule (bytes "a") allow (bytes "v1") ∷ rule (bytes "d") deny (bytes "v2") ∷ [];
  body_limit = 9;
}

abbrev get : Bytes → Request
get path = record {
  method = bytes "GET";
  escaped_path = path;
  raw_query = [];
  content_type = [];
  body = [];
}

evaluate-Allows_example :
    ((evaluate bodies percent ascii (some two_rules) (get (bytes "/v1/x"))).effect ≡ allow) ↔ (
      (p : Policy ℕ Bool Bool) × (some two_rules ≡ some p)
      × (0 ≤ p.body_limit)
      × (c : CanonicalRequest) × (canonicalize_request percent ascii (get (bytes "/v1/x")) ≡ ok c)
      × LetThrough bodies p.rules c)
evaluate-Allows_example =
    evaluate-Allows bodies percent ascii (some two_rules) (get (bytes "/v1/x"))

allowed_test : (evaluate bodies percent ascii (some two_rules) (get (bytes "/v1/x"))).effect ≡ allow
unfolding evaluate unescape escape
allowed_test = refl

denied_test :
    (evaluate bodies percent ascii (some two_rules) (get (bytes "/v2/x"))).reason ≡ explicit_deny
unfolding evaluate unescape escape
denied_test = refl

swap : {A : Type 0} (a b r : A) → Member r (a ∷ b ∷ []) → Member r (b ∷ a ∷ [])
swap a b r (inl e) = inr (inl e)
swap a b r (inr (inl e)) = inl e
swap a b r (inr (inr m)) = absurd m

abbrev allows_v1 : CompiledRule ℕ Bool Bool
allows_v1 = rule (bytes "a") allow (bytes "v1")

abbrev denies_v2 : CompiledRule ℕ Bool Bool
denies_v2 = rule (bytes "d") deny (bytes "v2")

either_order :
    (r : CompiledRule ℕ Bool Bool)
    → Member r (allows_v1 ∷ denies_v2 ∷ []) ↔ Member r (denies_v2 ∷ allows_v1 ∷ [])
either_order r = (swap allows_v1 denies_v2 r, swap denies_v2 allows_v1 r)

evaluate_reorder_example :
    (evaluate bodies percent ascii
      (some record { rules = allows_v1 ∷ denies_v2 ∷ []; body_limit = 9 })
      (get (bytes "/v2/x"))).effect
    ≡ (evaluate bodies percent ascii
        (some record { rules = denies_v2 ∷ allows_v1 ∷ []; body_limit = 9 })
        (get (bytes "/v2/x"))).effect
evaluate_reorder_example =
    evaluate_reorder bodies percent ascii 9 (get (bytes "/v2/x")) (allows_v1 ∷ denies_v2 ∷ [])
      (denies_v2 ∷ allows_v1 ∷ []) either_order
