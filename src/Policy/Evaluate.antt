-- ===== src/Policy/Evaluate.antt =====
-- internal/policy/evaluate.go and internal/policy/types.go: the decision on a request.
pub mod Decides
pub mod Order
use forcefield.Base.{
  member, ◌>>◌, length, not, reject, ◌||◌, ltb, ◌&&◌, if◌then◌else◌, ok, false, [], ◌++◌, err,
  ◌>>=◌, Map, ◌∷◌, true, Option, sort_strings, Bytes, Result, Bool, List, ℕ, none, some,
}
use forcefield.Policy.Query.{canonical_query, QueryError, QueryMatcher, query_matches}
use forcefield.Policy.Path.{canonical_path_parts, valid_method, PathError}
use forcefield.Library.{Text, Url}
use forcefield.Policy.Glob.{PathSegment, matches}

pub data Effect : Type 0 where
  deny allow : Effect

pub data Reason : Type 0 where
  allowed explicit_deny no_match_found invalid_request body_too_large evaluation_error : Reason

pub record Request : Type 0 where
  pub method : Bytes
  pub escaped_path : Bytes
  pub raw_query : Bytes
  pub content_type : Bytes
  pub body : Bytes

-- The parsed bodies, which the source keeps in the request, are computed by the matchers.
pub record CanonicalRequest : Type 0 where
  pub method : Bytes
  pub path : Bytes
  pub path_segments : List Bytes
  pub query : Map (List Bytes)
  pub canonical_query_text : Bytes
  pub content_type : Bytes
  pub body : Bytes

pub data RequestError : Type 0 where
  bad_method : RequestError
  bad_path : PathError → RequestError
  bad_query : QueryError → RequestError

-- The matchers that read the body: json.go, graphql.go and cel.go. `E` is their errors.
pub record BodyMatchers (E J D G Q C : Type 0) : Type 0 where
  pub parse_json : CanonicalRequest → Result E D
  pub json_matches : J → D → Bool
  pub parse_graphql : CanonicalRequest → Result E Q
  pub graphql_matches : G → Q → Bool
  pub cel_matches : C → CanonicalRequest → Result E Bool

pub record CompiledRule (J G C : Type 0) : Type 0 where
  pub id : Bytes
  pub effect : Effect
  pub methods : Option (List Bytes)
  pub paths : List (List PathSegment)
  pub query : List QueryMatcher
  pub json : List J
  pub graphql : Option G
  pub cel : Option C

pub data MatchState (E : Type 0) : Type 0 where
  no_match match : MatchState E
  failed : E → MatchState E

pub data DecisionError (E : Type 0) : Type 0 where
  too_large : DecisionError E
  refused : RequestError → DecisionError E
  rules_failed : List (Bytes × E) → DecisionError E
  nil_policy : DecisionError E

pub record Decision (E : Type 0) : Type 0 where
  pub effect : Effect
  pub reason : Reason
  pub matched_rule_ids : List Bytes
  pub error : Option (DecisionError E)
  pub canonical_path_text : Bytes
  pub canonical_query_text : Bytes

pub record Policy (J G C : Type 0) : Type 0 where
  pub rules : List (CompiledRule J G C)
  pub body_limit : ℕ

unfoldable pub canonicalize_request : Url → Text → Request → Result RequestError CanonicalRequest
unfolding valid_method canonical_path_parts canonical_query
canonicalize_request u tx req =
    reject (not (valid_method req.method)) bad_method
    >> elim (canonical_path_parts u tx req.escaped_path) [
      | err e ↦ err (bad_path e)
      | ok (path, segments) ↦ elim (canonical_query u tx req.raw_query) [
        | err e ↦ err (bad_query e)
        | ok (query, text) ↦ ok record {
          method = req.method;
          path = path;
          path_segments = segments;
          query = query;
          canonical_query_text = text;
          content_type = req.content_type;
          body = req.body;
        }
      ]
    ]

unfoldable pub some_path : List (List PathSegment) → List Bytes → Bool
unfolding matches
some_path [] segments = false
some_path (p ∷ ps) segments = matches p segments || some_path ps segments

unfoldable pub all_query : List QueryMatcher → Map (List Bytes) → Bool
unfolding query_matches
all_query [] query = true
all_query (m ∷ ms) query = query_matches m query && all_query ms query

-- `r.methods != nil`, then a lookup.
unfoldable pub method_allowed : Option (List Bytes) → Bytes → Bool
unfolding member
method_allowed none method = true
method_allowed (some methods) method = member method methods

-- `len(r.paths) != 0`, then the loop over the patterns.
unfoldable pub path_allowed : List (List PathSegment) → List Bytes → Bool
unfolding some_path
path_allowed [] segments = true
path_allowed (p ∷ ps) segments = some_path (p ∷ ps) segments

module _ {E J D G Q C : Type 0} (body : BodyMatchers E J D G Q C) where
  unfoldable pub all_json : List J → D → Bool
  all_json [] document = true
  all_json (m ∷ ms) document = body.json_matches m document && all_json ms document

  -- The state after a group of matchers, when it is not an end.
  abbrev pub and_then : MatchState E → MatchState E → MatchState E
  and_then no_match rest = no_match
  and_then (failed e) rest = failed e
  and_then match rest = rest

  abbrev pub of_test : Bool → MatchState E
  of_test true = match
  of_test false = no_match

  abbrev pub of_result : Result E Bool → MatchState E
  of_result (err e) = failed e
  of_result (ok b) = of_test b

  unfoldable pub json_state : List J → CanonicalRequest → MatchState E
  unfolding all_json
  json_state [] c = match
  json_state (m ∷ ms) c = of_result (body.parse_json c >>= λ d. ok (all_json (m ∷ ms) d))

  unfoldable pub graphql_state : Option G → CanonicalRequest → MatchState E
  graphql_state none c = match
  graphql_state (some g) c = of_result (body.parse_graphql c >>= λ q. ok (body.graphql_matches g q))

  unfoldable pub cel_state : Option C → CanonicalRequest → MatchState E
  cel_state none c = match
  cel_state (some m) c = of_result (body.cel_matches m c)

  unfoldable pub rule_matches : CompiledRule J G C → CanonicalRequest → MatchState E
  unfolding method_allowed path_allowed all_query json_state graphql_state cel_state
  rule_matches r c = and_then (of_test (method_allowed r.methods c.method)) (
      and_then (of_test (path_allowed r.paths c.path_segments)) (
        and_then (of_test (all_query r.query c.query)) (
          and_then (json_state r.json c)
            (and_then (graphql_state r.graphql c) (cel_state r.cel c)))))

  -- `matchedAllows`, `matchedDenies` and `evalErrors`.
  pub record Tally : Type 0 where
    pub allows : List Bytes
    pub denies : List Bytes
    pub errors : List (Bytes × E)

  unfoldable pub count_rule : Bytes → Effect → MatchState E → Tally → Tally
  count_rule id deny match t = record {
    allows = t.allows;
    denies = t.denies ++ (id ∷ []);
    errors = t.errors;
  }
  count_rule id allow match t = record {
    allows = t.allows ++ (id ∷ []);
    denies = t.denies;
    errors = t.errors;
  }
  count_rule id effect (failed e) t = record {
    allows = t.allows;
    denies = t.denies;
    errors = t.errors ++ ((id, e) ∷ []);
  }
  count_rule id effect no_match t = t

  unfoldable pub tally_rules : List (CompiledRule J G C) → CanonicalRequest → Tally → Tally
  unfolding count_rule rule_matches
  tally_rules [] c t = t
  tally_rules (r ∷ rs) c t = tally_rules rs c (count_rule r.id r.effect (rule_matches r c) t)

  abbrev pub denied : Reason → Option (DecisionError E) → Decision E
  denied reason error = record {
    effect = deny;
    reason = reason;
    matched_rule_ids = [];
    error = error;
    canonical_path_text = [];
    canonical_query_text = [];
  }

  abbrev pub decided :
      CanonicalRequest → Tally → Effect → Reason → Option (DecisionError E) → Decision E
  decided c t effect reason error = record {
    effect = effect;
    reason = reason;
    matched_rule_ids = sort_strings (t.allows ++ t.denies);
    error = error;
    canonical_path_text = c.path;
    canonical_query_text = c.canonical_query_text;
  }

  unfoldable pub decide : CanonicalRequest → Tally → Decision E
  unfolding sort_strings
  decide c t = elim t.errors [
    | e ∷ es ↦ decided c t deny evaluation_error (some (rules_failed (e ∷ es)))
    | [] ↦ elim t.denies [
      | d ∷ ds ↦ decided c t deny explicit_deny none
      | [] ↦ elim t.allows [
        | a ∷ more ↦ decided c t allow allowed none
        | [] ↦ decided c t deny no_match_found none
      ]
    ]
  ]

  -- `Evaluate` after `canonicalizeRequest`.
  unfoldable pub answer : Policy J G C → Result RequestError CanonicalRequest → Decision E
  unfolding tally_rules decide
  answer p (err e) = denied invalid_request (some (refused e))
  answer p (ok c) =
      decide c (tally_rules p.rules c record { allows = []; denies = []; errors = [] })

  unfoldable pub evaluate : Url → Text → Option (Policy J G C) → Request → Decision E
  unfolding canonicalize_request answer
  evaluate u tx none req = denied evaluation_error (some nil_policy)
  evaluate u tx (some p) req =
      if ltb p.body_limit (length req.body)
      then denied body_too_large (some too_large)
      else answer p (canonicalize_request u tx req)
