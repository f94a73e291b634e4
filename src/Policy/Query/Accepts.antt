-- ===== src/Policy/Query/Accepts.antt =====
-- What a compiled query matcher accepts.
use forcefield.Policy.Query.{
  Text, matcher_values, query_matches, compile_query_matcher, op_matches, QueryMatcher, present,
  absent, equal, within, unknown,
}
use forcefield.Base.{
  member, bind-ok, lookup, subst, ◌∙◌, Map, ok-injective, inr, bytes_eq_iff, inl, bytes_eq,
  chain-ok, Bool-cases, ap, Any, ◌↔◌, ◌||◌, arith, All, ◌∷◌, true, ok, [], Option, ◌≡◌, List, Bytes,
  refl, none, some, sym,
}
use forcefield.Policy.Query.{QueryMatcherSpec, collect_values, QueryOp, all_member}

-- What a specification asks of the values of its parameter.
abbrev pub Accepts : QueryOp → QueryMatcherSpec → Option (List Bytes) → Type 0
Accepts present spec o = (vs : List Bytes) × (o ≡ some vs)
Accepts absent spec o = o ≡ none
Accepts equal spec o = o ≡ some (spec.value ∷ [])
Accepts within spec o =
    (v : Bytes) × (vs : List Bytes) × (o ≡ some (v ∷ vs))
    × All (λ x. Any (λ y. x ≡ y) spec.values) (v ∷ vs)
Accepts unknown spec o = ⊥

pub member_iff : (s : Bytes) (ts : List Bytes) → (member s ts ≡ true) ↔ Any (λ y. s ≡ y) ts
unfolding member
member_iff s [] = (λ h. absurd (ground arith), λ a. elim a [ ])
member_iff s (t ∷ ts) =
    let (f, g) = member_iff s ts in
    (
      λ h. elim (Bool-cases (bytes_eq t s)) [
        | inl e ↦ inl (sym ((bytes_eq_iff t s).0 e))
        | inr e ↦ inr (f (ground arith))
      ],
      λ a. elim a [
        | inl e ↦ ground (arith, bytes_eq_iff t s)
        | inr r ↦ let k = g r in ground arith
      ],
    )

all_member_iff :
    (vs ts : List Bytes) → (all_member vs ts ≡ true) ↔ All (λ x. Any (λ y. x ≡ y) ts) vs
unfolding all_member
all_member_iff [] ts = (λ h. tt, λ a. refl)
all_member_iff (v ∷ vs) ts =
    let (f, g) = member_iff v ts in
    let (h, k) = all_member_iff vs ts in
    (
      λ e. (f (ground arith), h (ground arith)),
      λ (a, b). let x = g a in let y = k b in ground arith,
    )

collect_values-member :
    (tx : Text) (vs seen r : List Bytes) (x : Bytes)
    → collect_values tx vs seen ≡ ok r
    → member x r ≡ (member x vs || member x seen)
unfolding collect_values member
collect_values-member tx [] seen r x h = ap (member x) (sym (ok-injective seen r h))
collect_values-member tx (v ∷ vs) seen r x h =
    let (_, k) = chain-ok _ (collect_values tx vs (v ∷ seen)) r h in
    ground (arith, collect_values-member tx vs (v ∷ seen) r x k)

collect_values-all :
    (tx : Text) (values vs r : List Bytes)
    → collect_values tx vs [] ≡ ok r
    → all_member values r ≡ all_member values vs
unfolding all_member member
collect_values-all tx [] vs r h = refl
collect_values-all tx (v ∷ values) vs r h =
    ground (arith, collect_values-all tx values vs r h, collect_values-member tx vs [] r v h)

abbrev compiled : QueryMatcherSpec → List Bytes → QueryMatcher
compiled spec vs = record { key = spec.key; op = spec.op; value = spec.value; values = vs }

op_matches_iff :
    (tx : Text) (spec : QueryMatcherSpec) (op : QueryOp) (vs : List Bytes) (o : Option (List Bytes))
    → matcher_values tx spec op ≡ ok vs
    → (op_matches op (compiled spec vs) o ≡ true) ↔ Accepts op spec o
unfolding op_matches matcher_values
op_matches_iff tx spec present vs none h =
    (λ e. absurd (ground arith), λ (ws, e). absurd (ground arith))
op_matches_iff tx spec present vs (some ws) h = (λ _. (ws, refl), λ _. refl)
op_matches_iff tx spec absent vs none h = (λ _. refl, λ _. refl)
op_matches_iff tx spec absent vs (some ws) h =
    (λ e. absurd (ground arith), λ e. absurd (ground arith))
op_matches_iff tx spec equal vs none h = (λ e. absurd (ground arith), λ e. absurd (ground arith))
op_matches_iff tx spec equal vs (some []) h =
    (λ e. absurd (ground arith), λ e. absurd (ground arith))
op_matches_iff tx spec equal vs (some (w ∷ [])) h = (
  λ e. ap (λ t. some (t ∷ [])) ((bytes_eq_iff w spec.value).0 e),
  λ e. (bytes_eq_iff w spec.value).1 (ground arith),
)
op_matches_iff tx spec equal vs (some (w ∷ x ∷ ws)) h =
    (λ e. absurd (ground arith), λ e. absurd (ground arith))
op_matches_iff tx spec within vs none h =
    (λ e. absurd (ground arith), λ (v, ws, e, a). absurd (ground arith))
op_matches_iff tx spec within vs (some []) h =
    (λ e. absurd (ground arith), λ (v, ws, e, a). absurd (ground arith))
op_matches_iff tx spec within vs (some (w ∷ ws)) h =
    let (_, k) = chain-ok _ (collect_values tx spec.values []) vs h in
    let same = collect_values-all tx (w ∷ ws) spec.values vs k in
    let (f, g) = all_member_iff (w ∷ ws) spec.values in
    (
      λ e. (w, ws, refl, f (sym same ∙ e)),
      λ (v, xs, e, a).
          let e' : v ∷ xs ≡ w ∷ ws = ground arith in
          same ∙ g (subst (All (λ x. Any (λ y. x ≡ y) spec.values)) e' a),
    )
op_matches_iff tx spec unknown vs o h = absurd (ground arith)

-- A compiled query matcher matches exactly what its specification asks: `present` and `absent` look
-- for the key, `eq` asks for one occurrence with the value, and `in` for at least one occurrence and
-- that every one is among the values.
pub compile_query_matcher-Accepts :
    (tx : Text) (spec : QueryMatcherSpec) (m : QueryMatcher) (query : Map (List Bytes))
    → compile_query_matcher tx spec ≡ ok m
    → (query_matches m query ≡ true) ↔ Accepts spec.op spec (lookup spec.key query)
unfolding compile_query_matcher query_matches
compile_query_matcher-Accepts tx spec m query h =
    let (_, k) = chain-ok _ _ m h in
    let (vs, e, f) = bind-ok (matcher_values tx spec spec.op) (λ vs. ok (compiled spec vs)) m k in
    subst (λ m. (query_matches m query ≡ true) ↔ Accepts spec.op spec (lookup spec.key query))
      (ok-injective (compiled spec vs) m f)
      (op_matches_iff tx spec spec.op vs (lookup spec.key query) e)
