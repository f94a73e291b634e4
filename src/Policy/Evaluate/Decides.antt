-- ===== src/Policy/Evaluate/Decides.antt =====
-- When a request is allowed.
use forcefield.Base.{
  ok-injective, subst, ltb, Bool-cases, Result, some, none, err, ok, ok, ◌≤◌, length, some, inr,
  Option, All, Any, arith, inl, ◌↔◌, ◌≢◌, [], ◌⊎◌, Bytes, ◌∷◌, ◌≡◌, ◌++◌, List, refl, sym,
}
use forcefield.Policy.Evaluate.{
  answer, RequestError, canonicalize_request, Request, Policy, rule_matches, Text, CanonicalRequest,
  CompiledRule, Url, tally_rules, evaluate, MatchState, Tally, decide, count_rule, Effect,
  BodyMatchers, match, no_match, failed, allow, deny,
}

-- The effect and the outcome of a rule that lets a request pass.
abbrev pub Grants : {E : Type 0} → Effect → MatchState E → Type 0
Grants effect state = (state ≡ match) × (effect ≡ allow)

-- Those of a rule that does not stand in the way.
abbrev pub Passes : {E : Type 0} → Effect → MatchState E → Type 0
Passes effect state = (state ≡ no_match) ⊎ Grants effect state

snoc-nonempty : {A : Type 0} (xs : List A) (x : A) → xs ++ (x ∷ []) ≢ []
snoc-nonempty [] x e = ground arith
snoc-nonempty (y ∷ xs) x e = ground arith

module _ {E J D G Q C : Type 0} (body : BodyMatchers E J D G Q C) where
  Clear : Tally body → Type 0
  Clear t = (t.errors ≡ []) × (t.denies ≡ [])

  -- One more rule.
  count_rule-Clear :
      (id : Bytes) (effect : Effect) (state : MatchState E) (t : Tally body)
      → Clear (count_rule body id effect state t) ↔ (Clear t × Passes effect state)
  unfolding count_rule Clear
  count_rule-Clear id deny match t = (
    λ (a, b). absurd (snoc-nonempty t.denies id b),
    λ (a, p). elim p [ inl e ↦ absurd (ground arith) | inr (e, f) ↦ absurd (ground arith) ],
  )
  count_rule-Clear id allow match t = (λ a. (a, inr (refl, refl)), λ (a, p). a)
  count_rule-Clear id deny (failed x) t = (
    λ (a, b). absurd (snoc-nonempty t.errors (id, x) a),
    λ (a, p). elim p [ inl e ↦ absurd (ground arith) | inr (e, f) ↦ absurd (ground arith) ],
  )
  count_rule-Clear id allow (failed x) t = (
    λ (a, b). absurd (snoc-nonempty t.errors (id, x) a),
    λ (a, p). elim p [ inl e ↦ absurd (ground arith) | inr (e, f) ↦ absurd (ground arith) ],
  )
  count_rule-Clear id deny no_match t = (λ a. (a, inl refl), λ (a, p). a)
  count_rule-Clear id allow no_match t = (λ a. (a, inl refl), λ (a, p). a)

  count_rule-Grants :
      (id : Bytes) (effect : Effect) (state : MatchState E) (t : Tally body)
      → ((count_rule body id effect state t).allows ≢ []) ↔ ((t.allows ≢ []) ⊎ Grants effect state)
  unfolding count_rule
  count_rule-Grants id deny match t =
      (inl, λ a. elim a [ inl n ↦ n | inr (e, f) ↦ absurd (ground arith) ])
  count_rule-Grants id allow match t = (λ _. inr (refl, refl), λ _. snoc-nonempty t.allows id)
  count_rule-Grants id deny (failed x) t =
      (inl, λ a. elim a [ inl n ↦ n | inr (e, f) ↦ absurd (ground arith) ])
  count_rule-Grants id allow (failed x) t =
      (inl, λ a. elim a [ inl n ↦ n | inr (e, f) ↦ absurd (ground arith) ])
  count_rule-Grants id deny no_match t =
      (inl, λ a. elim a [ inl n ↦ n | inr (e, f) ↦ absurd (ground arith) ])
  count_rule-Grants id allow no_match t =
      (inl, λ a. elim a [ inl n ↦ n | inr (e, f) ↦ absurd (ground arith) ])

  tally_rules-Clear :
      (rs : List (CompiledRule J G C)) (c : CanonicalRequest) (t : Tally body)
      → Clear (tally_rules body rs c t)
        ↔ (Clear t × All (λ r. Passes r.effect (rule_matches body r c)) rs)
  unfolding tally_rules
  tally_rules-Clear [] c t = (λ a. (a, tt), λ (a, _). a)
  tally_rules-Clear (r ∷ rs) c t =
      let (f, g) =
        tally_rules-Clear rs c (count_rule body r.id r.effect (rule_matches body r c) t) in
      let (h, k) = count_rule-Clear r.id r.effect (rule_matches body r c) t in
      (λ a. let (x, y) = f a in let (z, w) = h x in (z, (w, y)), λ (z, (w, y)). g (k (z, w), y))

  tally_rules-Grants :
      (rs : List (CompiledRule J G C)) (c : CanonicalRequest) (t : Tally body)
      → ((tally_rules body rs c t).allows ≢ [])
        ↔ ((t.allows ≢ []) ⊎ Any (λ r. Grants r.effect (rule_matches body r c)) rs)
  unfolding tally_rules
  tally_rules-Grants [] c t = (inl, λ a. elim a [ inl n ↦ n | inr b ↦ absurd b ])
  tally_rules-Grants (r ∷ rs) c t =
      let (f, g) =
        tally_rules-Grants rs c (count_rule body r.id r.effect (rule_matches body r c) t) in
      let (h, k) = count_rule-Grants r.id r.effect (rule_matches body r c) t in
      (
        λ a. elim (f a) [
          | inl x ↦ elim (h x) [ inl n ↦ inl n | inr b ↦ inr (inl b) ]
          | inr x ↦ inr (inr x)
        ],
        λ a. elim a [
          | inl n ↦ g (inl (k (inl n)))
          | inr (inl b) ↦ g (inl (k (inr b)))
          | inr (inr x) ↦ g (inr x)
        ],
      )

  -- The decision is the rank of what was counted: errors, then denials, then allowances.
  ranked :
      (c : CanonicalRequest) (allows denies : List Bytes) (errors : List (Bytes × E))
      → let t : Tally body = record { allows = allows; denies = denies; errors = errors } in
        ((decide body c t).effect ≡ allow) ↔ (Clear t × (allows ≢ []))
  unfolding decide Clear
  ranked c allows denies (e ∷ es) =
      (λ h. absurd (ground arith), λ ((a, _), _). absurd (ground arith))
  ranked c allows (d ∷ ds) [] = (λ h. absurd (ground arith), λ ((_, a), _). absurd (ground arith))
  ranked c [] [] [] = (λ h. absurd (ground arith), λ (_, n). absurd (n refl))
  ranked c (a ∷ more) [] [] = (λ h. ((refl, refl), λ e. ground arith), λ _. refl)

  decide-Clear :
      (c : CanonicalRequest) (t : Tally body)
      → ((decide body c t).effect ≡ allow) ↔ (Clear t × (t.allows ≢ []))
  decide-Clear c t = ranked c t.allows t.denies t.errors

  abbrev start : Tally body
  start = record { allows = []; denies = []; errors = [] }

  -- The rules of a policy on a request let it through.
  abbrev pub LetThrough : List (CompiledRule J G C) → CanonicalRequest → Type 0
  LetThrough rules c =
      All (λ r. Passes r.effect (rule_matches body r c)) rules
      × Any (λ r. Grants r.effect (rule_matches body r c)) rules

  rules-LetThrough :
      (rules : List (CompiledRule J G C)) (c : CanonicalRequest)
      → ((decide body c (tally_rules body rules c start)).effect ≡ allow) ↔ LetThrough rules c
  unfolding Clear
  rules-LetThrough rules c =
      let (f, g) = decide-Clear c (tally_rules body rules c start) in
      let (h, k) = tally_rules-Clear rules c start in
      let (m, n) = tally_rules-Grants rules c start in
      (
        λ e. let (a, b) = f e in ((h a).1, elim (m b) [ inl x ↦ absurd (x refl) | inr x ↦ x ]),
        λ (a, b). g (k ((refl, refl), a), n (inr b)),
      )

  answered :
      (p : Policy J G C) (o : Result RequestError CanonicalRequest)
      → ((answer body p o).effect ≡ allow)
        ↔ ((c : CanonicalRequest) × (o ≡ ok c) × LetThrough p.rules c)
  unfolding answer
  answered p (err e) = (λ h. absurd (ground arith), λ (c, h, _). absurd (ground arith))
  answered p (ok c) =
      let (f, g) = rules-LetThrough p.rules c in
      (
        λ e. (c, refl, f e),
        λ (d, e, a). g (subst (LetThrough p.rules) (sym (ok-injective c d e)) a),
      )

  -- A request is allowed exactly when there is a policy, the body is within its limit, the request
  -- has a canonical form, no rule fails on it, no rule that denies matches it, and some rule that
  -- allows does.
  pub evaluate-Allows :
      (u : Url) (tx : Text) (policy : Option (Policy J G C)) (req : Request)
      → ((evaluate body u tx policy req).effect ≡ allow) ↔ (
          (p : Policy J G C) × (policy ≡ some p)
          × (length req.body ≤ p.body_limit)
          × (c : CanonicalRequest) × (canonicalize_request u tx req ≡ ok c)
          × LetThrough p.rules c)
  unfolding evaluate
  evaluate-Allows u tx none req =
      (λ e. absurd (ground arith), λ (p, e, _, _, _, _). absurd (ground arith))
  evaluate-Allows u tx (some p) req = elim (Bool-cases (ltb p.body_limit (length req.body))) [
    | inl big ↦ rw big (
      λ e. absurd (ground arith),
      λ (q, e, l, _, _, _).
          let same : p ≡ q = ground arith in
          absurd (subst (λ r. length req.body ≤ r.body_limit → ⊥) same (λ z. ground arith) l),
    )
    | inr small ↦ rw small (
      λ e.
          let (c, f, g) = (answered p (canonicalize_request u tx req)).0 e in
          (p, refl, ground arith, c, f, g),
      λ (q, e, l, c, f, g).
          let same : p ≡ q = ground arith in
          (answered p (canonicalize_request u tx req)).1
            (c, f, subst (λ r. LetThrough r.rules c) (sym same) g),
    )
  ]
