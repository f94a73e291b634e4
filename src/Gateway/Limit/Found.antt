-- ===== src/Gateway/Limit/Found.antt =====
-- The states of a request's scopes: what `statesLocked` finds or makes, and what the tests say of them.
use mathlib.Core.Option
use forcefield.Base.{
  member, ltb, not, ◌==◌, ◌||◌, bytes_eq_refl, bytes_eq_iff, bytes_eq, Bool-cases, put-IsMap, put,
  lookup, ap, Option-cases, ◌⊎◌, subst, sym, ◌≡◌, ◌∙◌, Bytes, IsMap, arith, Map, ℕ, none, some,
  refl, List, [], ◌∷◌, true, false, inl, inr,
}
use forcefield.Gateway.Limit.{
  states_locked, LimitScope, new_state, matching_state, LimitState, state_of, Float,
}
use forcefield.Tokens.Types.{Limits}
use forcefield.Gateway.Limit.View.{
  listed, Unique, viewed-put, InBudget, viewed-put, usage, bytes_of, requests_of, viewed, IsWithin,
  Usage,
}

-- The counts of a state that `statesLocked` makes.
abbrev pub fresh : Limits → Usage
fresh l = record { limits = l; requests = 0; bytes = 0 }

fresh-InBudget : (l : Limits) → InBudget (fresh l)
fresh-InBudget l = record {
  requests = omega arith;
  request_budget = inr (omega arith);
  bytes = omega arith;
  byte_budget = inr (omega arith);
}

module _ (float : Float) where
  -- The states of `base`, with new ones that nothing was charged to.
  pub record Grown (base out : Map (LimitState float)) : Type 0 where
    pub map : IsMap out
    pub same :
        (k : Bytes)
        → (viewed float k out ≡ viewed float k base)
          ⊎ ((viewed float k base ≡ none) × (l : Limits) × (viewed float k out ≡ some (fresh l)))

  Grown-refl : (base : Map (LimitState float)) → IsMap base → Grown base base
  Grown-refl base h = record { map = h; same = λ k. inl refl }

  Grown-trans : (a b c : Map (LimitState float)) → Grown a b → Grown b c → Grown a c
  Grown-trans a b c g h = record {
    map = h.map;
    same = λ k. elim (h.same k) [
      | inl e ↦ elim (g.same k) [ inl f ↦ inl (e ∙ f) | inr (f, l, p) ↦ inr (f, l, e ∙ p) ]
      | inr (e, l, p) ↦ elim (g.same k) [
        | inl f ↦ inr (sym f ∙ e, l, p)
        | inr (f, m, q) ↦ absurd (let r = sym q ∙ e in ground arith)
      ]
    ];
  }

  pub Grown-IsWithin :
      (a b : Map (LimitState float)) → Grown a b → IsWithin float a → IsWithin float b
  Grown-IsWithin a b g h = record {
    map = g.map;
    within = λ k u e. elim (g.same k) [
      | inl f ↦ h.within k u (sym f ∙ e)
      | inr (_, l, p) ↦
          let same : fresh l ≡ u = some-injective (fresh l) u (sym p ∙ e) in
          subst InBudget same (fresh-InBudget l)
    ];
  }
    where
      some-injective : (x y : Usage) → some x ≡ some y → x ≡ y
      some-injective x y e = ground arith

  pub Grown-requests :
      (a b : Map (LimitState float))
      → Grown a b
      → (k : Bytes)
      → (requests_of (viewed float k b) ≡ requests_of (viewed float k a))
        × (bytes_of (viewed float k b) ≡ bytes_of (viewed float k a))
  Grown-requests a b g k = elim (g.same k) [
    | inl e ↦ (ap requests_of e, ap bytes_of e)
    | inr (e, l, p) ↦
        (ap requests_of p ∙ sym (ap requests_of e), ap bytes_of p ∙ sym (ap bytes_of e))
  ]

  state_of-Grown :
      (now : ℕ) (scope : LimitScope) (states : Map (LimitState float))
      → IsMap states
      → Grown states (state_of float now scope states).0
        × ((u : Usage) × (viewed float scope.key (state_of float now scope states).0 ≡ some u))
  unfolding state_of matching_state viewed new_state
  state_of-Grown now scope states h = elim (Option-cases (lookup scope.key states)) [
    | inl e ↦
        let made = put scope.key (new_state float now scope) states in
        let same : (state_of float now scope states).0 ≡ made =
          ap (λ o. (matching_state float now scope states o).0) e in
        let grown : Grown states made = record {
          map = put-IsMap scope.key (new_state float now scope) states h;
          same = λ k. elim (Bool-cases (bytes_eq scope.key k)) [
            | inl f ↦ inr (
              ap (Option.map (usage float))
                  (subst (λ t. lookup t states ≡ none) ((bytes_eq_iff scope.key k).0 f) e),
              scope.limits,
              rw (viewed-put float scope.key k (new_state float now scope) states, f) refl,
            )
            | inr f ↦
                inl (rw (viewed-put float scope.key k (new_state float now scope) states, f) refl)
          ];
        } in
        subst (λ m. Grown states m × ((u : Usage) × (viewed float scope.key m ≡ some u))) (sym same)
          (
            grown,
            (
              fresh scope.limits,
              rw
                  (
                    viewed-put float scope.key scope.key (new_state float now scope) states,
                    bytes_eq_refl scope.key,
                  )
                  refl,
            ),
          )
    | inr (s, e) ↦
        let same : (state_of float now scope states).0 ≡ states =
          ap (λ o. (matching_state float now scope states o).0) e in
        subst (λ m. Grown states m × ((u : Usage) × (viewed float scope.key m ≡ some u))) (sym same)
          (Grown-refl states h, (usage float s, ap (Option.map (usage float)) e))
  ]

  -- A state that is there stays there.
  Grown-present :
      (a b : Map (LimitState float))
      → Grown a b
      → (k : Bytes) (u : Usage) → viewed float k a ≡ some u
      → viewed float k b ≡ some u
  Grown-present a b g k u e = elim (g.same k) [
    | inl f ↦ f ∙ e
    | inr (f, _, _) ↦ absurd (let r = sym f ∙ e in ground arith)
  ]

  -- What `statesLocked` has found when it succeeds.
  pub record Found (seen : List Bytes) (scopes : List LimitScope) (out : Map (LimitState float))
      : Type 0 where
    pub unique : Unique scopes
    pub unseen : (k : Bytes) → member k seen ≡ true → listed k scopes ≡ false
    pub present : (k : Bytes) → listed k scopes ≡ true → (u : Usage) × (viewed float k out ≡ some u)

  Found-cons :
      (seen : List Bytes) (scope : LimitScope) (scopes : List LimitScope)
      (made out : Map (LimitState float)) (u : Usage)
      → member scope.key seen ≡ false
      → viewed float scope.key made ≡ some u
      → Grown made out
      → Found (scope.key ∷ seen) scopes out
      → Found seen (scope ∷ scopes) out
  unfolding listed member
  Found-cons seen scope scopes made out u n e g f = record {
    unique = (f.unseen scope.key (ground (arith, bytes_eq_refl scope.key)), f.unique);
    unseen = λ k h. elim (Bool-cases (bytes_eq scope.key k)) [
      | inl same ↦ absurd (
          let z = subst (λ t. member t seen ≡ false) ((bytes_eq_iff scope.key k).0 same) n in
          ground arith)
      | inr other ↦ ground (arith, f.unseen k)
    ];
    present = λ k h. elim (Bool-cases (bytes_eq scope.key k)) [
      | inl same ↦ (
        u,
        subst (λ t. viewed float t out ≡ some u) ((bytes_eq_iff scope.key k).0 same)
            (Grown-present made out g scope.key u e),
      )
      | inr other ↦ f.present k (ground arith)
    ];
  }

  pub states_locked-Found :
      (now : ℕ) (scopes : List LimitScope) (seen : List Bytes) (states : Map (LimitState float))
      → IsMap states
      → let r = states_locked float now scopes seen states in
        Grown states r.0 × (r.1 ≡ true → Found seen scopes r.0)
  unfolding states_locked listed
  states_locked-Found now [] seen states h = (
    Grown-refl states h,
    λ _. record { unique = tt; unseen = λ k _. refl; present = λ k e. absurd (ground arith) },
  )
  states_locked-Found now (scope ∷ scopes) seen states h =
      let made = (state_of float now scope states).0 in
      let (g, (u, e)) = state_of-Grown now scope states h in
      let (grown, found) = states_locked-Found now scopes (scope.key ∷ seen) made g.map in
      let g1 = bytes_eq scope.key [] || scope.expires_at == 0 || not (ltb now scope.expires_at) in
      elim (Bool-cases g1) [
        | inl bad ↦ rw bad (Grown-refl states h, λ z. absurd (ground arith))
        | inr good ↦ elim (Bool-cases (member scope.key seen)) [
          | inl bad ↦ rw (good, bad) (Grown-refl states h, λ z. absurd (ground arith))
          | inr unseen ↦ elim (Bool-cases (state_of float now scope states).1) [
            | inl same ↦
                rw (good, unseen, same)
                  (
                    Grown-trans states made _ g grown,
                    λ z. Found-cons seen scope scopes made _ u unseen e grown (found z),
                  )
            | inr other ↦ rw (good, unseen, other) (g, λ z. absurd (ground arith))
          ]
        ]
      ]
