-- ===== src/Gateway/Limit/View.antt =====
-- What of the limit manager's states the budgets speak of: the counts of each key.
use mathlib.Core.Option
use forcefield.Base.{
  ap, sym, subst, bytes_eq_iff, ◌∙◌, lookup-put, if◌then◌else◌, List, [], ◌∷◌, ltb, put-IsMap, not,
  ◌||◌, inr, inl, bytes_eq, ◌==◌, Option-cases, ◌⊎◌, false, Bool-cases, ◌∷◌, put, IsMap, Bool, ◌≡◌,
  lookup, Map, List, Option, Bytes, ◌≤◌, ℕ, none, some, refl,
}
use forcefield.Gateway.Limit.{
  write_back, charge_all, LimitScope, adjust, refill, LimitState, max_uint64, Float,
}
use forcefield.Tokens.Types.{Limits}

pub record Usage : Type 0 where
  pub limits : Limits
  pub requests : ℕ
  pub bytes : ℕ

-- The counts are in the range of `uint64` and within the budgets that are set.
pub record InBudget (u : Usage) : Type 0 where
  pub requests : u.requests ≤ max_uint64
  pub request_budget : (u.limits.request_budget ≡ 0) ⊎ (u.requests ≤ u.limits.request_budget)
  pub bytes : u.bytes ≤ max_uint64
  pub byte_budget : (u.limits.byte_budget ≡ 0) ⊎ (u.bytes ≤ u.limits.byte_budget)

unfoldable pub listed : Bytes → List LimitScope → Bool
listed k [] = false
listed k (s ∷ ss) = bytes_eq s.key k || listed k ss

abbrev pub Unique : List LimitScope → Type 0
Unique [] = Unit
Unique (s ∷ ss) = (listed s.key ss ≡ false) × Unique ss

abbrev pub requests_of : Option Usage → ℕ
requests_of none = 0
requests_of (some u) = u.requests

abbrev pub bytes_of : Option Usage → ℕ
bytes_of none = 0
bytes_of (some u) = u.bytes

module _ (float : Float) where
  abbrev pub usage : LimitState float → Usage
  usage s = record { limits = s.limits; requests = s.requests; bytes = s.bytes }

  unfoldable pub viewed : Bytes → Map (LimitState float) → Option Usage
  unfolding lookup
  viewed k states = Option.map usage (lookup k states)

  pub record IsWithin (states : Map (LimitState float)) : Type 0 where
    pub map : IsMap states
    pub within : (k : Bytes) (u : Usage) → viewed k states ≡ some u → InBudget u

  pub viewed-put :
      (k j : Bytes) (s : LimitState float) (states : Map (LimitState float))
      → viewed j (put k s states) ≡ (if bytes_eq k j then some (usage s) else viewed j states)
  unfolding viewed
  viewed-put k j s states = elim (Bool-cases (bytes_eq k j)) [
    | inl e ↦ rw (lookup-put k j s states, e) refl
    | inr e ↦ rw (lookup-put k j s states, e) refl
  ]

  adjust-absent :
      (f : LimitState float → LimitState float) (k : Bytes) (states : Map (LimitState float))
      → lookup k states ≡ none
      → adjust float k f states ≡ states
  unfolding adjust write_back
  adjust-absent f k states e = ap (write_back float k f states) e

  adjust-present :
      (f : LimitState float → LimitState float) (k : Bytes) (s : LimitState float)
      (states : Map (LimitState float))
      → lookup k states ≡ some s
      → adjust float k f states ≡ put k (f s) states
  unfolding adjust write_back
  adjust-present f k s states e = ap (write_back float k f states) e

  pub viewed-adjust :
      (f : LimitState float → LimitState float) (g : Usage → Usage)
      → ((s : LimitState float) → usage (f s) ≡ g (usage s))
      → (k j : Bytes) (states : Map (LimitState float))
      → viewed j (adjust float k f states)
        ≡ (if bytes_eq k j then Option.map g (viewed j states) else viewed j states)
  unfolding viewed
  viewed-adjust f g h k j states = elim (Option-cases (lookup k states)) [
    | inl e ↦ rw (adjust-absent f k states e) (elim (Bool-cases (bytes_eq k j)) [
      | inl same ↦ rw (same, subst (λ t. lookup t states ≡ none) ((bytes_eq_iff k j).0 same) e) refl
      | inr other ↦ rw other refl
    ])
    | inr (s, e) ↦
        rw (adjust-present f k s states e, lookup-put k j (f s) states)
          (elim (Bool-cases (bytes_eq k j)) [
            | inl same ↦
                let found = subst (λ t. lookup t states ≡ some s) ((bytes_eq_iff k j).0 same) e in
                rw (same, found, h s) refl
            | inr other ↦ rw other refl
          ])
  ]

  pub adjust-IsMap :
      (f : LimitState float → LimitState float) (k : Bytes) (states : Map (LimitState float))
      → IsMap states
      → IsMap (adjust float k f states)
  adjust-IsMap f k states h = elim (Option-cases (lookup k states)) [
    | inl e ↦ subst IsMap (sym (adjust-absent f k states e)) h
    | inr (s, e) ↦ subst IsMap (sym (adjust-present f k s states e)) (put-IsMap k (f s) states h)
  ]

  pub usage-refill : (now : ℕ) (s : LimitState float) → usage (refill float now s) ≡ usage s
  unfolding refill
  usage-refill now s =
      elim (Bool-cases (s.limits.requests_per_second == 0 || not (ltb s.last now))) [
        | inl e ↦ rw e refl
        | inr e ↦ rw e refl
      ]

  -- One charge for each scope that is listed.
  pub viewed-charge_all :
      (f : LimitState float → LimitState float) (g : Usage → Usage)
      → ((s : LimitState float) → usage (f s) ≡ g (usage s))
      → (k : Bytes) (scopes : List LimitScope) (states : Map (LimitState float)) → Unique scopes
      → viewed k (charge_all float f scopes states)
        ≡ (if listed k scopes then Option.map g (viewed k states) else viewed k states)
  unfolding charge_all listed
  viewed-charge_all f g h k [] states u = refl
  viewed-charge_all f g h k (s ∷ ss) states (n, u) =
      viewed-charge_all f g h k ss (adjust float s.key f states) u
      ∙ rw (viewed-adjust f g h s.key k states) (elim (Bool-cases (bytes_eq s.key k)) [
        | inl same ↦
            let none_left = subst (λ t. listed t ss ≡ false) ((bytes_eq_iff s.key k).0 same) n in
            rw (same, none_left) refl
        | inr other ↦ rw other refl
      ])

  pub charge_all-IsMap :
      (f : LimitState float → LimitState float) (scopes : List LimitScope)
      (states : Map (LimitState float))
      → IsMap states
      → IsMap (charge_all float f scopes states)
  unfolding charge_all
  charge_all-IsMap f [] states h = h
  charge_all-IsMap f (s ∷ ss) states h =
      charge_all-IsMap f ss (adjust float s.key f states) (adjust-IsMap f s.key states h)
