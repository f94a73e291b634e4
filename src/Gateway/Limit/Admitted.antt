-- ===== src/Gateway/Limit/Admitted.antt =====
-- What the tests of `allowRequest` say of the scopes' states.
use mathlib.Core.Option
use forcefield.Base.{
  Option, Bool, ◌<◌, ◌==◌, ◌≢◌, bytes_eq_iff, bytes_eq, Bool-cases, lookup, ap, ◌⊎◌, subst, sym,
  ◌≡◌, ◌∙◌, Bytes, IsMap, arith, Map, ℕ, none, some, refl, if◌then◌else◌, List, [], ◌∷◌, true,
  false, inl, inr,
}
use forcefield.Gateway.Limit.{
  refill, request_blocked, unless_blocked, adjust, max_uint64, admit_requests, LimitScope,
  LimitState, Float,
}
use forcefield.Gateway.Limit.View.{
  usage-refill, adjust-IsMap, viewed-adjust, listed, usage, viewed, Usage,
}

-- The counts of a state that `statesLocked` makes.
module _ (float : Float) where
  abbrev pub Spare : Usage → Type 0
  Spare u =
      (u.requests ≢ max_uint64)
      × ((u.limits.request_budget ≡ 0) ⊎ (u.requests < u.limits.request_budget))

  -- The counts are those of `states`, and if the loop ended well the scopes can take a request.
  abbrev pub Admitted :
      List LimitScope → Map (LimitState float) → Map (LimitState float) × Bool → Type 0
  Admitted scopes states r =
      IsMap r.0
      × ((k : Bytes) → viewed float k r.0 ≡ viewed float k states)
      × (r.1 ≡ true
          → (k : Bytes) (u : Usage) → listed k scopes ≡ true
          → viewed float k states ≡ some u
          → Spare u)

  request_blocked-Spare :
      (s : LimitState float) → request_blocked float s ≡ false → Spare (usage float s)
  unfolding request_blocked
  request_blocked-Spare s h = (
    λ e. ground arith,
    elim (Bool-cases (s.limits.request_budget == 0)) [
      | inl z ↦ inl (ground arith)
      | inr z ↦ inr (ground arith)
    ],
  )

  viewed-refill :
      (now : ℕ) (key k : Bytes) (states : Map (LimitState float))
      → viewed float k (adjust float key (refill float now) states) ≡ viewed float k states
  viewed-refill now key k states =
      viewed-adjust float (refill float now) (λ u. u) (usage-refill float now) key k states
      ∙ kept (bytes_eq key k) (viewed float k states)
    where
      kept : (b : Bool) (o : Option Usage) → (if b then Option.map (λ u. u) o else o) ≡ o
      kept true none = refl
      kept true (some u) = refl
      kept false o = refl

  some-injective : (x y : Usage) → some x ≡ some y → x ≡ y
  some-injective x y e = ground arith

  unless_blocked-Admitted :
      (scope : LimitScope) (scopes : List LimitScope) (states filled : Map (LimitState float))
      (rest : Map (LimitState float) × Bool) (o : Option (LimitState float))
      → IsMap filled
      → ((k : Bytes) → viewed float k filled ≡ viewed float k states)
      → Admitted scopes filled rest
      → lookup scope.key filled ≡ o
      → Admitted (scope ∷ scopes) states (unless_blocked float o filled rest)
  unfolding unless_blocked listed viewed
  unless_blocked-Admitted scope scopes states filled rest none m same a e =
      (m, same, λ z. absurd (ground arith))
  unless_blocked-Admitted scope scopes states filled rest (some s) m same (a, b, c) e =
      elim (Bool-cases (request_blocked float s)) [
        | inl bad ↦ rw bad (m, same, λ z. absurd (ground arith))
        | inr good ↦ rw good (
          a,
          λ k. b k ∙ same k,
          λ z k u l f. elim (Bool-cases (bytes_eq scope.key k)) [
            | inl here ↦
                let g = ap (Option.map (usage float)) e in
                let v =
                  subst (λ t. viewed float t states ≡ some (usage float s))
                    ((bytes_eq_iff scope.key k).0 here) (sym (same scope.key) ∙ g) in
                subst Spare (some-injective (usage float s) u (sym v ∙ f))
                  (request_blocked-Spare s good)
            | inr there ↦ c z k u (ground arith) (same k ∙ f)
          ],
        )
      ]

  pub admit_requests-Admitted :
      (now : ℕ) (scopes : List LimitScope) (states : Map (LimitState float))
      → IsMap states
      → Admitted scopes states (admit_requests float now scopes states)
  unfolding admit_requests listed
  admit_requests-Admitted now [] states h = (h, λ k. refl, λ z k u e. absurd (ground arith))
  admit_requests-Admitted now (scope ∷ scopes) states h =
      let filled = adjust float scope.key (refill float now) states in
      let m = adjust-IsMap float (refill float now) scope.key states h in
      unless_blocked-Admitted scope scopes states filled (admit_requests float now scopes filled)
        (lookup scope.key filled) m (λ k. viewed-refill now scope.key k states)
        (admit_requests-Admitted now scopes filled m) refl
