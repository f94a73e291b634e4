-- ===== src/Gateway/Limit/Sent.antt =====
-- `allowBytes` charges the bytes of a request to every scope of its chain or to none.
use mathlib.Core.Option
use forcefield.Gateway.Limit.{
  takes_bytes, allow_bytes, admit_bytes, bytes_blocked, charge_bytes, states_locked, max_uint64,
  LimitManager, sweep_locked, LimitState, LimitScope, Float,
}
use forcefield.Base.{
  Bool, bytes_eq_iff, bytes_eq, ◌-◌, subst, lookup, ◌==◌, sym, ltb, Option, ◌⊎◌, arith, Bool-cases,
  ◌≤◌, ◌%◌, ◌≡◌, Bytes, ◌+◌, Map, ℕ, none, some, refl, if◌then◌else◌, List, [], ◌∷◌, true, false,
  inl, inr,
}
use forcefield.Gateway.Limit.View.{usage, listed, IsWithin, viewed, InBudget, Usage}
use forcefield.Gateway.Limit.Found.{Grown-IsWithin, states_locked-Found}
use forcefield.Gateway.Limit.Charges.{
  Charged-trans, charge_all-Charged, Grown-Charged, sweep_locked-IsWithin, Charged,
}

abbrev more_bytes : ℕ → Usage → Usage
more_bytes count u = record u { bytes = (u.bytes + count) % 18446744073709551616 }

abbrev Roomy : ℕ → Usage → Type 0
Roomy count u =
    (u.bytes + count ≤ max_uint64)
    × ((u.limits.byte_budget ≡ 0) ⊎ (u.bytes + count ≤ u.limits.byte_budget))

module _ (float : Float) where
  more_bytes-InBudget :
      (count : ℕ) (u : Usage)
      → InBudget u
      → Roomy count u
      → InBudget (more_bytes count u) × ((more_bytes count u).bytes ≡ u.bytes + count)
  more_bytes-InBudget count u h (r, b) =
      let e : (u.bytes + count) % 18446744073709551616 ≡ u.bytes + count = omega arith in
      (
        record {
          requests = h.requests;
          request_budget = h.request_budget;
          bytes = omega arith;
          byte_budget = elim b [ inl z ↦ inl z | inr l ↦ inr (omega arith) ];
        },
        e,
      )

  usage-charge_bytes :
      (count : ℕ) (s : LimitState float)
      → usage float (charge_bytes float count s) ≡ more_bytes count (usage float s)
  unfolding charge_bytes
  usage-charge_bytes count s = refl

  bytes_blocked-Roomy :
      (count : ℕ) (s : LimitState float)
      → InBudget (usage float s)
      → bytes_blocked float count s ≡ false
      → Roomy count (usage float s)
  unfolding bytes_blocked
  bytes_blocked-Roomy count s w h =
      let top : s.bytes ≤ max_uint64 = w.bytes in
      let fits : ltb (max_uint64 - s.bytes) count ≡ false = ground arith in
      (
        ground arith,
        elim (Bool-cases (s.limits.byte_budget == 0)) [
          | inl z ↦ inl (ground arith)
          | inr z ↦
              let below : ltb s.limits.byte_budget s.bytes ≡ false = ground arith in
              let left : ltb (s.limits.byte_budget - s.bytes) count ≡ false = ground arith in
              inr (ground arith)
        ],
      )

  takes_bytes-Roomy :
      (count : ℕ) (o : Option (LimitState float)) (rest : Bool)
      → ((u : Usage) → Option.map (usage float) o ≡ some u → InBudget u)
      → takes_bytes float count o rest ≡ true
      → (rest ≡ true) × ((u : Usage) → Option.map (usage float) o ≡ some u → Roomy count u)
  unfolding takes_bytes
  takes_bytes-Roomy count none rest w h = absurd (ground arith)
  takes_bytes-Roomy count (some s) rest w h = (
    ground arith,
    λ u e.
        let same : usage float s ≡ u = ground arith in
        subst (Roomy count) same
          (bytes_blocked-Roomy count s (w (usage float s) refl) (ground arith)),
  )

  admit_bytes-Roomy :
      (count : ℕ) (scopes : List LimitScope) (states : Map (LimitState float))
      → IsWithin float states
      → admit_bytes float count scopes states ≡ true
      → (k : Bytes) (u : Usage) → listed k scopes ≡ true
      → viewed float k states ≡ some u
      → Roomy count u
  unfolding admit_bytes listed viewed
  admit_bytes-Roomy count [] states w h k u l e = absurd (ground arith)
  admit_bytes-Roomy count (scope ∷ scopes) states w h k u l e =
      let (more, here) =
        takes_bytes-Roomy count (lookup scope.key states) (admit_bytes float count scopes states)
          (w.within scope.key) h in
      elim (Bool-cases (bytes_eq scope.key k)) [
        | inl same ↦ here u (
            subst (λ t. viewed float t states ≡ some u) (sym ((bytes_eq_iff scope.key k).0 same)) e)
        | inr other ↦ admit_bytes-Roomy count scopes states w more k u (ground arith) e
      ]

  -- A call of `allowBytes` adds the count to the bytes of every scope of the chain if it succeeds and
  -- to none if it fails, and changes no other count of the states that are left after the sweep. The
  -- counts stay in the range of uint64 and within the budgets.
  pub allow_bytes-Charged :
      (now : ℕ) (scope : LimitScope) (scopes : List LimitScope) (count : ℕ) (m : LimitManager float)
      → IsWithin float m.states
      → let r = allow_bytes float now (scope ∷ scopes) count m in
        IsWithin float r.0.states
        × Charged float 0
            (if r.1 then count else 0)
            (scope ∷ scopes)
            (sweep_locked float now m).states
            r.0.states
  unfolding allow_bytes
  allow_bytes-Charged now scope scopes count m h =
      let all = scope ∷ scopes in
      let swept = (sweep_locked float now m).states in
      let w = sweep_locked-IsWithin float now m h in
      let found = states_locked float now all [] swept in
      let (g, f) = states_locked-Found float now all [] swept w.map in
      let w2 = Grown-IsWithin float swept found.0 g w in
      elim (Bool-cases found.1) [
        | inr stop ↦ rw stop (w2, Grown-Charged float all swept found.0 g)
        | inl run ↦ elim (Bool-cases (admit_bytes float count all found.0)) [
          | inr stop ↦ rw (run, stop) (w2, Grown-Charged float all swept found.0 g)
          | inl go ↦
              rw (run, go)
                (let ff = f run in
                  let (w4, c) =
                    charge_all-Charged float (charge_bytes float count) (more_bytes count)
                      (usage-charge_bytes count) 0 count all found.0 w2 ff.unique ff.present
                      (λ k u l e.
                        let (x, y) =
                          more_bytes-InBudget count u (w2.within k u e)
                            (admit_bytes-Roomy count all found.0 w2 go k u l e) in
                        (x, (omega arith, y))) in
                  (w4, Charged-trans float 0 count all swept found.0 _ g c))
        ]
      ]
