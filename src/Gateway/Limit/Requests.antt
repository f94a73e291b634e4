-- ===== src/Gateway/Limit/Requests.antt =====
-- `allowRequest` charges a request to every scope of its chain or to none.
use forcefield.Gateway.Limit.{
  charge_request, admit_requests, states_locked, allow_request, max_uint64, LimitManager,
  sweep_locked, LimitState, LimitScope, Float,
}
use forcefield.Base.{
  ◌∙◌, sym, arith, ◌<◌, Bool-cases, ◌%◌, ◌≡◌, ◌+◌, ℕ, refl, if◌then◌else◌, List, [], ◌∷◌, inl, inr,
}
use forcefield.Gateway.Limit.View.{usage, IsWithin, InBudget, Usage}
use forcefield.Gateway.Limit.Found.{Grown-IsWithin, states_locked-Found, Grown}
use forcefield.Gateway.Limit.Charges.{
  Charged-trans, charge_all-Charged, Grown-Charged, Grown-same, sweep_locked-IsWithin, Charged,
}
use forcefield.Gateway.Limit.Admitted.{admit_requests-Admitted, Spare}

abbrev one_more : Usage → Usage
one_more u = record u { requests = (u.requests + 1) % 18446744073709551616 }

module _ (float : Float) where
  one_more-InBudget :
      (u : Usage)
      → InBudget u
      → Spare float u
      → InBudget (one_more u) × ((one_more u).requests ≡ u.requests + 1)
  one_more-InBudget u h (n, b) =
      let room : u.requests < max_uint64 = let r = h.requests in omega (arith, n) in
      let e : (u.requests + 1) % 18446744073709551616 ≡ u.requests + 1 = omega arith in
      (
        record {
          requests = omega arith;
          request_budget = elim b [ inl z ↦ inl z | inr l ↦ inr (omega arith) ];
          bytes = h.bytes;
          byte_budget = h.byte_budget;
        },
        e,
      )

  usage-charge_request :
      (s : LimitState float) → usage float (charge_request float s) ≡ one_more (usage float s)
  unfolding charge_request
  usage-charge_request s = refl

  -- A call of `allowRequest` adds one to the requests of every scope of the chain if it succeeds and
  -- to none if it fails, and changes no other count of the states that are left after the sweep. The
  -- counts stay in the range of uint64 and within the budgets.
  pub allow_request-Charged :
      (now : ℕ) (scope : LimitScope) (scopes : List LimitScope) (m : LimitManager float)
      → IsWithin float m.states
      → let r = allow_request float now (scope ∷ scopes) m in
        IsWithin float r.0.states
        × Charged float
            (if r.1 then 1 else 0)
            0
            (scope ∷ scopes)
            (sweep_locked float now m).states
            r.0.states
  unfolding allow_request
  allow_request-Charged now scope scopes m h =
      let all = scope ∷ scopes in
      let swept = (sweep_locked float now m).states in
      let w = sweep_locked-IsWithin float now m h in
      let found = states_locked float now all [] swept in
      let (g, f) = states_locked-Found float now all [] swept w.map in
      let w2 = Grown-IsWithin float swept found.0 g w in
      let (im, same, spare) = admit_requests-Admitted float now all found.0 w2.map in
      let filled = (admit_requests float now all found.0).0 in
      let w3 : IsWithin float filled = record {
        map = im;
        within = λ k u e. w2.within k u (sym (same k) ∙ e);
      } in
      let g3 : Grown float swept filled = Grown-same float swept found.0 filled g im same in
      elim (Bool-cases found.1) [
        | inr stop ↦ rw stop (w2, Grown-Charged float all swept found.0 g)
        | inl run ↦ elim (Bool-cases (admit_requests float now all found.0).1) [
          | inr stop ↦ rw (run, stop) (w3, Grown-Charged float all swept filled g3)
          | inl go ↦
              rw (run, go)
                (let ff = f run in
                  let (w4, c) =
                    charge_all-Charged float (charge_request float) one_more usage-charge_request 1
                      0 all filled w3 ff.unique
                      (λ k l. let (u, p) = ff.present k l in (u, same k ∙ p))
                      (λ k u l e.
                        let (x, y) =
                          one_more-InBudget u (w3.within k u e)
                            (spare go k u l (sym (same k) ∙ e)) in
                        (x, (y, omega arith))) in
                  (w4, Charged-trans float 1 0 all swept filled _ g3 c))
        ]
      ]
