-- ===== src/Gateway/Limit/Charges.antt =====
-- What a call charges to the scopes of its chain.
use mathlib.Core.Option
use forcefield.Gateway.Limit.{charge_all, LimitManager, sweep_locked, LimitState, LimitScope, Float}
use forcefield.Base.{
  IsMap, subst, lookup-retain, lookup, retain-IsMap, retain-IsMap, ◌&&◌, ◌==◌, not, ◌∙◌, sym, ap,
  ltb, keep_if, Option, arith, Bool-cases, ◌≡◌, Bytes, ◌+◌, Map, ℕ, none, some, refl, if◌then◌else◌,
  List, true, false, inl, inr,
}
use forcefield.Gateway.Limit.View.{
  charge_all-IsMap, viewed-charge_all, Unique, usage, bytes_of, listed, IsWithin, requests_of,
  viewed, InBudget, Usage,
}
use forcefield.Gateway.Limit.Found.{Grown-requests, Grown}

module _ (float : Float) where
  -- The counts of `after` are those of `before` and, for a key that is listed, so much more.
  abbrev pub Charged :
      ℕ → ℕ → List LimitScope → Map (LimitState float) → Map (LimitState float) → Type 0
  Charged more_requests bytes_sent scopes before after =
      (k : Bytes)
      → (requests_of (viewed float k after)
          ≡ requests_of (viewed float k before) + (if listed k scopes then more_requests else 0))
        × (bytes_of (viewed float k after)
            ≡ bytes_of (viewed float k before) + (if listed k scopes then bytes_sent else 0))

  pub sweep_locked-IsWithin :
      (now : ℕ) (m : LimitManager float)
      → IsWithin float m.states
      → IsWithin float (sweep_locked float now m).states
  unfolding sweep_locked viewed
  sweep_locked-IsWithin now m h =
      elim (Bool-cases (not (m.next_sweep == 0) && ltb now m.next_sweep)) [
        | inl e ↦ rw e h
        | inr e ↦ rw e record {
          map = retain-IsMap (λ key s. ltb now s.expires_at) m.states h.map;
          within = λ k u f.
              left k (lookup k m.states) u
                (ap (Option.map (usage float))
                    (sym (lookup-retain (λ key s. ltb now s.expires_at) k m.states h.map))
                  ∙ f)
                (h.within k u);
        }
      ]
    where
      left :
          (k : Bytes) (o : Option (LimitState float)) (u : Usage)
          → Option.map (usage float) (keep_if (λ s. ltb now s.expires_at) o) ≡ some u
          → (Option.map (usage float) o ≡ some u → InBudget u)
          → InBudget u
      left k none u e f = f e
      left k (some s) u e f = elim (Bool-cases (ltb now s.expires_at)) [
        | inl l ↦ f (ap (λ b. Option.map (usage float) (if b then some s else none)) (sym l) ∙ e)
        | inr l ↦ absurd (
            let z = ap (λ b. Option.map (usage float) (if b then some s else none)) (sym l) ∙ e in
            ground arith)
      ]

  -- Nothing is charged when the states only grew.
  pub Grown-Charged :
      (scopes : List LimitScope) (a b : Map (LimitState float))
      → Grown float a b
      → Charged 0 0 scopes a b
  Grown-Charged scopes a b g k =
      let (e, f) = Grown-requests float a b g k in
      elim (Bool-cases (listed k scopes)) [
        | inl l ↦ rw l (omega (arith, e), omega (arith, f))
        | inr l ↦ rw l (omega (arith, e), omega (arith, f))
      ]

  -- One charge to each of the scopes, whose states are there and can take it.
  pub charge_all-Charged :
      (f : LimitState float → LimitState float) (g : Usage → Usage)
      → ((s : LimitState float) → usage float (f s) ≡ g (usage float s))
      → (r b : ℕ) (scopes : List LimitScope) (states : Map (LimitState float))
      → IsWithin float states
      → Unique scopes
      → ((k : Bytes) → listed k scopes ≡ true → (u : Usage) × (viewed float k states ≡ some u))
      → ((k : Bytes) (u : Usage)
          → listed k scopes ≡ true
          → viewed float k states ≡ some u
          → InBudget (g u) × (((g u).requests ≡ u.requests + r) × ((g u).bytes ≡ u.bytes + b)))
      → IsWithin float (charge_all float f scopes states)
        × Charged r b scopes states (charge_all float f scopes states)
  charge_all-Charged f g h r b scopes states w unique present good = (
    record {
      map = charge_all-IsMap float f scopes states w.map;
      within = λ k u e. elim (Bool-cases (listed k scopes)) [
        | inl l ↦
            let (v, p) = present k l in
            let q : some (g v) ≡ some u = sym (charged k v l p) ∙ e in
            subst InBudget (some-injective (g v) u q) ((good k v l p).0)
        | inr l ↦ w.within k u (sym (untouched k l) ∙ e)
      ];
    },
    λ k. elim (Bool-cases (listed k scopes)) [
      | inl l ↦
          let (v, p) = present k l in
          let (_, (x, y)) = good k v l p in rw (l, charged k v l p, p) (x, y)
      | inr l ↦ rw (l, untouched k l) (omega arith, omega arith)
    ],
  )
    where
      some-injective : (x y : Usage) → some x ≡ some y → x ≡ y
      some-injective x y e = ground arith

      charged :
          (k : Bytes) (v : Usage)
          → listed k scopes ≡ true
          → viewed float k states ≡ some v
          → viewed float k (charge_all float f scopes states) ≡ some (g v)
      charged k v l p = viewed-charge_all float f g h k scopes states unique ∙ rw (l, p) refl

      untouched :
          (k : Bytes)
          → listed k scopes ≡ false
          → viewed float k (charge_all float f scopes states) ≡ viewed float k states
      untouched k l = viewed-charge_all float f g h k scopes states unique ∙ rw l refl

  pub Charged-trans :
      (r b : ℕ) (scopes : List LimitScope) (x y z : Map (LimitState float))
      → Grown float x y
      → Charged r b scopes y z
      → Charged r b scopes x z
  Charged-trans r b scopes x y z g c k =
      let (e, f) = Grown-requests float x y g k in
      let (p, q) = c k in
      (
        p ∙ ap (λ n. n + (if listed k scopes then r else 0)) e,
        q ∙ ap (λ n. n + (if listed k scopes then b else 0)) f,
      )

  pub Grown-same :
      (a b c : Map (LimitState float))
      → Grown float a b
      → IsMap c
      → ((k : Bytes) → viewed float k c ≡ viewed float k b)
      → Grown float a c
  Grown-same a b c g m same = record {
    map = m;
    same =
        λ k. elim (g.same k) [ inl e ↦ inl (same k ∙ e) | inr (e, l, p) ↦ inr (e, l, same k ∙ p) ];
  }
