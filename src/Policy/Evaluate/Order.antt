-- ===== src/Policy/Evaluate/Order.antt =====
-- The order of the rules has no meaning.
use forcefield.Base.{
  ◌≤◌, length, arith, subst, ◌↔◌, ◌≡◌, Any, All, List, ℕ, refl, [], ◌∷◌, inl, inr, some, sym,
}
use forcefield.Policy.Evaluate.{
  Policy, Effect, evaluate, Request, CanonicalRequest, Text, Url, CompiledRule, BodyMatchers, allow,
  deny,
}
use forcefield.Policy.Evaluate.Decides.{evaluate-Allows, LetThrough}

module _ {A : Type 0} where
  abbrev pub Member : A → List A → Type 0
  Member a xs = Any (λ x. x ≡ a) xs

  All-Member : (P : A → Type 0) (xs : List A) → All P xs ↔ ((a : A) → Member a xs → P a)
  All-Member P [] = (λ _ a m. absurd m, λ _. tt)
  All-Member P (x ∷ xs) =
      let (f, g) = All-Member P xs in
      (
        λ (p, ps) a m. elim m [ inl e ↦ subst P e p | inr n ↦ f ps a n ],
        λ h. (h x (inl refl), g (λ a n. h a (inr n))),
      )

  Any-Member : (P : A → Type 0) (xs : List A) → Any P xs ↔ ((a : A) × (Member a xs × P a))
  Any-Member P [] = (λ a. absurd a, λ (a, (m, p)). m)
  Any-Member P (x ∷ xs) =
      let (f, g) = Any-Member P xs in
      (
        λ a. elim a [
          | inl p ↦ (x, (inl refl, p))
          | inr q ↦ let (b, (m, p)) = f q in (b, (inr m, p))
        ],
        λ (a, (m, p)). elim m [ inl e ↦ inl (subst P (sym e) p) | inr n ↦ inr (g (a, (n, p))) ],
      )

module _ {E J D G Q C : Type 0} (body : BodyMatchers E J D G Q C) where
  LetThrough-Member :
      (xs ys : List (CompiledRule J G C)) (c : CanonicalRequest)
      → ((r : CompiledRule J G C) → Member r xs ↔ Member r ys)
      → LetThrough body xs c
      → LetThrough body ys c
  LetThrough-Member xs ys c same (a, b) = (
    (All-Member _ ys).1 (λ r m. (All-Member _ xs).0 a r ((same r).1 m)),
    (Any-Member _ ys).1 (let (r, (m, p)) = (Any-Member _ xs).0 b in (r, ((same r).0 m, p))),
  )

  half :
      (u : Url) (tx : Text) (limit : ℕ) (req : Request) (xs ys : List (CompiledRule J G C))
      → ((r : CompiledRule J G C) → Member r xs ↔ Member r ys)
      → (evaluate body u tx (some record { rules = xs; body_limit = limit }) req).effect ≡ allow
      → (evaluate body u tx (some record { rules = ys; body_limit = limit }) req).effect ≡ allow
  half u tx limit req xs ys same h =
      let p : Policy J G C = record { rules = xs; body_limit = limit } in
      let q : Policy J G C = record { rules = ys; body_limit = limit } in
      let (p', e, l, c, f, g) = (evaluate-Allows body u tx (some p) req).0 h in
      let same_policy : p ≡ p' = ground arith in
      let g' = subst (λ r. LetThrough body r.rules c) (sym same_policy) g in
      let l' = subst (λ r. length req.body ≤ r.body_limit) (sym same_policy) l in
      (evaluate-Allows body u tx (some q) req).1
        (q, refl, l', c, f, LetThrough-Member xs ys c same g')

  -- Two policies with the same rules, in whatever order and however often each, and the same limit
  -- of the body come to the same effect on every request.
  pub evaluate_reorder :
      (u : Url) (tx : Text) (limit : ℕ) (req : Request) (xs ys : List (CompiledRule J G C))
      → ((r : CompiledRule J G C) → Member r xs ↔ Member r ys)
      → (evaluate body u tx (some record { rules = xs; body_limit = limit }) req).effect
        ≡ (evaluate body u tx (some record { rules = ys; body_limit = limit }) req).effect
  evaluate_reorder u tx limit req xs ys same =
      two_valued _ _ (half u tx limit req xs ys same)
        (half u tx limit req ys xs (λ r. ((same r).1, (same r).0)))
    where
      two_valued : (a b : Effect) → (a ≡ allow → b ≡ allow) → (b ≡ allow → a ≡ allow) → a ≡ b
      two_valued allow allow f g = refl
      two_valued deny deny f g = refl
      two_valued allow deny f g = sym (f refl)
      two_valued deny allow f g = g refl
