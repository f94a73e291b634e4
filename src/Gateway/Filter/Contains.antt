-- ===== src/Gateway/Filter/Contains.antt =====
use forcefield.Base.{
  ap, refl, inr, inl, [], arith, Bool-cases, subst, ◌∷◌, true, ◌++◌, ◌≡◌, has_prefix, Bytes,
  contains,
}

-- Where a text contains a pattern.

-- The pattern stands in the text, behind `u`.
abbrev pub Occurs : Bytes → Bytes → Bytes → Type 0
Occurs p u s = (w : Bytes) × (u ++ p ++ w ≡ s)

pub has_prefix-append : (p w : Bytes) → has_prefix (p ++ w) p ≡ true
unfolding has_prefix
has_prefix-append [] [] = refl
has_prefix-append [] (c ∷ w) = refl
has_prefix-append (c ∷ p) w = ground (arith, has_prefix-append p w)

prefix_rest : (s p : Bytes) → has_prefix s p ≡ true → (w : Bytes) × (p ++ w ≡ s)
unfolding has_prefix
prefix_rest s [] h = (s, refl)
prefix_rest [] (c ∷ p) h = absurd (ground arith)
prefix_rest (x ∷ s) (c ∷ p) h = let (w, e) = prefix_rest s p (ground arith) in (w, ground arith)

contains-here : (s p : Bytes) → has_prefix s p ≡ true → contains s p ≡ true
unfolding contains
contains-here [] p h = h
contains-here (c ∷ s) p h = ground arith

pub Occurs-contains : (p u s : Bytes) → Occurs p u s → contains s p ≡ true
unfolding contains
Occurs-contains p [] s (w, e) =
    subst (λ t. contains t p ≡ true) e (contains-here (p ++ w) p (has_prefix-append p w))
Occurs-contains p (c ∷ u) [] (w, e) = absurd (ground arith)
Occurs-contains p (c ∷ u) (x ∷ s) (w, e) = ground (arith, Occurs-contains p u s (w, ground arith))

pub contains-Occurs : (p s : Bytes) → contains s p ≡ true → (u : Bytes) × Occurs p u s
unfolding contains
contains-Occurs p [] h = let (w, e) = prefix_rest [] p h in ([], (w, e))
contains-Occurs p (c ∷ s) h = elim (Bool-cases (has_prefix (c ∷ s) p)) [
  | inl y ↦ let (w, e) = prefix_rest (c ∷ s) p y in ([], (w, e))
  | inr n ↦ let (u, (w, e)) = contains-Occurs p s (ground arith) in (c ∷ u, (w, ap (λ t. c ∷ t) e))
]
