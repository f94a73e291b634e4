-- ===== src/Gateway/Filter/Table.antt =====
-- `prefixFailure` gives the failure function.
use forcefield.Base.{
  length-set, ◌==◌, get_or-replicate, length-replicate, if◌then◌else◌, Bool-cases, set, replicate,
  take, get_or, drop, length, Bytes, List, ℕ, zero, suc, refl, sym, ap, subst, [], ◌∷◌, ◌++◌, ◌∙◌,
  ◌≡◌, inl, inr, arith, ◌+◌, ◌≤◌, ◌<◌, ◌-◌,
}
use forcefield.Gateway.Filter.{advance_match, failure_from, prefix_failure}
use forcefield.Gateway.Filter.Failure.{advance_match-Advanced, Advanced, Longest, Fails}
use forcefield.Gateway.Filter.Suffix.{Ends, Ends-zero, Ends-le, length-drop, length-take}

get_or-set :
    {A : Type 0} (xs : List A) (i j : ℕ) (v d : A)
    → i < length xs
    → get_or (set xs i v) j d ≡ (if i == j then v else get_or xs j d)
get_or-set [] i j v d h = absurd (omega arith)
get_or-set (x ∷ xs) zero zero v d h = refl
get_or-set (x ∷ xs) zero (suc j) v d h = ground arith
get_or-set (x ∷ xs) (suc i) zero v d h = ground arith
get_or-set (x ∷ xs) (suc i) (suc j) v d h = get_or-set xs i j v d (omega arith) ∙ ground arith

drop-cons :
    (i c : ℕ) (p rest : Bytes)
    → drop i p ≡ c ∷ rest
    → (i < length p) × (drop (i + 1) p ≡ rest) × (take (i + 1) p ≡ take i p ++ c ∷ [])
drop-cons zero c [] rest e = absurd (ground arith)
drop-cons zero c (x ∷ p) rest e = (omega arith, ground arith, ground arith)
drop-cons (suc i) c [] rest e = absurd (ground arith)
drop-cons (suc i) c (x ∷ p) rest e =
    let (f, g, h) = drop-cons i c p rest e in (omega arith, ground arith, ground arith)

module _ (p : Bytes) where
  -- The text that the loop has matched the pattern against: the pattern itself, from its second byte.
  abbrev text : ℕ → Bytes
  text index = drop 1 (take index p)

  text-snoc :
      (i c : ℕ)
      → 0 < i
      → i < length p
      → take (i + 1) p ≡ take i p ++ c ∷ []
      → text (i + 1) ≡ text i ++ c ∷ []
  text-snoc i c h l e =
      ap (drop 1) e ∙ behind (take i p) (omega (arith, length-take i p (omega arith)))
    where
      behind : (t : Bytes) → 0 < length t → drop 1 (t ++ c ∷ []) ≡ drop 1 t ++ c ∷ []
      behind [] z = absurd (omega arith)
      behind (x ∷ t) z = refl

  Fails-set :
      (failure : List ℕ) (index g : ℕ)
      → length failure ≡ length p
      → index < length p
      → Fails p failure index
      → Advanced p (text (index + 1)) g
      → Fails p (set failure index g) (index + 1)
  Fails-set failure index g l h f a m z b = elim (Bool-cases (index == m - 1)) [
    | inl same ↦
        let at : m ≡ index + 1 = ground arith in
        let here : get_or (set failure index g) (m - 1) 0 ≡ g =
          get_or-set failure index (m - 1) g 0 (omega arith) ∙ rw same refl in
        let short : length (text m) ≡ index =
          length-drop 1 (take m p) ∙ omega (arith, length-take m p (omega arith)) in
        let small = Ends-le p g (text (index + 1)) a.bounded a.ends in
        let text_at = ap (λ (i : ℕ). text i) at in
        let lengths = ap length text_at in
        rw here (
          omega arith,
          subst (λ t. Ends p g t) (sym text_at) a.ends,
          λ k c e. a.most k (omega arith) (subst (λ t. Ends p k t) text_at e),
        )
    | inr other ↦
        let there : get_or (set failure index g) (m - 1) 0 ≡ get_or failure (m - 1) 0 =
          get_or-set failure index (m - 1) g 0 (omega arith) ∙ rw other refl in
        rw there (f m z (ground arith))
  ]

  failure_from-Fails :
      (rest : Bytes) (index matched : ℕ) (failure : List ℕ)
      → drop index p ≡ rest
      → 0 < index
      → index ≤ length p
      → length failure ≡ length p
      → Fails p failure index
      → Longest p (text index) matched
      → Fails p (failure_from p rest index matched failure) (length p)
  unfolding failure_from
  failure_from-Fails [] index matched failure e z b l f m =
      let n : length p ≤ index = omega (arith, ap length e, length-drop index p) in
      λ k a c. f k a (omega arith)
  failure_from-Fails (c ∷ rest) index matched failure e z b l f m =
      let (h, g, t) = drop-cons index c p rest e in
      let next = text-snoc index c z h t in
      let grown = advance_match p failure c matched in
      let short : matched < index =
        let s = Ends-le p matched (text index) (omega (arith, m.proper)) m.ends in
        omega (arith, length-drop 1 (take index p), length-take index p b) in
      let a : Advanced p (text (index + 1)) grown =
        subst (λ v. Advanced p v grown) (sym next)
          (advance_match-Advanced p failure (text index) c matched (λ i x y. f i x (omega arith))
            m) in
      let small : grown ≤ index =
        let s = Ends-le p grown (text (index + 1)) a.bounded a.ends in
        omega
          (arith, length-drop 1 (take (index + 1) p), length-take (index + 1) p (omega arith)) in
      failure_from-Fails rest (index + 1) grown (set failure index grown) g (omega arith)
        (omega arith) (length-set failure index grown ∙ l) (Fails-set failure index grown l h f a)
        record { proper = omega arith; ends = a.ends; most = λ k i q. a.most k (omega arith) q }

  pub prefix_failure-Fails : 0 < length p → Fails p (prefix_failure p) (length p)
  unfolding prefix_failure
  prefix_failure-Fails h =
      failure_from-Fails (drop 1 p) 1 0 (replicate (length p) 0) refl (omega arith) (omega arith)
        (length-replicate (length p) 0)
        (λ m z b.
          let at : m ≡ 1 = omega arith in
          let first = get_or-replicate {A = ℕ} (length p) 0 (m - 1) in
          rw first (omega arith, Ends-zero p (text m), λ k c e. omega arith))
        record {
          proper = h;
          ends = Ends-zero p (text 1);
          most = λ k b e. omega (
            arith,
            Ends-le p k (text 1) (omega arith) e,
            length-drop 1 (take 1 p),
            length-take 1 p (omega arith),
          );
        }
