-- ===== src/Gateway/Filter/Overlap.antt =====
-- What `suffixPrefixOverlap` counts, and where a text contains a pattern.
use forcefield.Base.{
  inl, Bool-cases, append_assoc, false, ◌≡◌, ◌≤◌, ◌∷◌, ◌-◌, append-nil, get_or, arith, sym, ◌==◌,
  if◌then◌else◌, [], subst, ◌++◌, length, ◌<◌, ℕ, List, Bytes, inl, inr, get_or, subst, sym,
  append-nil, append_assoc, ◌++◌, ◌-◌, ◌∷◌, [],
}
use forcefield.Gateway.Filter.Table.{prefix_failure-Fails}
use forcefield.Gateway.Filter.{advance_match, prefix_failure, suffix_prefix_overlap, overlap_from}
use forcefield.Gateway.Filter.Failure.{advance_match-Advanced, Advanced, Longest, Fails}
use forcefield.Gateway.Filter.Suffix.{Ends-Ends, Ends-shorter, Ends-le, Ends-zero}

module _ (p : Bytes) where
  -- The match after one byte more: a whole match falls back to its longest border.
  Advanced-Longest :
      (failure : List ℕ) (v : Bytes) (g : ℕ)
      → 0 < length p
      → Fails p failure (length p)
      → Advanced p v g
      → Longest p v (if g == length p then get_or failure (g - 1) 0 else g)
  Advanced-Longest failure v g z f a = elim (Bool-cases (g == length p)) [
    | inl full ↦
        let at : g ≡ length p = ground arith in
        let (less, border, best) = f g (omega arith) (omega arith) in
        rw full record {
          proper = omega arith;
          ends = Ends-shorter p (get_or failure (g - 1) 0) g v less (omega arith) border a.ends;
          most = λ k b e.
              best k (omega arith) (Ends-Ends p k g v (omega arith) (omega arith) e a.ends);
        }
    | inr part ↦ rw part record {
      proper = smaller g a.bounded part;
      ends = a.ends;
      most = λ k b e. a.most k (omega arith) e;
    }
  ]
    where
      smaller : (g : ℕ) → g ≤ length p → (g == length p) ≡ false → g < length p
      smaller g b n = ground arith

  overlap_from-Longest :
      (failure : List ℕ) (value v : Bytes) (m : ℕ)
      → 0 < length p
      → Fails p failure (length p)
      → Longest p v m
      → Longest p (v ++ value) (overlap_from p failure value m)
  unfolding overlap_from
  overlap_from-Longest failure [] v m z f l = subst (λ t. Longest p t m) (sym (append-nil v)) l
  overlap_from-Longest failure (c ∷ value) v m z f l =
      let grown = advance_match p failure c m in
      let a =
        advance_match-Advanced p failure v c m (λ i x y. f i x (let s = l.proper in omega arith))
          l in
      let next = if grown == length p then get_or failure (grown - 1) 0 else grown in
      subst (λ t. Longest p t (overlap_from p failure value next)) (append_assoc v (c ∷ []) value)
        (overlap_from-Longest failure value (v ++ c ∷ []) next z f
          (Advanced-Longest failure (v ++ c ∷ []) grown z f a))

  -- The longest proper prefix of the pattern at the end of the value.
  pub suffix_prefix_overlap-Longest :
      (value : Bytes)
      → 0 < length p
      → Longest p value (suffix_prefix_overlap value p (prefix_failure p))
  unfolding suffix_prefix_overlap
  suffix_prefix_overlap-Longest value z =
      overlap_from-Longest (prefix_failure p) value [] 0 z (prefix_failure-Fails p z) record {
        proper = z;
        ends = Ends-zero p [];
        most = λ k b e. omega (arith, Ends-le p k [] (omega arith) e);
      }
