-- ===== src/Gateway/Filter/Suffix.antt =====
-- Suffixes of a text that are prefixes of a pattern.
use forcefield.Base.{
  ◌-◌, get_or, length-append, drop, length, take, List, Bytes, ℕ, zero, suc, refl, sym, ap, [], ◌∷◌,
  ◌++◌, ◌∙◌, ◌≡◌, append-nil, append_assoc, arith, ◌+◌, ◌≤◌, ◌<◌,
}

-- The first `k` bytes of the pattern stand at the end of the text.
abbrev pub Ends : Bytes → ℕ → Bytes → Type 0
Ends p k v = (u : Bytes) × (u ++ take k p ≡ v)

pub length-take : {A : Type 0} (k : ℕ) (p : List A) → k ≤ length p → length (take k p) ≡ k
length-take zero p h = refl
length-take (suc k) [] h = absurd (omega arith)
length-take (suc k) (x ∷ p) h = omega (arith, length-take k p (omega arith))

pub length-drop : {A : Type 0} (k : ℕ) (p : List A) → length (drop k p) ≡ length p - k
length-drop zero p = omega arith
length-drop (suc k) [] = omega arith
length-drop (suc k) (x ∷ p) = omega (arith, length-drop k p)

pub take-drop : {A : Type 0} (k : ℕ) (p : List A) → take k p ++ drop k p ≡ p
take-drop zero p = refl
take-drop (suc k) [] = refl
take-drop (suc k) (x ∷ p) = ap (λ t. x ∷ t) (take-drop k p)

pub take-suc : (k : ℕ) (p : Bytes) → k < length p → take (suc k) p ≡ take k p ++ get_or p k 0 ∷ []
take-suc zero [] h = absurd (omega arith)
take-suc zero (x ∷ p) h = refl
take-suc (suc k) [] h = absurd (omega arith)
take-suc (suc k) (x ∷ p) h = ap (λ t. x ∷ t) (take-suc k p (omega arith))

snoc-injective :
    {A : Type 0} (x y : A) (s t : List A) → s ++ x ∷ [] ≡ t ++ y ∷ [] → (s ≡ t) × (x ≡ y)
snoc-injective x y [] [] e = (refl, ground arith)
snoc-injective x y [] (b ∷ []) e = absurd (ground arith)
snoc-injective x y [] (b ∷ c ∷ t) e = absurd (ground arith)
snoc-injective x y (a ∷ []) [] e = absurd (ground arith)
snoc-injective x y (a ∷ c ∷ s) [] e = absurd (ground arith)
snoc-injective x y (a ∷ s) (b ∷ t) e =
    let (f, g) = snoc-injective x y s t (ground arith) in (ground arith, g)

-- Of two suffixes of one text the shorter is a suffix of the longer.
pub suffix-suffix :
    {A : Type 0} (w a u b : List A)
    → u ++ a ≡ w ++ b
    → length w ≤ length u
    → (x : List A) × (x ++ a ≡ b) × (length u ≡ length w + length x)
suffix-suffix [] a u b e h = (u, e, omega arith)
suffix-suffix (y ∷ w) a [] b e h = absurd (omega arith)
suffix-suffix (y ∷ w) a (x ∷ u) b e h =
    let (t, f, g) = suffix-suffix w a u b (ground arith) (omega arith) in (t, f, omega arith)

module _ (p : Bytes) where
  pub Ends-zero : (v : Bytes) → Ends p 0 v
  Ends-zero v = (v, append-nil v)

  pub Ends-le : (k : ℕ) (v : Bytes) → k ≤ length p → Ends p k v → k ≤ length v
  Ends-le k v h (u, e) = omega (arith, ap length e, length-append u (take k p), length-take k p h)

  pub Ends-snoc :
      (k c : ℕ) (v : Bytes)
      → k < length p
      → get_or p k 0 ≡ c
      → Ends p k v
      → Ends p (suc k) (v ++ c ∷ [])
  Ends-snoc k c v h e (u, f) = (
    u,
    ap (λ t. u ++ t) (take-suc k p h)
        ∙ sym (append_assoc u (take k p) (get_or p k 0 ∷ []))
        ∙ ap (λ t. t ++ get_or p k 0 ∷ []) f
        ∙ ap (λ x. v ++ x ∷ []) e,
  )

  pub snoc-Ends :
      (k c : ℕ) (v : Bytes)
      → k < length p
      → Ends p (suc k) (v ++ c ∷ [])
      → Ends p k v × (get_or p k 0 ≡ c)
  snoc-Ends k c v h (u, f) =
      let g =
        append_assoc u (take k p) (get_or p k 0 ∷ [])
        ∙ ap (λ t. u ++ t) (sym (take-suc k p h))
        ∙ f in
      let (x, y) = snoc-injective (get_or p k 0) c (u ++ take k p) v g in ((u, x), y)

  prefix_length : (k : ℕ) (u v : Bytes) → k ≤ length p → u ++ take k p ≡ v → length u + k ≡ length v
  prefix_length k u v h e =
      omega (arith, ap length e, length-append u (take k p), length-take k p h)

  -- A shorter match at the end of the text stands inside a longer one, behind its first byte.
  pub Ends-Ends :
      (k m : ℕ) (v : Bytes)
      → k < m
      → m ≤ length p
      → Ends p k v
      → Ends p m v
      → Ends p k (drop 1 (take m p))
  Ends-Ends k m v h l (u, e) (w, f) =
      let n = prefix_length k u v (omega arith) e in
      let o = prefix_length m w v l f in
      let (x, g, q) = suffix-suffix w (take k p) u (take m p) (e ∙ sym f) (omega arith) in
      behind x g (omega arith)
    where
      behind : (x : Bytes) → x ++ take k p ≡ take m p → 0 < length x → Ends p k (drop 1 (take m p))
      behind [] g z = absurd (omega arith)
      behind (y ∷ x) g z = (x, ap (drop 1) g)

  -- A border of a match is a match.
  pub Ends-shorter :
      (k m : ℕ) (v : Bytes)
      → k < m
      → m ≤ length p
      → Ends p k (drop 1 (take m p))
      → Ends p m v
      → Ends p k v
  Ends-shorter k m v h l (x, g) (w, f) = (
    (w ++ take 1 (take m p)) ++ x,
    append_assoc (w ++ take 1 (take m p)) x (take k p)
        ∙ ap (λ t. (w ++ take 1 (take m p)) ++ t) g
        ∙ append_assoc w (take 1 (take m p)) (drop 1 (take m p))
        ∙ ap (λ t. w ++ t) (take-drop 1 (take m p))
        ∙ f,
  )
