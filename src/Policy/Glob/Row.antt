-- ===== src/Policy/Glob/Row.antt =====
-- One row of the table: which positions a segment reaches.
use forcefield.Base.{
  ℕ, zero, suc, ◌+◌, ◌<◌, ◌≡◌, ◌≢◌, refl, ◌↔◌, ◌⊎◌, inl, inr, true, false, List, [], ◌∷◌, arith,
  Bool-cases, Bytes, bytes_eq, bytes_eq_iff, length, get_or, set, length-set,
}
use forcefield.Policy.Glob.{PathSegment, literal, one, many, Row, fill, advance}

-- The position is reached.
abbrev pub Reached : Row → ℕ → Type 0
Reached row k = get_or row k false ≡ true

Reached-set :
    (row : Row) (i k : ℕ) → i < length row → Reached (set row i true) k ↔ ((k ≡ i) ⊎ Reached row k)
Reached-set [] i k h = absurd (omega arith)
Reached-set (b ∷ row) zero zero h = (λ _. inl refl, λ _. refl)
Reached-set (b ∷ row) zero (suc k) h = (λ e. inr e, λ e. ground arith)
Reached-set (b ∷ row) (suc i) zero h = (λ e. inr e, λ e. ground arith)
Reached-set (b ∷ row) (suc i) (suc k) h =
    let (f, g) = Reached-set row i k (omega arith) in (λ e. ground arith, λ e. ground arith)

-- `k` lies behind one or more segments, none of them empty, from `j` on.
pub data Run : List Bytes → ℕ → ℕ → Type 0 where
  first : {s : Bytes} {rest : List Bytes} {j k : ℕ} → s ≢ [] → k ≡ suc j → Run (s ∷ rest) j k
  next :
      {s : Bytes} {rest : List Bytes} {j k : ℕ} → s ≢ [] → Run rest (suc j) k → Run (s ∷ rest) j k

-- From position `j`, before the segments `rest`, the segment of the pattern leads to `k`.
abbrev pub Hop : PathSegment → List Bytes → ℕ → ℕ → Type 0
Hop (literal l) [] j k = ⊥
Hop (literal l) (s ∷ rest) j k = (s ≡ l) × (k ≡ suc j)
Hop one [] j k = ⊥
Hop one (s ∷ rest) j k = (s ≢ []) × (k ≡ suc j)
Hop many rest j k = (k ≡ j) ⊎ Run rest j k

Run-cons :
    (s : Bytes) (rest : List Bytes) (j k : ℕ)
    → Run (s ∷ rest) j k
    → (s ≢ []) × ((k ≡ suc j) ⊎ Run rest (suc j) k)
Run-cons s rest j k (first n e) = (n, inl e)
Run-cons s rest j k (next n r) = (n, inr r)

fill-Reached :
    (rest : List Bytes) (j : ℕ) (row : Row) (k : ℕ)
    → j + length rest < length row
    → Reached (fill rest j row) k ↔ (Reached row k ⊎ Run rest j k)
unfolding fill
fill-Reached [] j row k h = (λ e. inl e, λ e. elim e [ inl x ↦ x | inr r ↦ elim r [ ] ])
fill-Reached (s ∷ rest) j row k h = elim (Bool-cases (bytes_eq s [])) [
  | inl e ↦ rw e (
    λ x. inl x,
    λ x. elim x [
      | inl y ↦ y
      | inr r ↦ absurd ((Run-cons s rest j k r).0 ((bytes_eq_iff s []).0 e))
    ],
  )
  | inr e ↦
      let given : s ≢ [] = λ x. ground (arith, bytes_eq_iff s []) in
      let (f, g) = Reached-set row (suc j) k (omega arith) in
      let (p, q) =
        fill-Reached rest (suc j) (set row (suc j) true) k
          (omega (arith, length-set row (suc j) true)) in
      rw e (
        λ x. elim (p x) [
          | inl y ↦ elim (f y) [ inl z ↦ inr (first given z) | inr z ↦ inl z ]
          | inr r ↦ inr (next given r)
        ],
        λ x. elim x [
          | inl y ↦ q (inl (g (inr y)))
          | inr r ↦ elim (Run-cons s rest j k r).1 [
            | inl z ↦ q (inl (g (inl z)))
            | inr z ↦ q (inr z)
          ]
        ],
      )
]

length-fill : (rest : List Bytes) (j : ℕ) (row : Row) → length (fill rest j row) ≡ length row
unfolding fill
length-fill [] j row = refl
length-fill (s ∷ rest) j row =
    ground (arith, length-fill rest (suc j) (set row (suc j) true), length-set row (suc j) true)

pub advance-Reached :
    (seg : PathSegment) (rest : List Bytes) (j : ℕ) (row : Row) (k : ℕ)
    → j + length rest < length row
    → Reached (advance seg rest j row) k ↔ (Reached row k ⊎ Hop seg rest j k)
unfolding advance
advance-Reached (literal l) [] j row k h =
    (λ e. inl e, λ e. elim e [ inl x ↦ x | inr r ↦ absurd r ])
advance-Reached (literal l) (s ∷ rest) j row k h =
    let (f, g) = Reached-set row (suc j) k (omega arith) in
    (ground (arith, bytes_eq_iff s l), ground (arith, bytes_eq_iff s l))
advance-Reached one [] j row k h = (λ e. inl e, λ e. elim e [ inl x ↦ x | inr r ↦ absurd r ])
advance-Reached one (s ∷ rest) j row k h =
    let (f, g) = Reached-set row (suc j) k (omega arith) in
    (ground (arith, bytes_eq_iff s []), ground (arith, bytes_eq_iff s []))
advance-Reached many rest j row k h =
    let (f, g) = Reached-set row j k (omega arith) in
    let (p, q) = fill-Reached rest j (set row j true) k (omega (arith, length-set row j true)) in
    (
      λ x. elim (p x) [
        | inl y ↦ elim (f y) [ inl z ↦ inr (inl z) | inr z ↦ inl z ]
        | inr r ↦ inr (inr r)
      ],
      λ x. elim x [
        | inl y ↦ q (inl (g (inr y)))
        | inr (inl z) ↦ q (inl (g (inl z)))
        | inr (inr r) ↦ q (inr r)
      ],
    )

pub length-advance :
    (seg : PathSegment) (rest : List Bytes) (j : ℕ) (row : Row)
    → length (advance seg rest j row) ≡ length row
unfolding advance
length-advance (literal l) [] j row = refl
length-advance (literal l) (s ∷ rest) j row = ground (arith, length-set row (suc j) true)
length-advance one [] j row = refl
length-advance one (s ∷ rest) j row = ground (arith, length-set row (suc j) true)
length-advance many rest j row =
    omega (arith, length-fill rest j (set row j true), length-set row j true)
