-- ===== src/Policy/Glob/Correct.antt =====
-- The table answers whether the pattern matches the whole path.
use forcefield.Base.{
  ℕ, zero, suc, ◌+◌, ◌≤◌, ◌<◌, ◌≡◌, refl, sym, subst, ◌↔◌, ◌⊎◌, inl, inr, true, false, List, [],
  ◌∷◌, arith, Bool-cases, Bytes, length, replicate, get_or, length-replicate, get_or-replicate,
  drop,
}
use forcefield.Policy.Glob.{
  PathSegment, literal, one, many, Row, cell, cells, next_row, last_row, matches, Matches, nil,
  this, any_one, stop, more,
}
use forcefield.Policy.Glob.Row.{Reached, Run, first, next, Hop, advance-Reached, length-advance}

drop-cons :
    (path : List Bytes) (j : ℕ) (s : Bytes) (rest : List Bytes)
    → drop j path ≡ s ∷ rest
    → (drop (suc j) path ≡ rest) × (j + suc (length rest) ≡ length path)
drop-cons [] zero s rest e = ground arith
drop-cons [] (suc j) s rest e = ground arith
drop-cons (x ∷ path) zero s rest e = (ground arith, ground arith)
drop-cons (x ∷ path) (suc j) s rest e = let (f, g) = drop-cons path j s rest e in (f, omega arith)

drop-nil : (path : List Bytes) (j : ℕ) → drop j path ≡ [] → length path ≤ j
drop-nil [] j e = omega arith
drop-nil (x ∷ path) zero e = ground arith
drop-nil (x ∷ path) (suc j) e = let h = drop-nil path j e in omega arith

drop-length : (path : List Bytes) → drop (length path) path ≡ []
drop-length [] = refl
drop-length (x ∷ path) = drop-length path

module _ (path : List Bytes) (seg : PathSegment) (row : Row) where
  -- Some position of the row, not before `j`, from which the segment leads to `k`.
  abbrev From : ℕ → ℕ → Type 0
  From j k = (i : ℕ) × (j ≤ i) × (i ≤ length path) × Reached row i × Hop seg (drop i path) i k

  cell-Reached :
      (rest : List Bytes) (j : ℕ) (nxt : Row) (k : ℕ)
      → j + length rest < length nxt
      → Reached (cell seg row rest j nxt) k ↔ (Reached nxt k ⊎ (Reached row j × Hop seg rest j k))
  unfolding cell
  cell-Reached rest j nxt k h = elim (Bool-cases (get_or row j false)) [
    | inl e ↦
        let (f, g) = advance-Reached seg rest j nxt k h in
        rw e (
          λ x. elim (f x) [ inl y ↦ inl y | inr y ↦ inr (refl, y) ],
          λ x. elim x [ inl y ↦ g (inl y) | inr y ↦ g (inr y.1) ],
        )
    | inr e ↦
        rw e (λ x. inl x, λ x. elim x [ inl y ↦ y | inr y ↦ absurd (let z = y.0 in ground arith) ])
  ]

  length-cell :
      (rest : List Bytes) (j : ℕ) (nxt : Row) → length (cell seg row rest j nxt) ≡ length nxt
  unfolding cell
  length-cell rest j nxt = ground (arith, length-advance seg rest j nxt)

  From-here :
      (rest : List Bytes) (j k : ℕ)
      → drop j path ≡ rest
      → j ≤ length path
      → Reached row j
      → Hop seg rest j k
      → From j k
  From-here rest j k e h r o = (j, omega arith, h, r, subst (λ x. Hop seg x j k) (sym e) o)

  cells-Reached :
      (rest : List Bytes) (j : ℕ) (nxt : Row) (k : ℕ)
      → drop j path ≡ rest
      → j ≤ length path
      → j + length rest < length nxt
      → Reached (cells seg row rest j nxt) k ↔ (Reached nxt k ⊎ From j k)
  unfolding cells
  cells-Reached [] j nxt k e le h =
      let (f, g) = cell-Reached [] j nxt k h in
      let stops = drop-nil path j e in
      (
        λ x. elim (f x) [ inl y ↦ inl y | inr (r, o) ↦ inr (From-here [] j k e le r o) ],
        λ x. elim x [
          | inl y ↦ g (inl y)
          | inr (i, a, b, r, o) ↦
              let same : i ≡ j = omega arith in
              g (
                inr (
                  subst (Reached row) same r,
                  subst (λ z. Hop seg z j k) e (subst (λ z. Hop seg (drop z path) z k) same o),
                ))
        ],
      )
  cells-Reached (s ∷ rest) j nxt k e le h =
      let (d, l) = drop-cons path j s rest e in
      let (f, g) = cell-Reached (s ∷ rest) j nxt k h in
      let (p, q) =
        cells-Reached rest (suc j) (cell seg row (s ∷ rest) j nxt) k d (omega arith)
          (omega (arith, length-cell (s ∷ rest) j nxt)) in
      (
        λ x. elim (p x) [
          | inl y ↦ elim (f y) [
            | inl z ↦ inl z
            | inr (r, o) ↦ inr (From-here (s ∷ rest) j k e le r o)
          ]
          | inr (i, a, b, r, o) ↦ inr (i, omega arith, b, r, o)
        ],
        λ x. elim x [
          | inl y ↦ q (inl (g (inl y)))
          | inr (i, a, b, r, o) ↦ elim (split i a) [
            | inl same ↦ q (
                inl (
                  g (
                    inr (
                      subst (Reached row) same r,
                      subst (λ z. Hop seg z j k) e (subst (λ z. Hop seg (drop z path) z k) same o),
                    ))))
            | inr later ↦ q (inr (i, later, b, r, o))
          ]
        ],
      )
    where
      split : (i : ℕ) → j ≤ i → (i ≡ j) ⊎ (suc j ≤ i)
      split i a = grind arith

  next_row-Reached : (k : ℕ) → Reached (next_row path seg row) k ↔ From 0 k
  unfolding next_row
  next_row-Reached k =
      let empty = replicate (suc (length path)) false in
      let (f, g) =
        cells-Reached path 0 empty k refl (omega arith)
          (omega (arith, length-replicate (suc (length path)) false)) in
      (
        λ x. elim (f x) [
          | inl y ↦ absurd (let z = get_or-replicate (suc (length path)) false k in ground arith)
          | inr y ↦ y
        ],
        λ x. g (inr x),
      )

module _ (path : List Bytes) where
  Run-Matches :
      {rest : List Bytes} {j k : ℕ} (segs : List PathSegment)
      → Run rest j k
      → drop j path ≡ rest
      → Matches segs (drop k path)
      → Matches (many ∷ segs) rest
  Run-Matches {rest} {j} {k} segs (first {s = s} {rest = r} n h) e m =
      let d = (drop-cons path j s r e).0 in
      more n (stop (subst (Matches segs) d (subst (λ z. Matches segs (drop z path)) h m)))
  Run-Matches {rest} {j} {k} segs (next {s = s} {rest = r} n run) e m =
      more n (Run-Matches segs run (drop-cons path j s r e).0 m)

  Hop-Matches :
      (seg : PathSegment) (segs : List PathSegment) (rest : List Bytes) (j k : ℕ)
      → drop j path ≡ rest
      → Hop seg rest j k
      → Matches segs (drop k path)
      → Matches (seg ∷ segs) rest
  Hop-Matches (literal l) segs [] j k e h m = absurd h
  Hop-Matches (literal l) segs (s ∷ rest) j k e (same, h) m =
      let d = (drop-cons path j s rest e).0 in
      this same (subst (Matches segs) d (subst (λ z. Matches segs (drop z path)) h m))
  Hop-Matches one segs [] j k e h m = absurd h
  Hop-Matches one segs (s ∷ rest) j k e (given, h) m =
      let d = (drop-cons path j s rest e).0 in
      any_one given (subst (Matches segs) d (subst (λ z. Matches segs (drop z path)) h m))
  Hop-Matches many segs rest j k e (inl h) m =
      stop (subst (Matches segs) e (subst (λ z. Matches segs (drop z path)) h m))
  Hop-Matches many segs rest j k e (inr run) m = Run-Matches segs run e m

  -- Where the first segment of a match leads.
  abbrev Steps : List PathSegment → List Bytes → ℕ → Type 0
  Steps [] rest j = Unit
  Steps (seg ∷ segs) rest j =
      (k : ℕ) × (k ≤ length path) × Hop seg rest j k × Matches segs (drop k path)

  Matches-Steps :
      {segs : List PathSegment} {rest : List Bytes} (j : ℕ)
      → Matches segs rest
      → drop j path ≡ rest
      → j ≤ length path
      → Steps segs rest j
  Matches-Steps j nil e le = tt
  Matches-Steps j (this {s = s} {segs = segs} {path = r} same m) e le =
      let (d, l) = drop-cons path j s r e in
      (suc j, omega arith, (same, refl), subst (Matches segs) (sym d) m)
  Matches-Steps j (any_one {s = s} {segs = segs} {path = r} given m) e le =
      let (d, l) = drop-cons path j s r e in
      (suc j, omega arith, (given, refl), subst (Matches segs) (sym d) m)
  Matches-Steps j (stop {segs = segs} m) e le = (j, le, inl refl, subst (Matches segs) (sym e) m)
  Matches-Steps j (more {s = s} {path = r} given m) e le =
      let (d, l) = drop-cons path j s r e in
      let (k, a, h, x) = Matches-Steps (suc j) m d (omega arith) in
      (k, a, elim h [ inl same ↦ inr (first given same) | inr run ↦ inr (next given run) ], x)

  -- Some position that is reached, from which the rest of the pattern matches the rest of the path.
  abbrev Live : Row → List PathSegment → Type 0
  Live row segs = (j : ℕ) × (j ≤ length path) × Reached row j × Matches segs (drop j path)

  Live-next :
      (row : Row) (seg : PathSegment) (segs : List PathSegment)
      → Live (next_row path seg row) segs ↔ Live row (seg ∷ segs)
  Live-next row seg segs = (
    λ (k, a, r, m).
        let (i, _, b, s, h) = (next_row-Reached path seg row k).0 r in
        (i, b, s, Hop-Matches seg segs (drop i path) i k refl h m),
    λ (j, a, r, m).
        let (k, b, h, x) = Matches-Steps j m refl a in
        (k, b, (next_row-Reached path seg row k).1 (j, omega arith, a, r, h), x),
  )

  Matches-nil :
      {segs : List PathSegment} {rest : List Bytes} → Matches segs rest → segs ≡ [] → rest ≡ []
  Matches-nil nil e = refl
  Matches-nil (this s m) e = ground arith
  Matches-nil (any_one s m) e = ground arith
  Matches-nil (stop m) e = ground arith
  Matches-nil (more s m) e = ground arith

  last_row-Live :
      (segs : List PathSegment) (row : Row)
      → Reached (last_row path segs row) (length path) ↔ Live row segs
  unfolding last_row
  last_row-Live [] row = (
    λ r. (length path, omega arith, r, subst (Matches []) (sym (drop-length path)) nil),
    λ (j, a, r, m).
        let ends = drop-nil path j (Matches-nil m refl) in
        subst (Reached row) (let x = a in omega arith) r,
  )
  last_row-Live (seg ∷ segs) row =
      let (f, g) = last_row-Live segs (next_row path seg row) in
      let (p, q) = Live-next row seg segs in (λ r. p (f r), λ l. g (q l))

-- The table answers `true` exactly when the pattern matches the path, segment by segment: a literal
-- stands for itself, `*` for one segment that is not empty, and `**` for any number of those.
pub matches_iff :
    (segs : List PathSegment) (path : List Bytes) → (matches segs path ≡ true) ↔ Matches segs path
unfolding matches
matches_iff segs path =
    let start : Row = true ∷ replicate (length path) false in
    let (f, g) = last_row-Live path segs start in
    (λ r. at_start (f r), λ m. g (0, omega arith, refl, m))
  where
    at_start : Live path (true ∷ replicate (length path) false) segs → Matches segs path
    at_start (zero, a, r, m) = m
    at_start (suc j, a, r, m) =
        absurd (let z = get_or-replicate (length path) false j in ground arith)
