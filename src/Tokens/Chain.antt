-- ===== src/Tokens/Chain.antt =====
-- internal/tokens/store.go: the walks from a record to its root.
use forcefield.Base.{
  ℕ, zero, suc, ◌<◌, ◌≡◌, sym, subst, ◌∙◌, ◌↔◌, inl, inr, Bool, true, false, not, ◌&&◌, ◌||◌,
  Option, none, some, arith, ltb, ◌==◌, if◌then◌else◌, Bool-cases, is_some, Bytes, bytes_eq,
  bytes_eq_iff, lookup,
}
use forcefield.Tokens.Types.{TokenRecord, Records}
use forcefield.Tokens.Lineage.{IsLinked, ChildOf}

-- `rec.revokedAt != nil || !now.Before(rec.expiresAt)`
unfoldable pub inactive : ℕ → TokenRecord → Bool
inactive now r = is_some r.revoked_at || not (ltb now r.expires_at)

-- `recordOrAncestorInactive`; `none` when the fuel is out.
unfoldable pub record_or_ancestor_inactive : ℕ → Records → ℕ → TokenRecord → Option Bool
unfolding inactive
record_or_ancestor_inactive zero m now r = none
record_or_ancestor_inactive (suc f) m now r =
    let up : Option Bool = elim (lookup r.parent m) [
      | none ↦ some true
      | some p ↦ record_or_ancestor_inactive f m now p
    ] in
    if inactive now r then some true else if r.depth == 0 then some false else up

-- The loop of `validateLocked` over the ancestors, with `valid` so far; `none` when the fuel is
-- out. The result is `valid` and `current` after the loop.
unfoldable pub ancestors :
    ℕ → Records → ℕ → Bytes → TokenRecord → Bool → Option (Bool × TokenRecord)
unfolding inactive
ancestors zero m now root current valid = none
ancestors (suc f) m now root current valid =
    let up : Option (Bool × TokenRecord) = elim (lookup current.parent m) [
      | none ↦ some (false, current)
      | some p ↦
          ancestors f m now root p
            (valid && not (is_some p.revoked_at) && ltb now p.expires_at && bytes_eq p.root root)
    ] in
    if current.depth == 0 then some (valid, current) else up

-- The record or one of its ancestors is revoked or has expired.
pub data Stale (m : Records) (now : ℕ) : TokenRecord → Type 0 where
  here : {r : TokenRecord} → inactive now r ≡ true → Stale m now r
  above :
      {r p : TokenRecord} → 0 < r.depth → lookup r.parent m ≡ some p → Stale m now p → Stale m now r

module _ (m : Records) (now : ℕ) (linked : IsLinked m) where
  -- In a linked store the parent of a delegated record is found.
  pub parent_of :
      (h : Bytes) (r : TokenRecord)
      → lookup h m ≡ some r
      → (r.depth == 0) ≡ false
      → (p : TokenRecord) × (lookup r.parent m ≡ some p) × ChildOf r p
  parent_of h r e d = elim (linked.linked h r e).lineage [
    | inl (z, _, _) ↦ absurd (ground arith)
    | inr q ↦ q
  ]

  root_of : (h : Bytes) (r : TokenRecord) → lookup h m ≡ some r → (r.depth == 0) ≡ true → r.root ≡ h
  root_of h r e d = elim (linked.linked h r e).lineage [
    | inl (_, s, _) ↦ s
    | inr (p, _, c) ↦ absurd (let k = c.depth in ground arith)
  ]

  -- What the test answers, in a linked store: whether the record or an ancestor is inactive.
  abbrev pub Answers : Type 0 → Option Bool → Type 0
  Answers G none = ⊥
  Answers G (some true) = G
  Answers G (some false) = ¬ G

  fresh_step :
      (r p : TokenRecord)
      → inactive now r ≡ false
      → lookup r.parent m ≡ some p
      → Stale m now r
      → Stale m now p
  fresh_step r p i e (here s) = absurd (ground arith)
  fresh_step r p i e (above {p = q} d f s) = subst (Stale m now) (ground arith) s

  Answers-up :
      (r p : TokenRecord) (o : Option Bool)
      → inactive now r ≡ false
      → 0 < r.depth
      → lookup r.parent m ≡ some p
      → Answers (Stale m now p) o
      → Answers (Stale m now r) o
  Answers-up r p none i d e a = a
  Answers-up r p (some true) i d e a = above d e a
  Answers-up r p (some false) i d e a = λ s. a (fresh_step r p i e s)

  fresh_root : (r : TokenRecord) → inactive now r ≡ false → (r.depth == 0) ≡ true → ¬ Stale m now r
  fresh_root r i z (here s) = ground arith
  fresh_root r i z (above d f s) = ground arith

  -- With fuel above its depth the test returns, and answers whether the record or one of its
  -- ancestors is revoked or has expired.
  pub record_or_ancestor_inactive-Answers :
      (f : ℕ) (h : Bytes) (r : TokenRecord)
      → lookup h m ≡ some r
      → r.depth < f
      → Answers (Stale m now r) (record_or_ancestor_inactive f m now r)
  unfolding record_or_ancestor_inactive
  record_or_ancestor_inactive-Answers zero h r e d = absurd (omega arith)
  record_or_ancestor_inactive-Answers (suc f) h r e d = elim (Bool-cases (inactive now r)) [
    | inl i ↦ rw i (here i)
    | inr i ↦ elim (Bool-cases (r.depth == 0)) [
      | inl z ↦ rw (i, z) (fresh_root r i z)
      | inr z ↦
          let (p, g, c) = parent_of h r e z in
          let k = c.depth in
          rw (i, z, g)
            (Answers-up r p (record_or_ancestor_inactive f m now p) i (ground arith) g
              (record_or_ancestor_inactive-Answers f r.parent p g (omega arith)))
    ]
  ]

  -- The tests of one ancestor, in a linked store.
  parent_valid :
      (p : TokenRecord) (root : Bytes) (valid : Bool)
      → p.root ≡ root
      → (valid && not (is_some p.revoked_at) && ltb now p.expires_at && bytes_eq p.root root)
        ≡ (valid && not (inactive now p))
  unfolding inactive
  parent_valid p root valid e = ground (arith, bytes_eq_iff p.root root)

  -- What the loop of `validateLocked` leaves behind for a record `r`.
  abbrev pub Walked : TokenRecord → Bytes → Bool → Option (Bool × TokenRecord) → Type 0
  Walked r root v none = ⊥
  Walked r root v (some (b, c)) =
      (c.depth ≡ 0) × (c.root ≡ root) × ((b ≡ true) ↔ ((v ≡ true) × (¬ Stale m now r)))

  Walked-here :
      (r : TokenRecord) (root : Bytes) (v : Bool)
      → (r.depth == 0) ≡ true
      → r.root ≡ root
      → Walked r root v (some (v && not (inactive now r), r))
  Walked-here r root v z e = (
    ground arith,
    e,
    (
      λ h. (ground arith, fresh_root r (ground arith) z),
      λ (h, s). elim (Bool-cases (inactive now r)) [
        | inl i ↦ absurd (s (here i))
        | inr i ↦ ground arith
      ],
    ),
  )

  Walked-up :
      (r p : TokenRecord) (root : Bytes) (v : Bool) (o : Option (Bool × TokenRecord))
      → 0 < r.depth
      → lookup r.parent m ≡ some p
      → Walked p root (v && not (inactive now r)) o
      → Walked r root v o
  Walked-up r p root v none d e w = w
  Walked-up r p root v (some (b, c)) d e (z, t, (f, g)) = (
    z,
    t,
    (
      λ h. let (u, n) = f h in (ground arith, λ k. n (fresh_step r p (ground arith) e k)),
      λ (h, n). elim (Bool-cases (inactive now r)) [
        | inl i ↦ absurd (n (here i))
        | inr i ↦ g (ground arith, λ k. n (above d e k))
      ],
    ),
  )

  pub ancestors-Walked :
      (f : ℕ) (h : Bytes) (r : TokenRecord) (root : Bytes) (v : Bool)
      → lookup h m ≡ some r
      → r.root ≡ root
      → r.depth < f
      → Walked r root v (ancestors f m now root r (v && not (inactive now r)))
  unfolding ancestors
  ancestors-Walked zero h r root v e s d = absurd (omega arith)
  ancestors-Walked (suc f) h r root v e s d = elim (Bool-cases (r.depth == 0)) [
    | inl z ↦ rw z (Walked-here r root v z s)
    | inr z ↦
        let (p, g, c) = parent_of h r e z in
        let k = c.depth in
        let t = c.root ∙ s in
        let here = v && not (inactive now r) in
        let up = ancestors f m now root p (here && not (inactive now p)) in
        rw (z, g)
          (subst (λ x. Walked r root v (ancestors f m now root p x))
            (sym (parent_valid p root here t))
            (Walked-up r p root v up (ground arith) g
              (ancestors-Walked f r.parent p root here g t (omega arith))))
  ]
