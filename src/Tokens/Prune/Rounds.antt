-- ===== src/Tokens/Prune/Rounds.antt =====
-- The rounds of `pruneInactive`: what they add, that they end, and where they end.
use forcefield.Base.{
  ℕ, zero, suc, ◌≤◌, ◌<◌, ◌≡◌, refl, ap, subst, ◌∙◌, ◌⊎◌, inl, inr, true, false, not, some, List,
  [], ◌∷◌, arith, Bool-cases, Bytes, bytes_eq_iff, bytes_eq_refl, lookup, EntriesOf, count_entries,
  count_entries_strict, count_entries_mono,
}
use forcefield.Tokens.Types.{TokenRecord, Records}
use forcefield.Tokens.Chain.{inactive, Stale, here, above}
use forcefield.Tokens.Prune.{mem_hash, seeds, newly_removed, sweep, spread}

mem-cons_cases :
    (h j : Bytes) (s : List Bytes) → mem_hash h (j ∷ s) ≡ true → (j ≡ h) ⊎ (mem_hash h s ≡ true)
unfolding mem_hash
mem-cons_cases h j s e = ground (arith, bytes_eq_iff j h)

module _ (m : Records) (now : ℕ) where
  -- Every removed digest is that of a stale record.
  abbrev pub Sound : List Bytes → Type 0
  Sound remove =
      (h : Bytes)
      → mem_hash h remove ≡ true
      → (r : TokenRecord) × (lookup h m ≡ some r) × Stale m now r

  Sound-cons :
      (h : Bytes) (r : TokenRecord) (s : List Bytes)
      → lookup h m ≡ some r
      → Stale m now r
      → Sound s
      → Sound (h ∷ s)
  Sound-cons h r s e st k j d = elim (mem-cons_cases j h s d) [
    | inl q ↦ (r, subst (λ x. lookup x m ≡ some r) q e, st)
    | inr q ↦ k j q
  ]

  pub seeds-Sound : (part : Records) → EntriesOf m part → Sound (seeds now part)
  unfolding seeds
  seeds-Sound [] es = λ h d. absurd (unfold mem_hash in ground arith)
  seeds-Sound ((k, r) ∷ part) (e, es) = elim (Bool-cases (inactive now r)) [
    | inl i ↦ rw i (Sound-cons k r (seeds now part) e (here i) (seeds-Sound part es))
    | inr i ↦ rw i (seeds-Sound part es)
  ]

  newly_removed-Stale :
      (h : Bytes) (r : TokenRecord) (s : List Bytes)
      → Sound s
      → newly_removed h r s ≡ true
      → Stale m now r
  unfolding newly_removed
  newly_removed-Stale h r s k e =
      let (p, f, st) = k r.parent (ground arith) in above (ground arith) f st

  sweep-Sound :
      (part : Records) (s : List Bytes) → EntriesOf m part → Sound s → Sound (sweep part s).0
  unfolding sweep
  sweep-Sound [] s es k = k
  sweep-Sound ((h, r) ∷ part) s (e, es) k = elim (Bool-cases (newly_removed h r s)) [
    | inl i ↦
        rw i (sweep-Sound part (h ∷ s) es (Sound-cons h r s e (newly_removed-Stale h r s k i) k))
    | inr i ↦ rw i (sweep-Sound part s es k)
  ]

  -- A round removes nothing twice, and what was removed stays removed.
  sweep_mono :
      (part : Records) (s : List Bytes) (h : Bytes)
      → mem_hash h s ≡ true
      → mem_hash h (sweep part s).0 ≡ true
  unfolding sweep
  sweep_mono [] s h d = d
  sweep_mono ((j, r) ∷ part) s h d = elim (Bool-cases (newly_removed j r s)) [
    | inl i ↦ rw i (sweep_mono part (j ∷ s) h (unfold mem_hash in ground arith))
    | inr i ↦ rw i (sweep_mono part s h d)
  ]

  -- The records that are not removed yet.
  abbrev left : List Bytes → ℕ
  left s = count_entries (λ h r. not (mem_hash h s)) m

  left-cons-le : (h : Bytes) (s : List Bytes) → left (h ∷ s) ≤ left s
  unfolding mem_hash
  left-cons-le h s = count_entries_mono _ _ m (λ j w e. ground arith)

  left-cons-lt :
      (h : Bytes) (r : TokenRecord) (s : List Bytes)
      → lookup h m ≡ some r
      → mem_hash h s ≡ false
      → left (h ∷ s) < left s
  unfolding mem_hash
  left-cons-lt h r s e d =
      count_entries_strict _ _ h r m (λ j w k. ground arith) e (ground (arith, bytes_eq_refl h))
        (ground arith)

  sweep-left-le : (part : Records) (s : List Bytes) → left (sweep part s).0 ≤ left s
  unfolding sweep
  sweep-left-le [] s = omega arith
  sweep-left-le ((j, r) ∷ part) s = elim (Bool-cases (newly_removed j r s)) [
    | inl i ↦ rw i (omega (arith, sweep-left-le part (j ∷ s), left-cons-le j s))
    | inr i ↦ rw i (sweep-left-le part s)
  ]

  newly_removed-fresh :
      (h : Bytes) (r : TokenRecord) (s : List Bytes)
      → newly_removed h r s ≡ true
      → mem_hash h s ≡ false
  unfolding newly_removed
  newly_removed-fresh h r s e = ground arith

  -- A round that changes the set leaves fewer records.
  sweep-left-lt :
      (part : Records) (s : List Bytes)
      → EntriesOf m part
      → (sweep part s).1 ≡ true
      → left (sweep part s).0 < left s
  unfolding sweep
  sweep-left-lt [] s es c = ground arith
  sweep-left-lt ((j, r) ∷ part) s (e, es) c = elim (Bool-cases (newly_removed j r s)) [
    | inl i ↦ rw i (
        omega
          (arith, sweep-left-le part (j ∷ s), left-cons-lt j r s e (newly_removed-fresh j r s i)))
    | inr i ↦ rw i (sweep-left-lt part s es (rw i at c))
  ]

  -- A round that changes nothing found no record to remove.
  abbrev pub Closed : Records → List Bytes → Type 0
  Closed [] s = Unit
  Closed ((h, r) ∷ part) s = (newly_removed h r s ≡ false) × Closed part s

  sweep-Closed :
      (part : Records) (s : List Bytes)
      → (sweep part s).1 ≡ false
      → ((sweep part s).0 ≡ s) × Closed part s
  unfolding sweep
  sweep-Closed [] s c = (refl, tt)
  sweep-Closed ((j, r) ∷ part) s c = elim (Bool-cases (newly_removed j r s)) [
    | inl i ↦ absurd (ground arith)
    | inr i ↦ let (a, b) = sweep-Closed part s (rw i at c) in rw i (a, (refl, b))
  ]

  spread-again :
      (f : ℕ) (s : List Bytes)
      → (sweep m s).1 ≡ true
      → spread (suc f) m s ≡ spread f m (sweep m s).0
  unfolding spread
  spread-again f s c = ground arith

  spread-done :
      (f : ℕ) (s : List Bytes) → (sweep m s).1 ≡ false → spread (suc f) m s ≡ some (sweep m s).0
  unfolding spread
  spread-done f s c = ground arith

  -- With fuel above the number of records left the rounds end, at a set that holds what it began
  -- with, holds only stale records, and is closed under children.
  pub spread-Closed :
      (f : ℕ) (s : List Bytes)
      → EntriesOf m m
      → Sound s
      → left s < f
      → (s' : List Bytes) × (spread f m s ≡ some s')
        × Sound s'
        × Closed m s'
        × ((h : Bytes) → mem_hash h s ≡ true → mem_hash h s' ≡ true)
  spread-Closed zero s es k d = absurd (omega arith)
  spread-Closed (suc f) s es k d = elim (Bool-cases (sweep m s).1) [
    | inl c ↦
        let less = sweep-left-lt m s es c in
        let (s', e, k', z, up) =
          spread-Closed f (sweep m s).0 es (sweep-Sound m s es k) (omega arith) in
        (s', spread-again f s c ∙ e, k', z, λ h q. up h (sweep_mono m s h q))
    | inr c ↦ let (a, b) = sweep-Closed m s c in (s, spread-done f s c ∙ ap some a, k, b, λ h q. q)
  ]
