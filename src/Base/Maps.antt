-- ===== src/Base/Maps.antt =====
-- A Go map with string keys, as an association list. A write replaces the entry of its key, so
-- that a map that is built from the empty one holds each key once, and `range` meets it once.
use Prim.Native.Nat.{ℕ, suc, ◌≤◌, ◌<◌}
use mathlib.Core.Path.{◌≡◌, refl}
use mathlib.Core.Logic.{◌↔◌, inl, inr}
use mathlib.Core.Bool.{Bool, true, false, ◌&&◌, ◌||◌}
use mathlib.Core.List.{List, [], ◌∷◌}
use mathlib.Core.Option.{Option, none, some}
use native.Mathlib.Omega.{arith}
use forcefield.Base.Tests.{Bytes, bytes_eq, bytes_eq_iff, bytes_eq_refl, Bool-cases, if◌then◌else◌}
use forcefield.Base.Lists.{length}

abbrev pub Map {ℓ} : Type ℓ → Type ℓ
Map V = List (Bytes × V)

-- The entry that passes the test of `retain`.
abbrev pub keep_if {ℓ} : {V : Type ℓ} → (V → Bool) → Option V → Option V
keep_if p none = none
keep_if p (some v) = if p v then some v else none

module _ {ℓ} {V : Type ℓ} where
  unfoldable pub lookup : Bytes → Map V → Option V
  unfolding bytes_eq
  lookup k [] = none
  lookup k ((j, v) ∷ m) = if bytes_eq j k then some v else lookup k m

  unfoldable pub put : Bytes → V → Map V → Map V
  unfolding bytes_eq
  put k v [] = (k, v) ∷ []
  put k v ((j, w) ∷ m) = if bytes_eq j k then (k, v) ∷ m else (j, w) ∷ put k v m

  unfoldable pub delete : Bytes → Map V → Map V
  unfolding bytes_eq
  delete k [] = []
  delete k ((j, w) ∷ m) = let rest = delete k m in if bytes_eq j k then rest else (j, w) ∷ rest

  -- The entries that pass a test of their key and value.
  unfoldable pub retain : (Bytes → V → Bool) → Map V → Map V
  retain p [] = []
  retain p ((j, w) ∷ m) = let rest = retain p m in if p j w then (j, w) ∷ rest else rest

  unfoldable pub all_entries : (Bytes → V → Bool) → Map V → Bool
  all_entries p [] = true
  all_entries p ((j, w) ∷ m) = p j w && all_entries p m

  unfoldable pub any_entry : (Bytes → V → Bool) → Map V → Bool
  any_entry p [] = false
  any_entry p ((j, w) ∷ m) = p j w || any_entry p m

  unfoldable pub count_entries : (Bytes → V → Bool) → Map V → ℕ
  count_entries p [] = 0
  count_entries p ((j, w) ∷ m) = let rest = count_entries p m in if p j w then suc rest else rest

  unfoldable pub has_key : Bytes → Map V → Bool
  unfolding bytes_eq
  has_key k [] = false
  has_key k ((j, w) ∷ m) = bytes_eq j k || has_key k m

  -- Each key has one entry.
  abbrev pub IsMap : Map V → Type ℓ
  IsMap [] = Unit
  IsMap ((j, w) ∷ m) = (lookup j m ≡ none) × IsMap m

  pub lookup-put :
      (k j : Bytes) (v : V) (m : Map V)
      → lookup j (put k v m) ≡ (if bytes_eq k j then some v else lookup j m)
  unfolding lookup put
  lookup-put k j v [] = refl
  lookup-put k j v ((i, w) ∷ m) =
      ground (arith, bytes_eq_iff k j, bytes_eq_iff i k, bytes_eq_iff i j, lookup-put k j v m)

  pub lookup-put_self : (k : Bytes) (v : V) (m : Map V) → lookup k (put k v m) ≡ some v
  lookup-put_self k v m = simp (lookup-put, bytes_eq_refl)

  pub lookup-delete :
      (k j : Bytes) (m : Map V)
      → lookup j (delete k m) ≡ (if bytes_eq k j then none else lookup j m)
  unfolding lookup delete
  lookup-delete k j [] = ground arith
  lookup-delete k j ((i, w) ∷ m) =
      ground (arith, bytes_eq_iff k j, bytes_eq_iff i k, bytes_eq_iff i j, lookup-delete k j m)

  lookup-retain_absent :
      (p : Bytes → V → Bool) (k : Bytes) (m : Map V)
      → lookup k m ≡ none
      → lookup k (retain p m) ≡ none
  unfolding lookup retain
  lookup-retain_absent p k [] h = refl
  lookup-retain_absent p k ((j, w) ∷ m) h = ground (arith, lookup-retain_absent p k m)

  pub lookup-retain :
      (p : Bytes → V → Bool) (k : Bytes) (m : Map V)
      → IsMap m
      → lookup k (retain p m) ≡ keep_if (p k) (lookup k m)
  unfolding lookup retain
  lookup-retain p k [] h = refl
  lookup-retain p k ((j, w) ∷ m) h =
      ground (arith, lookup-retain p k m h.1, lookup-retain_absent p j m h.0, bytes_eq_iff j k)

  pub put-IsMap : (k : Bytes) (v : V) (m : Map V) → IsMap m → IsMap (put k v m)
  unfolding put lookup
  put-IsMap k v [] h = (refl, tt)
  put-IsMap k v ((j, w) ∷ m) h = elim (Bool-cases (bytes_eq j k)) [
    | inl e ↦ rw e (ground (arith, bytes_eq_iff j k), h.1)
    | inr e ↦ rw e (
      ground (arith, lookup-put k j v m, bytes_eq_iff k j, bytes_eq_iff j k),
      put-IsMap k v m h.1,
    )
  ]

  pub retain-IsMap : (p : Bytes → V → Bool) (m : Map V) → IsMap m → IsMap (retain p m)
  unfolding retain
  retain-IsMap p [] h = tt
  retain-IsMap p ((j, w) ∷ m) h = elim (Bool-cases (p j w)) [
    | inl e ↦ rw e (lookup-retain_absent p j m h.0, retain-IsMap p m h.1)
    | inr e ↦ rw e (retain-IsMap p m h.1)
  ]

  pub all_entries→lookup :
      (p : Bytes → V → Bool) (k : Bytes) (v : V) (m : Map V)
      → all_entries p m ≡ true
      → lookup k m ≡ some v
      → p k v ≡ true
  unfolding all_entries lookup
  all_entries→lookup p k v [] h e = ground arith
  all_entries→lookup p k v ((j, w) ∷ m) h e =
      ground (arith, bytes_eq_iff j k, all_entries→lookup p k v m)

  pub lookup→all_entries :
      (p : Bytes → V → Bool) (m : Map V)
      → IsMap m
      → ((k : Bytes) (v : V) → lookup k m ≡ some v → p k v ≡ true)
      → all_entries p m ≡ true
  unfolding all_entries lookup
  lookup→all_entries p [] h f = refl
  lookup→all_entries p ((j, w) ∷ m) h f = ground (
    arith,
    f j w,
    bytes_eq_refl j,
    lookup→all_entries p m h.1 (λ k v e. f k v (ground (arith, bytes_eq_iff j k))),
  )

  pub length-put-le : (k : Bytes) (v : V) (m : Map V) → length (put k v m) ≤ suc (length m)
  unfolding put
  length-put-le k v [] = omega arith
  length-put-le k v ((j, w) ∷ m) = ground (arith, length-put-le k v m)

  pub length-retain-le : (p : Bytes → V → Bool) (m : Map V) → length (retain p m) ≤ length m
  unfolding retain
  length-retain-le p [] = omega arith
  length-retain-le p ((j, w) ∷ m) = ground (arith, length-retain-le p m)

  pub has_key_lem : (k : Bytes) (m : Map V) → (has_key k m ≡ false) ↔ (lookup k m ≡ none)
  unfolding has_key lookup
  has_key_lem k [] = (λ _. refl, λ _. refl)
  has_key_lem k ((j, w) ∷ m) = (ground (arith, has_key_lem k m), ground (arith, has_key_lem k m))

  -- The entries of a map are what its lookups find.
  abbrev pub EntriesOf : Map V → Map V → Type ℓ
  EntriesOf m [] = Unit
  EntriesOf m ((k, v) ∷ rest) = (lookup k m ≡ some v) × EntriesOf m rest

  EntriesOf-cons :
      (j : Bytes) (w : V) (m rest : Map V)
      → lookup j m ≡ none
      → EntriesOf m rest
      → EntriesOf ((j, w) ∷ m) rest
  unfolding lookup
  EntriesOf-cons j w m [] n e = tt
  EntriesOf-cons j w m ((k, v) ∷ rest) n (e, es) =
      (ground (arith, bytes_eq_iff j k), EntriesOf-cons j w m rest n es)

  pub EntriesOf-self : (m : Map V) → IsMap m → EntriesOf m m
  unfolding lookup
  EntriesOf-self [] h = tt
  EntriesOf-self ((j, w) ∷ m) (n, h) =
      (ground (arith, bytes_eq_refl j), EntriesOf-cons j w m m n (EntriesOf-self m h))

  -- Fewer entries pass a test that lets fewer through.
  pub count_entries_mono :
      (p q : Bytes → V → Bool) (m : Map V)
      → ((k : Bytes) (v : V) → p k v ≡ true → q k v ≡ true)
      → count_entries p m ≤ count_entries q m
  unfolding count_entries
  count_entries_mono p q [] h = omega arith
  count_entries_mono p q ((j, w) ∷ m) h = ground (arith, h j w, count_entries_mono p q m h)

  pub count_entries_strict :
      (p q : Bytes → V → Bool) (k : Bytes) (v : V) (m : Map V)
      → ((j : Bytes) (w : V) → p j w ≡ true → q j w ≡ true)
      → lookup k m ≡ some v
      → p k v ≡ false
      → q k v ≡ true
      → count_entries p m < count_entries q m
  unfolding count_entries lookup
  count_entries_strict p q k v [] h e f g = ground arith
  count_entries_strict p q k v ((j, w) ∷ m) h e f g =
      ground (
        arith,
        h j w,
        bytes_eq_iff j k,
        count_entries_mono p q m h,
        count_entries_strict p q k v m h,
      )

  pub count_entries-le : (p : Bytes → V → Bool) (m : Map V) → count_entries p m ≤ length m
  unfolding count_entries
  count_entries-le p [] = omega arith
  count_entries-le p ((j, w) ∷ m) = ground (arith, count_entries-le p m)
