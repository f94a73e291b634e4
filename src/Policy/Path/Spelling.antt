-- ===== src/Policy/Path/Spelling.antt =====
-- Splitting a path at `/` and joining it again.
use forcefield.Base.{
  drop, has_prefix, inr, Bool-cases, ◌==◌, mem_byte, ◌++◌, split, inl, arith, refl, ◌||◌, bytes,
  bytes_eq, contains_any, false, [], true, ◌∷◌, ◌≡◌, List, Bytes, ℕ,
}

pub split-nonempty :
    (sep : ℕ) (s : Bytes) → (p : Bytes) × (ps : List Bytes) × (split sep s ≡ p ∷ ps)
unfolding split
split-nonempty sep [] = ([], [], refl)
split-nonempty sep (c ∷ s) =
    let (p, ps, e) = split-nonempty sep s in
    elim (Bool-cases (c == sep)) [
      | inl f ↦ rw (e, f) ([], p ∷ ps, refl)
      | inr f ↦ rw (e, f) (c ∷ p, ps, refl)
    ]

pub split-single : (s : Bytes) → mem_byte 47 s ≡ false → split 47 s ≡ s ∷ []
unfolding split mem_byte
split-single [] h = refl
split-single (c ∷ s) h =
    let e : (c == 47) ≡ false = ground arith in rw (split-single s (ground arith), e) refl

pub split-append : (s t : Bytes) → mem_byte 47 s ≡ false → split 47 (s ++ 47 ∷ t) ≡ s ∷ split 47 t
unfolding split mem_byte
split-append [] t h = let (p, ps, e) = split-nonempty 47 t in rw e refl
split-append (c ∷ s) t h =
    let e : (c == 47) ≡ false = ground arith in rw (split-append s t (ground arith), e) refl

pub contains_any-append :
    (s t set : Bytes) → contains_any (s ++ t) set ≡ contains_any s set || contains_any t set
unfolding contains_any
contains_any-append [] t set = refl
contains_any-append (c ∷ s) t set = ground (arith, contains_any-append s t set)

pub any_delimiter :
    (s : Bytes)
    → mem_byte 63 s ≡ false
    → mem_byte 35 s ≡ false
    → contains_any s (bytes "?#") ≡ false
unfolding contains_any mem_byte
any_delimiter [] g h = refl
any_delimiter (c ∷ s) g h = ground (arith, any_delimiter s)

pub split-empty : (s : Bytes) → split 47 s ≡ [] ∷ [] → s ≡ []
unfolding split
split-empty [] h = refl
split-empty (c ∷ s) h =
    let (p, ps, e) = split-nonempty 47 s in
    absurd (elim (Bool-cases (c == 47)) [ inl f ↦ ground arith | inr f ↦ ground arith ])

pub append-nonempty : (s : Bytes) (c : ℕ) (t : Bytes) → bytes_eq (s ++ c ∷ t) [] ≡ false
unfolding bytes_eq
append-nonempty [] c t = refl
append-nonempty (b ∷ s) c t = refl

pub only_slash :
    (path : Bytes)
    → has_prefix path (bytes "/") ≡ true
    → drop 1 path ≡ []
    → bytes_eq path (bytes "/") ≡ true
unfolding has_prefix bytes_eq
only_slash [] h e = ground arith
only_slash (c ∷ []) h e = ground arith
only_slash (c ∷ d ∷ path) h e = ground arith
