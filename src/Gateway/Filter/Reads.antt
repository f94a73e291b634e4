-- ===== src/Gateway/Filter/Reads.antt =====
use Prim.Native.Nat.{ℕ}
use forcefield.Gateway.Filter.{
  ReadError, secret_reflection, read, Reply, held, eof, absorb, read_loop, Chunk, FilteringBody,
  attempt,
}
use forcefield.Base.{
  if◌then◌else◌, take, sym, drop, ◌≤◌, subst, false, ap, ◌==◌, Option, ◌<◌, true, refl, ◌-◌, length,
  ltb, ◌∙◌, inr, Option-cases, arith, inl, [], some, contains, ◌∷◌, Bool-cases, none, List, ◌≡◌,
}

-- How one call of `Read` ends: after some reads of the source, an attempt answers.

-- What `source.Read` does to the body, at the end of the source too.
pub data Fetch : FilteringBody → FilteringBody → Type 0 where
  fetched :
      (chunk : Chunk) (source : List Chunk) (b : FilteringBody)
      → b.source ≡ chunk ∷ source
      → Fetch b (absorb chunk (record b { source = source }))
  ended : (b : FilteringBody) → b.source ≡ [] → Fetch b (absorb ([], some eof) b)

-- The attempt finds neither the secret nor a byte to give nor an error.
pub attempt-none : (room : ℕ) (b : FilteringBody) → attempt room b ≡ none → b.terminal ≡ none
unfolding attempt
attempt-none room b h = elim (Bool-cases (contains b.pending b.secret)) [
  | inl y ↦ absurd (ground arith)
  | inr n ↦ elim (Bool-cases (ltb 0 (length b.pending - held b))) [
    | inl y ↦ absurd (ground arith)
    | inr m ↦ ground arith
  ]
]

module _ (room : ℕ) (P : FilteringBody → Type 0)
    (step : (b c : FilteringBody) → b.terminal ≡ none → Fetch b c → P b → P c) where
  -- A predicate that every read of the source keeps holds where the attempt answers.
  pub read_loop-attempt :
      (source : List Chunk) (b : FilteringBody)
      → b.source ≡ source
      → P b
      → (c : FilteringBody) × P c × (attempt room c ≡ some (read_loop room source b))
  unfolding read_loop
  read_loop-attempt [] b e p = elim (Option-cases (attempt room b)) [
    | inr (r, h) ↦ (b, p, h ∙ rw (h, read_loop) refl)
    | inl h ↦
        let c = absorb ([], some eof) b in
        elim (Option-cases (attempt room c)) [
          | inr (r, g) ↦
              (c, step b c (attempt-none room b h) (ended b e) p, g ∙ rw (h, g, read_loop) refl)
          | inl g ↦ absurd (no_end b (attempt-none room c g))
        ]
  ]
    where
      no_end : (b : FilteringBody) → (absorb ([], some eof) b).terminal ≡ none → ⊥
      no_end b h = unfold absorb in ground arith
  read_loop-attempt (chunk ∷ source) b e p = elim (Option-cases (attempt room b)) [
    | inr (r, h) ↦ (b, p, h ∙ rw (h, read_loop) refl)
    | inl h ↦
        let next = absorb chunk (record b { source = source }) in
        let (c, q, g) =
          read_loop-attempt source next (kept chunk source b)
            (step b next (attempt-none room b h) (fetched chunk source b e) p) in
        (c, q, g ∙ rw (h, read_loop) refl)
  ]
    where
      kept :
          (chunk : Chunk) (source : List Chunk) (b : FilteringBody)
          → (absorb chunk (record b { source = source })).source ≡ source
      kept (chunk, some e) source b = unfold absorb in refl
      kept (chunk, none) source b = unfold absorb in ground arith

-- What an attempt answers: the secret, some bytes that are not held back, or the error of the source.
pub data Answer (b : FilteringBody) : Reply → Type 0 where
  reflected :
      contains b.pending b.secret ≡ true
      → Answer b (record b { pending = []; found = true }, [], some secret_reflection)
  given :
      (n : ℕ)
      → contains b.pending b.secret ≡ false
      → 0 < n
      → n ≤ length b.pending - held b
      → Answer b (record b { pending = drop n b.pending }, take n b.pending, none)
  over :
      (e : ReadError)
      → contains b.pending b.secret ≡ false
      → length b.pending ≤ held b
      → b.terminal ≡ some e
      → Answer b (record b { terminal = none }, [], some e)

pub attempt-Answer :
    (room : ℕ) (b : FilteringBody) (r : Reply) → 0 < room → attempt room b ≡ some r → Answer b r
unfolding attempt
attempt-Answer room b r z h = elim (Bool-cases (contains b.pending b.secret)) [
  | inl y ↦ subst (λ t. Answer b t) (taken _ r (sym (rw y refl) ∙ h)) (reflected y)
  | inr n ↦ elim (Bool-cases (ltb 0 (length b.pending - held b))) [
    | inl y ↦
        let safe = length b.pending - held b in
        let count = if ltb room safe then room else safe in
        let some_bytes : 0 < count = ground arith in
        let bounded : count ≤ safe = ground arith in
        subst (λ t. Answer b t) (taken _ r (sym (rw (n, y) refl) ∙ h))
          (given count n some_bytes bounded)
    | inr m ↦ elim (Option-cases b.terminal) [
      | inl t ↦ absurd (ground arith)
      | inr (e, t) ↦
          subst (λ x. Answer b x) (taken _ r (sym (rw (n, m, t) refl) ∙ h))
            (over e n (ground arith) t)
    ]
  ]
]
  where
    taken : (x y : Reply) → ◌≡◌ {A = Option Reply} (some x) (some y) → x ≡ y
    taken x y e = ap (λ (o : Option Reply). value x o) e
      where
        value : Reply → Option Reply → Reply
        value d none = d
        value d (some v) = v

module _ (P : FilteringBody → Type 0)
    (step : (b c : FilteringBody) → b.terminal ≡ none → Fetch b c → P b → P c) where
  -- How a call of `Read` may end.
  pub data Ending (room : ℕ) (b : FilteringBody) : Reply → Type 0 where
    idle : room ≡ 0 → Ending room b (b, [], none)
    refused : b.found ≡ true → Ending room b (b, [], some secret_reflection)
    answered : (c : FilteringBody) (r : Reply) → P c → Answer c r → Ending room b r

  pub read-Ending :
      (room : ℕ) (b : FilteringBody) → 0 < length b.secret → P b → Ending room b (read room b)
  unfolding read
  read-Ending room b z p = elim (Bool-cases (room == 0)) [
    | inl y ↦ rw y (idle (ground arith))
    | inr n ↦ elim (Bool-cases b.found) [
      | inl y ↦ simp (n, y) (refused y)
      | inr m ↦
          let (c, q, h) = read_loop-attempt room P step b.source b refl p in
          let filtered : (length b.secret == 0) ≡ false = ground arith in
          simp (n, m, filtered)
            (answered c (read_loop room b.source b) q
              (attempt-Answer room c (read_loop room b.source b) (ground arith) h))
    ]
  ]
