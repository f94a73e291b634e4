-- ===== src/Tokens/Revoke/Cost.antt =====
-- The walk of `revokeHash` ends: each visit lowers the cost of the queue.
use forcefield.Base.{
  ℕ, zero, suc, ◌+◌, ◌-◌, ◌*◌, ◌≤◌, ◌<◌, ◌≡◌, refl, sym, subst, inl, inr, true, some, List, [], ◌∷◌,
  ◌++◌, arith, ltb, Bool-cases, Bytes, bytes_eq, bytes_eq_iff, lookup, length, EntriesOf,
  EntriesOf-self, All, Any,
}
use forcefield.Tokens.Types.{TokenRecord, Records}
use forcefield.Tokens.Lineage.{IsLinked}
use forcefield.Tokens.Revoke.{children_of, at_key, cost}

-- The record `c` is a child of `h`.
abbrev pub IsChild : Records → Bytes → Bytes → Type 0
IsChild m h c = (r : TokenRecord) × (lookup c m ≡ some r) × (0 < r.depth) × (r.parent ≡ h)

pub children_of-IsChild :
    (m part : Records) (h : Bytes) → EntriesOf m part → All (IsChild m h) (children_of part h)
unfolding children_of
children_of-IsChild m [] h es = tt
children_of-IsChild m ((k, r) ∷ part) h (e, es) = elim (Bool-cases (ltb 0 r.depth)) [
  | inl d ↦ elim (Bool-cases (bytes_eq r.parent h)) [
    | inl p ↦
        rw (d, p)
          ((r, e, ground arith, (bytes_eq_iff r.parent h).0 p), children_of-IsChild m part h es)
    | inr p ↦ rw (d, p) (children_of-IsChild m part h es)
  ]
  | inr d ↦ rw d (children_of-IsChild m part h es)
]

pub children_of-Any :
    (P : Bytes → Type 0) (part : Records) (h k : Bytes) (r : TokenRecord)
    → lookup k part ≡ some r
    → 0 < r.depth
    → r.parent ≡ h
    → P k
    → Any P (children_of part h)
unfolding children_of lookup
children_of-Any P [] h k r e d p x = absurd (ground arith)
children_of-Any P ((j, w) ∷ part) h k r e d p x = elim (Bool-cases (bytes_eq j k)) [
  | inl q ↦
      let same : w ≡ r = ground arith in
      let deep : ltb 0 w.depth ≡ true = ground arith in
      let par : bytes_eq w.parent h ≡ true = ground (arith, bytes_eq_iff w.parent h) in
      rw (deep, par) (inl (subst P (sym ((bytes_eq_iff j k).0 q)) x))
  | inr q ↦ elim (Bool-cases (ltb 0 w.depth)) [
    | inl a ↦ elim (Bool-cases (bytes_eq w.parent h)) [
      | inl b ↦ rw (a, b) (inr (children_of-Any P part h k r (ground arith) d p x))
      | inr b ↦ rw (a, b) (children_of-Any P part h k r (ground arith) d p x)
    ]
    | inr a ↦ rw a (children_of-Any P part h k r (ground arith) d p x)
  ]
]

length-children_of : (part : Records) (h : Bytes) → length (children_of part h) ≤ length part
unfolding children_of
length-children_of [] h = omega arith
length-children_of ((k, r) ∷ part) h = ground (arith, length-children_of part h)

mul_mono : (a b c : ℕ) → a ≤ b → a * c ≤ b * c
mul_mono a b c h = grind arith

cost_mono : (n a b : ℕ) → a ≤ b → cost n a ≤ cost n b
unfolding cost
cost_mono n zero zero h = omega arith
cost_mono n zero (suc b) h = omega arith
cost_mono n (suc a) zero h = absurd (omega arith)
cost_mono n (suc a) (suc b) h = let ih = cost_mono n a b (omega arith) in grind arith

module _ (m : Records) (bound : ℕ) where
  -- The cost of visiting `h` and what stands below it.
  pub weight : Bytes → ℕ
  unfolding cost
  weight h = cost (length m) (bound - (at_key (lookup h m)).depth)

  abbrev pub total : List Bytes → ℕ
  total [] = 0
  total (h ∷ queue) = weight h + total queue

  -- The cost of the first queue is within the fuel of the walk.
  pub total-start : (h : Bytes) → total (h ∷ []) ≤ cost (length m) bound
  unfolding weight
  total-start h =
      omega (arith, cost_mono (length m) (bound - (at_key (lookup h m)).depth) bound (omega arith))

  pub total-append : (q s : List Bytes) → total (q ++ s) ≡ total q + total s
  total-append [] s = omega arith
  total-append (h ∷ q) s = omega (arith, total-append q s)

  total-le : (w : ℕ) (q : List Bytes) → All (λ h. weight h ≤ w) q → total q ≤ length q * w
  total-le w [] a = omega arith
  total-le w (h ∷ q) (a, rest) = grind (arith, total-le w q rest)

  module _ (linked : IsLinked m)
      (deep : (h : Bytes) (r : TokenRecord) → lookup h m ≡ some r → r.depth ≤ bound) where
    child_depth :
        (h c : Bytes) (r : TokenRecord)
        → lookup h m ≡ some r
        → IsChild m h c
        → ((at_key (lookup c m)).depth ≡ suc r.depth) × (suc r.depth ≤ bound)
    unfolding at_key
    child_depth h c r e (s, f, d, p) = elim (linked.linked c s f).lineage [
      | inl (z, _, _) ↦ absurd (omega arith)
      | inr (q, g, k) ↦
          let x = k.depth in
          let y = deep c s f in let same : q ≡ r = ground arith in rw f (ground arith, ground arith)
    ]

    children-le :
        (h : Bytes) (r : TokenRecord) (w : ℕ) (cs : List Bytes)
        → lookup h m ≡ some r
        → ((c : Bytes) → IsChild m h c → weight c ≤ w)
        → All (IsChild m h) cs
        → All (λ c. weight c ≤ w) cs
    children-le h r w [] e f a = tt
    children-le h r w (c ∷ cs) e f (a, rest) = (f c a, children-le h r w cs e f rest)

    total-children :
        (levels : ℕ) (h : Bytes) (r : TokenRecord)
        → lookup h m ≡ some r
        → bound - r.depth ≡ levels
        → total (children_of m h) < cost (length m) levels
    unfolding cost
    total-children zero h r e b =
        let none_there =
          children-le h r 0 (children_of m h) e
            (λ c k. let (x, y) = child_depth h c r e k in absurd (omega arith))
            (children_of-IsChild m m h (EntriesOf-self m linked.keys)) in
        omega (arith, total-le 0 (children_of m h) none_there)
    total-children (suc n) h r e b =
        let same =
          children-le h r (cost (length m) n) (children_of m h) e
            (λ c k.
              let (x, y) = child_depth h c r e k in
              let z : bound - suc r.depth ≡ n = omega arith in
              unfold weight in rw (x, z) (omega arith))
            (children_of-IsChild m m h (EntriesOf-self m linked.keys)) in
        let few = length-children_of m h in
        let most = mul_mono (length (children_of m h)) (length m) (cost (length m) n) few in
        omega (arith, total-le (cost (length m) n) (children_of m h) same)

    -- A visit replaces a digest in the queue by its children, which cost less.
    pub total-visit :
        (h : Bytes) (r : TokenRecord) (queue : List Bytes)
        → lookup h m ≡ some r
        → total (queue ++ children_of m h) < total (h ∷ queue)
    unfolding weight at_key
    total-visit h r queue e =
        let less = total-children (bound - r.depth) h r e refl in
        rw (total-append queue (children_of m h), e) (omega arith)
