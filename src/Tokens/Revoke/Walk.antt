-- ===== src/Tokens/Revoke/Walk.antt =====
-- What the walk of `revokeHash` leaves: the token and its descendants revoked, the rest as it was.
use forcefield.Base.{
  ℕ, zero, suc, ◌≤◌, ◌≡◌, refl, sym, ap, subst, ◌∙◌, ◌⊎◌, inl, inr, Bool, true, false, not, ◌&&◌,
  ◌||◌, Option, none, some, List, [], ◌∷◌, ◌++◌, arith, if◌then◌else◌, Bool-cases, is_some, Bytes,
  bytes_eq, bytes_eq_iff, bytes_eq_refl, lookup, lookup-put, put-IsMap, IsMap, EntriesOf,
  EntriesOf-self, All, Any, Any-map, Any-append, All-append, All-map,
}
use forcefield.Tokens.Types.{TokenRecord, Records}
use forcefield.Tokens.Lineage.{IsLinked}
use forcefield.Tokens.Revoke.{children_of, at_key, mark_revoked, visit, walk, Below, self, child}
use forcefield.Tokens.Revoke.Cost.{
  IsChild, children_of-IsChild, children_of-Any, total, total-visit,
}

-- A descendant is the token itself, or stands below one of its children.
Below-split :
    {m : Records} {h k : Bytes} (d : Below m h k)
    → (h ≡ k) ⊎ Any (λ c. Below m c k) (children_of m h)
Below-split self = inl refl
Below-split {m} {h} {k} (child {j = j} {r = r} d e deep p) = inr (elim (Below-split d) [
  | inl same ↦ children_of-Any (λ c. Below m c k) m h k r e deep (p ∙ sym same) self
  | inr below ↦
      Any-map (λ c. Below m c j) (λ c. Below m c k) (children_of m h) below
        (λ c b. child b e deep p)
])

module _ (m : Records) (now : ℕ) (top : Bytes) where
  -- The record of `k` as the walk may leave it: untouched, or revoked now if it stands below `top`.
  abbrev Entry : Records → Bytes → TokenRecord → Type 0
  Entry next k r =
      (lookup k next ≡ some r)
      ⊎ ((r.revoked_at ≡ none) × Below m top k × (lookup k next ≡ some (mark_revoked now r)))

  abbrev Revoked : Records → Bytes → Type 0
  Revoked next k = (r : TokenRecord) × (lookup k next ≡ some r) × (is_some r.revoked_at ≡ true)

  -- The state of the walk between two visits.
  record State (next : Records) (queue : List Bytes) : Type 0 where
    keys : IsMap next
    entries : (k : Bytes) (r : TokenRecord) → lookup k m ≡ some r → Entry next k r
    adds_none : (k : Bytes) → lookup k m ≡ none → lookup k next ≡ none
    queued : All (λ j. ((r : TokenRecord) × (lookup j m ≡ some r)) × Below m top j) queue
    reached : (k : Bytes) → Below m top k → Revoked next k ⊎ Any (λ j. Below m j k) queue

  lookup-visit :
      (k cur : Bytes) (r : TokenRecord) (next : Records)
      → lookup k (visit now cur r next) ≡ (
          if not (is_some r.revoked_at) && bytes_eq cur k
          then some (mark_revoked now r)
          else lookup k next)
  unfolding visit
  lookup-visit k cur r next = ground (arith, lookup-put cur k (mark_revoked now r) next)

  visit-IsMap :
      (cur : Bytes) (r : TokenRecord) (next : Records) → IsMap next → IsMap (visit now cur r next)
  unfolding visit
  visit-IsMap cur r next keys = elim (Bool-cases (is_some r.revoked_at)) [
    | inl e ↦ rw e keys
    | inr e ↦ rw e (put-IsMap cur (mark_revoked now r) next keys)
  ]

  -- The record under the key that is visited.
  visit-Revoked_self :
      (cur : Bytes) (r : TokenRecord) (next : Records)
      → lookup cur next ≡ some r
      → Revoked (visit now cur r next) cur
  visit-Revoked_self cur r next e = elim (Bool-cases (is_some r.revoked_at)) [
    | inl d ↦ (r, ground (arith, lookup-visit cur cur r next), d)
    | inr d ↦ (
      mark_revoked now r,
      ground (arith, lookup-visit cur cur r next, bytes_eq_refl cur),
      unfold mark_revoked in refl,
    )
  ]

  visit-Revoked :
      (k cur : Bytes) (r : TokenRecord) (next : Records)
      → Revoked next k
      → Revoked (visit now cur r next) k
  visit-Revoked k cur r next (s, e, d) =
      elim (Bool-cases (not (is_some r.revoked_at) && bytes_eq cur k)) [
        | inl q ↦
            (mark_revoked now r, rw (lookup-visit k cur r next, q), unfold mark_revoked in refl)
        | inr q ↦ (s, rw (lookup-visit k cur r next, q) e, d)
      ]

  visit-Entry :
      (k cur : Bytes) (r s : TokenRecord) (next : Records)
      → lookup cur next ≡ some r
      → Below m top cur
      → Entry next k s
      → Entry (visit now cur r next) k s
  visit-Entry k cur r s next e b x =
      elim (Bool-cases (not (is_some r.revoked_at) && bytes_eq cur k)) [
        | inr q ↦ elim x [
          | inl y ↦ inl (rw (lookup-visit k cur r next, q) y)
          | inr (n, d, y) ↦ inr (n, d, rw (lookup-visit k cur r next, q) y)
        ]
        | inl q ↦
            let same : cur ≡ k = (bytes_eq_iff cur k).0 (ground arith) in
            elim x [
              | inl y ↦
                  let one : r ≡ s = ground arith in
                  inr (
                    ground arith,
                    subst (Below m top) same b,
                    rw (lookup-visit k cur r next, q) (ap (λ z. some (mark_revoked now z)) one),
                  )
              | inr (n, d, y) ↦ absurd (
                  let one : r ≡ mark_revoked now s = ground arith in
                  unfold mark_revoked in ground arith)
            ]
      ]

  State-visit :
      (cur : Bytes) (r : TokenRecord) (next : Records) (queue : List Bytes)
      → EntriesOf m m
      → lookup cur next ≡ some r
      → State next (cur ∷ queue)
      → State (visit now cur r next) (queue ++ children_of m cur)
  State-visit cur r next queue es e s =
      let (here, rest) = s.queued in
      record {
        keys = visit-IsMap cur r next s.keys;
        entries = λ k t f. visit-Entry k cur r t next e here.1 (s.entries k t f);
        adds_none = λ k f.
            let g = s.adds_none k f in
            elim (Bool-cases (bytes_eq cur k)) [
              | inl q ↦ absurd (let same = (bytes_eq_iff cur k).0 q in ground arith)
              | inr q ↦ ground (arith, lookup-visit k cur r next)
            ];
        queued = All-append _ queue (children_of m cur) rest (
            All-map (IsChild m cur) _ (children_of m cur) (children_of-IsChild m m cur es)
              (λ c (t, f, d, p). ((t, f), child here.1 f d p)));
        reached = λ k b. elim (s.reached k b) [
          | inl v ↦ inl (visit-Revoked k cur r next v)
          | inr (inr a) ↦ inr (Any-append (λ j. Below m j k) queue (children_of m cur) (inl a))
          | inr (inl a) ↦ elim (Below-split a) [
            | inl same ↦
                inl (subst (Revoked (visit now cur r next)) same (visit-Revoked_self cur r next e))
            | inr below ↦ inr (Any-append (λ j. Below m j k) queue (children_of m cur) (inr below))
          ]
        ];
      }

  lookup-queued :
      (cur : Bytes) (next : Records) (queue : List Bytes)
      → State next (cur ∷ queue)
      → (r : TokenRecord) × (lookup cur next ≡ some r)
  lookup-queued cur next queue s =
      let ((t, f), b) = s.queued.0 in
      elim (s.entries cur t f) [ inl y ↦ (t, y) | inr (n, d, y) ↦ (mark_revoked now t, y) ]

  -- What the walk leaves: every record below `top` revoked, and each record either as it was or
  -- revoked now and below `top`.
  pub record Cascade (next : Records) : Type 0 where
    pub keys : IsMap next
    pub entries :
        (k : Bytes) (r : TokenRecord)
        → lookup k m ≡ some r
        → (lookup k next ≡ some r)
          ⊎ ((r.revoked_at ≡ none) × Below m top k × (lookup k next ≡ some (mark_revoked now r)))
    pub adds_none : (k : Bytes) → lookup k m ≡ none → lookup k next ≡ none
    pub revokes :
        (k : Bytes)
        → Below m top k
        → (r : TokenRecord) × (lookup k next ≡ some r) × (is_some r.revoked_at ≡ true)

  walk-step :
      (f : ℕ) (next : Records) (cur : Bytes) (r : TokenRecord) (queue : List Bytes) (changed : Bool)
      → lookup cur next ≡ some r
      → walk (suc f) now m next (cur ∷ queue) changed
        ≡ walk f now m
            (visit now cur r next)
            (queue ++ children_of m cur)
            (changed || not (is_some r.revoked_at))
  unfolding walk at_key
  walk-step f next cur r queue changed g =
      ap
        (λ (o : Option TokenRecord).
          walk f now m (visit now cur (at_key o) next) (queue ++ children_of m cur)
            (changed || not (is_some (at_key o).revoked_at)))
        g

  walk-nil :
      (n : ℕ) (next : Records) (changed : Bool)
      → walk n now m next [] changed ≡ some (next, changed)
  unfolding walk
  walk-nil zero next changed = refl
  walk-nil (suc n) next changed = refl

  -- A walk that reports no change has made none.
  abbrev Quiet : Records → Bool → Records → Bool → Type 0
  Quiet next changed next' changed' = changed' ≡ false → (next' ≡ next) × (changed ≡ false)

  Quiet-visit :
      (next next' : Records) (cur : Bytes) (r : TokenRecord) (changed changed' : Bool)
      → Quiet (visit now cur r next) (changed || not (is_some r.revoked_at)) next' changed'
      → Quiet next changed next' changed'
  unfolding visit
  Quiet-visit next next' cur r changed changed' q e =
      let (a, b) = q e in (ground arith, ground arith)

  module _ (bound : ℕ) (linked : IsLinked m)
      (deep : (h : Bytes) (r : TokenRecord) → lookup h m ≡ some r → r.depth ≤ bound) where
    walk-Cascade_from :
        (f : ℕ) (next : Records) (queue : List Bytes) (changed : Bool)
        → State next queue
        → total m bound queue ≤ f
        → (next' : Records) × (changed' : Bool) × (walk f now m next queue changed
            ≡ some (next', changed'))
          × Cascade next'
          × Quiet next changed next' changed'
    walk-Cascade_from f next [] changed s d = (
      next,
      changed,
      walk-nil f next changed,
      record {
        keys = s.keys;
        entries = s.entries;
        adds_none = s.adds_none;
        revokes = λ k b. elim (s.reached k b) [ inl v ↦ v | inr a ↦ absurd a ];
      },
      λ e. (refl, e),
    )
    walk-Cascade_from zero next (cur ∷ queue) changed s d = absurd (
        let ((t, e), b) = s.queued.0 in
        omega (arith, total-visit m bound linked deep cur t queue e))
    walk-Cascade_from (suc f) next (cur ∷ queue) changed s d =
        let ((t, e), b) = s.queued.0 in
        let (r, g) = lookup-queued cur next queue s in
        let less = total-visit m bound linked deep cur t queue e in
        let (next', changed', h, c, q) =
          walk-Cascade_from f (visit now cur r next) (queue ++ children_of m cur)
            (changed || not (is_some r.revoked_at))
            (State-visit cur r next queue (EntriesOf-self m linked.keys) g s) (omega arith) in
        (
          next',
          changed',
          walk-step f next cur r queue changed g ∙ h,
          c,
          Quiet-visit next next' cur r changed changed' q,
        )

    -- From a stored token the walk ends within the cost of one queue entry, and revokes exactly the
    -- token and its descendants that were not revoked before. It reports no change only if it made
    -- none.
    pub walk-Cascade :
        (f : ℕ) (r : TokenRecord)
        → lookup top m ≡ some r
        → total m bound (top ∷ []) ≤ f
        → (next : Records) × (changed : Bool) × (walk f now m m (top ∷ []) false
            ≡ some (next, changed))
          × Cascade next
          × (changed ≡ false → next ≡ m)
    walk-Cascade f r e d =
        let start : State m (top ∷ []) = record {
          keys = linked.keys;
          entries = λ k s g. inl g;
          adds_none = λ k g. g;
          queued = (((r, e), self), tt);
          reached = λ k b. inr (inl b);
        } in
        let (next, changed, h, c, q) = walk-Cascade_from f m (top ∷ []) false start d in
        (next, changed, h, c, λ n. (q n).0)
