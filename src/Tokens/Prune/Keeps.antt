-- ===== src/Tokens/Prune/Keeps.antt =====
-- The result of `pruneInactive`.
use forcefield.Base.{
  ℕ, zero, suc, ◌<◌, ◌≡◌, refl, sym, ap, subst, ◌∙◌, inl, inr, Bool, true, false, not, none, some,
  List, [], ◌∷◌, arith, Bool-cases, Option-cases, Bytes, bytes_eq_iff, lookup, length, retain,
  keep_if, IsMap, lookup-retain, retain-IsMap, EntriesOf-self, count_entries-le,
}
use forcefield.Tokens.Types.{TokenRecord, Records}
use forcefield.Tokens.Lineage.{IsLinked}
use forcefield.Tokens.Chain.{inactive, Stale, here, above}
use forcefield.Tokens.Prune.{mem_hash, seeds, newly_removed, spread, kept, is_empty, prune_inactive}
use forcefield.Tokens.Prune.Rounds.{seeds-Sound, Sound, Closed, spread-Closed}

-- The records of `m` that are not stale, and no others.
pub record Pruned (m : Records) (now : ℕ) (m' : Records) : Type 0 where
  pub drops :
      (h : Bytes) (r : TokenRecord) → lookup h m ≡ some r → Stale m now r → lookup h m' ≡ none
  pub keeps :
      (h : Bytes) (r : TokenRecord) → lookup h m ≡ some r → ¬ Stale m now r → lookup h m' ≡ some r
  pub adds_none : (h : Bytes) → lookup h m ≡ none → lookup h m' ≡ none

module _ (m : Records) (now : ℕ) where
  Closed-lookup :
      (part : Records) (s : List Bytes) (h : Bytes) (r : TokenRecord)
      → Closed m now part s
      → lookup h part ≡ some r
      → newly_removed h r s ≡ false
  unfolding lookup
  Closed-lookup [] s h r c e = ground arith
  Closed-lookup ((j, w) ∷ part) s h r (c, cs) e =
      ground (arith, bytes_eq_iff j h, Closed-lookup part s h r cs)

  seeds-mem :
      (part : Records) (h : Bytes) (r : TokenRecord)
      → lookup h part ≡ some r
      → inactive now r ≡ true
      → mem_hash h (seeds now part) ≡ true
  unfolding lookup seeds mem_hash
  seeds-mem [] h r e i = ground arith
  seeds-mem ((j, w) ∷ part) h r e i = ground (arith, bytes_eq_iff j h, seeds-mem part h r)

  newly_removed-mem :
      (h : Bytes) (r : TokenRecord) (s : List Bytes)
      → newly_removed h r s ≡ false
      → 0 < r.depth
      → mem_hash r.parent s ≡ true
      → mem_hash h s ≡ true
  unfolding newly_removed
  newly_removed-mem h r s n d e = ground arith

  -- A set that holds the inactive records and is closed under children holds every stale record.
  Stale-mem :
      {r : TokenRecord} (s : List Bytes) (h : Bytes)
      → Stale m now r
      → lookup h m ≡ some r
      → Closed m now m s
      → ((j : Bytes) → mem_hash j (seeds now m) ≡ true → mem_hash j s ≡ true)
      → mem_hash h s ≡ true
  Stale-mem {r} s h (here i) e c up = up h (seeds-mem m h r e i)
  Stale-mem {r} s h (above d f st) e c up =
      newly_removed-mem h r s (Closed-lookup m s h r c e) d (Stale-mem s r.parent st f c up)

  retained : List Bytes → Records
  retained s = retain (λ h r. not (mem_hash h s)) m

  lookup-retained :
      (s : List Bytes) (h : Bytes)
      → IsMap m
      → lookup h (retained s) ≡ keep_if (λ r. not (mem_hash h s)) (lookup h m)
  unfolding retained
  lookup-retained s h keys = lookup-retain (λ h r. not (mem_hash h s)) h m keys

  retained-Pruned :
      (s : List Bytes)
      → IsMap m
      → Sound m now s
      → Closed m now m s
      → ((j : Bytes) → mem_hash j (seeds now m) ≡ true → mem_hash j s ≡ true)
      → Pruned m now (retained s)
  retained-Pruned s keys k c up = record {
    drops = λ h r e st. ground (arith, lookup-retained s h keys, Stale-mem s h st e c up);
    keeps = λ h r e n. elim (Bool-cases (mem_hash h s)) [
      | inl d ↦
          let (q, f, st) = k h d in absurd (n (subst (Stale m now) (let x = f in ground arith) st))
      | inr d ↦ ground (arith, lookup-retained s h keys)
    ];
    adds_none = λ h e. ground (arith, lookup-retained s h keys);
  }

  not_empty_mem : (s : List Bytes) → is_empty s ≡ true → (h : Bytes) → mem_hash h s ≡ false
  unfolding mem_hash
  not_empty_mem [] e h = refl
  not_empty_mem (x ∷ s) e h = ground arith

  Closed-empty :
      (part : Records) (s : List Bytes) → ((h : Bytes) → mem_hash h s ≡ false) → Closed m now part s
  Closed-empty [] s n = tt
  Closed-empty ((h, r) ∷ part) s n =
      (unfold newly_removed in ground (arith, n r.parent), Closed-empty part s n)

  -- With no inactive record nothing is stale, and the records stay as they are.
  unchanged-Pruned : is_empty (seeds now m) ≡ true → Pruned m now m
  unchanged-Pruned e = record {
    drops = λ h r f st.
        let none_there = not_empty_mem (seeds now m) e in
        let there =
          Stale-mem (seeds now m) h st f (Closed-empty m (seeds now m) none_there) (λ j d. d) in
        absurd (let x = none_there h in ground arith);
    keeps = λ h r f n. f;
    adds_none = λ h f. f;
  }

  -- `pruneInactive` returns, and keeps exactly the records of which neither they nor an ancestor is
  -- revoked or has expired; it reports no change only if it made none.
  pub prune_inactive-Pruned :
      IsMap m
      → (m' : Records) × (changed : Bool) × (prune_inactive m now ≡ some (m', changed))
        × Pruned m now m'
        × IsMap m'
        × (changed ≡ false → m' ≡ m)
  prune_inactive-Pruned keys = elim (Bool-cases (is_empty (seeds now m))) [
    | inl e ↦ (m, false, prune_none e, unchanged-Pruned e, keys, λ _. refl)
    | inr e ↦
        let es = EntriesOf-self m keys in
        let (s, f, k, c, up) =
          spread-Closed m now (suc (length m)) (seeds now m) es (seeds-Sound m now m es)
            (omega (arith, count_entries-le (λ h r. not (mem_hash h (seeds now m))) m)) in
        (
          retained s,
          true,
          prune_some s e f,
          retained-Pruned s keys k c up,
          unfold retained in retain-IsMap _ m keys,
          λ d. absurd (ground arith),
        )
  ]
    where
      prune_none : is_empty (seeds now m) ≡ true → prune_inactive m now ≡ some (m, false)
      prune_none e = unfold prune_inactive in rw e

      prune_some :
          (s : List Bytes)
          → is_empty (seeds now m) ≡ false
          → spread (suc (length m)) m (seeds now m) ≡ some s
          → prune_inactive m now ≡ some (retained s, true)
      prune_some s e f = unfold prune_inactive kept retained in rw (e, f)

module _ (m m' : Records) (now : ℕ) (linked : IsLinked m) (p : Pruned m now m') where
  pub kept_from :
      (h : Bytes) (r : TokenRecord)
      → lookup h m' ≡ some r
      → (lookup h m ≡ some r) × (¬ Stale m now r)
  kept_from h r e = elim (Option-cases (lookup h m)) [
    | inl n ↦ absurd (let x = p.adds_none h n in ground arith)
    | inr (q, f) ↦
        let fresh : ¬ Stale m now q = λ st. let x = p.drops h q f st in ground arith in
        let same : q ≡ r = let x = p.keeps h q f fresh in ground arith in
        (f ∙ ap some same, subst (λ z. ¬ Stale m now z) same fresh)
  ]

  -- The root of a record that is not stale is not stale.
  root_fresh :
      (f : ℕ) (h : Bytes) (r q : TokenRecord)
      → lookup h m ≡ some r
      → r.depth < f
      → ¬ Stale m now r
      → lookup r.root m ≡ some q
      → ¬ Stale m now q
  root_fresh zero h r q e d n o = absurd (omega arith)
  root_fresh (suc f) h r q e d n o = elim (linked.linked h r e).lineage [
    | inl (z, s, _) ↦
        let same : r ≡ q = let x = s in ground arith in subst (λ x. ¬ Stale m now x) same n
    | inr (u, g, c) ↦
        let k = c.depth in
        root_fresh f r.parent u q g (omega arith) (λ st. n (above (omega arith) g st))
          (subst (λ x. lookup x m ≡ some q) (sym c.root) o)
  ]

  -- What is left of a linked store is linked.
  pub Pruned-IsLinked : IsMap m' → IsLinked m'
  Pruned-IsLinked keys = record {
    keys = keys;
    linked = λ h r e.
        let (f, n) = kept_from h r e in
        let l = linked.linked h r f in
        let (q, o, z, s) = l.origin in
        record {
          lineage = elim l.lineage [
            | inl x ↦ inl x
            | inr (u, g, c) ↦
                let k = c.depth in
                inr (u, p.keeps r.parent u g (λ st. n (above (omega arith) g st)), c)
          ];
          origin =
              (q, p.keeps r.root q o (root_fresh (suc r.depth) h r q f (omega arith) n o), z, s);
        };
  }
