-- ===== src/Tokens/Store/Withdrawal.antt =====
-- What a revocation withdraws: the lapsed tokens that it drops, and the cascade over the rest.
use forcefield.Base.{
  ℕ, suc, ◌≡◌, refl, sym, ap, subst, ◌∙◌, inl, inr, Bool, true, false, not, Option, none, some,
  arith, if◌then◌else◌, Option-cases, is_some, Bytes, length, ok, lookup,
}
use forcefield.Tokens.Types.{TokenRecord, Records, Store}
use forcefield.Tokens.Lineage.{IsLinked}
use forcefield.Tokens.Chain.{Stale, above, record_or_ancestor_inactive-Answers, Answers, parent_of}
use forcefield.Tokens.Prune.Keeps.{Pruned, kept_from}
use forcefield.Tokens.Revoke.{cost, Below, self, child}
use forcefield.Tokens.Revoke.Cost.{total-start}
use forcefield.Tokens.Revoke.Walk.{Cascade, walk-Cascade}
use forcefield.Tokens.Revoke.Linked.{
  Revision, Revision-same, revised_from, revised_to, revoked-Below, Cascade-IsLinked,
}
use forcefield.Tokens.Persist.{persist, persist-committed}
use forcefield.Tokens.Store.{World, lift, install, was_inactive, cascade}
use forcefield.Tokens.Store.Ends.{
  IsValid, Ends, Ends-lift, install-Ends, with_records, AfterPrune, StillValid, Ends-gets,
}
use forcefield.Tokens.Store.Delegation.{or_diverges-ok}

-- What a successful revocation of the token `hash` leaves. Every token of the result was there
-- before, with the same claims; those at and below `hash` are gone or revoked; those that are not
-- below it and had not lapsed are as they were.
pub record Withdrawn (s : Store) (now : ℕ) (hash : Bytes) (s' : Store) : Type 0 where
  pub valid : IsValid s'
  pub opts : s'.opts ≡ s.opts
  pub known : (r : TokenRecord) × (lookup hash s.records ≡ some r)
  pub revises :
      (k : Bytes) (r' : TokenRecord)
      → lookup k s'.records ≡ some r'
      → (r : TokenRecord) × (lookup k s.records ≡ some r) × Revision r r'
  pub dead :
      (k : Bytes) (r' : TokenRecord)
      → Below s.records hash k
      → lookup k s'.records ≡ some r'
      → is_some r'.revoked_at ≡ true
  pub untouched :
      (k : Bytes) (r : TokenRecord)
      → lookup k s.records ≡ some r
      → ¬ Stale s.records now r
      → ¬ Below s.records hash k
      → lookup k s'.records ≡ some r

module _ (m m' : Records) (now : ℕ) (l : IsLinked m) (p : Pruned m now m') where
  -- A token that pruning kept stands below the same tokens as before.
  Below-kept :
      {top k : Bytes} (q : TokenRecord) → Below m top k → lookup k m' ≡ some q → Below m' top k
  Below-kept q self e = self
  Below-kept {top} {k} q (child {j = j} {r = r} b f d g) e =
      let (f', fresh) = kept_from m m' now l p k q e in
      let same : r ≡ q = ground arith in
      let (u, x, c) = parent_of m now l k r f (ground arith) in
      let fresh_r = subst (λ x. ¬ Stale m now x) (sym same) fresh in
      let up = p.keeps r.parent u x (λ st. fresh_r (above d x st)) in
      child {r = r} (Below-kept u b (subst (λ x. lookup x m' ≡ some u) g up))
        (e ∙ ap some (sym same)) d g

  Below-before : {top k : Bytes} → Below m' top k → Below m top k
  Below-before self = self
  Below-before {top} {k} (child {r = r} b f d g) =
      child (Below-before b) (kept_from m m' now l p k r f).0 d g

  -- A token that had lapsed takes everything below it along.
  Below-lapsed :
      {top k : Bytes} (q r : TokenRecord)
      → lookup top m ≡ some q
      → Stale m now q
      → Below m top k
      → lookup k m ≡ some r
      → Stale m now r
  Below-lapsed q r e st self f = subst (Stale m now) (ground arith) st
  Below-lapsed {top} {k} q r e st (child {j = j} {r = x} b f d g) h =
      let same : x ≡ r = ground arith in
      let (u, y, c) = parent_of m now l k x f (ground arith) in
      let z = Below-lapsed q u e st b (subst (λ i. lookup i m ≡ some u) g y) in
      subst (Stale m now) same (above d y z)

-- The test made before the lapsed tokens are dropped.
abbrev pub Lapsed : Records → ℕ → Bytes → Option Bool → Type 0
Lapsed m now hash none = ⊥
Lapsed m now hash (some true) = (r : TokenRecord) × (lookup hash m ≡ some r) × Stale m now r
Lapsed m now hash (some false) = (r : TokenRecord) → lookup hash m ≡ some r → ¬ Stale m now r

Lapsed-found :
    (m : Records) (now : ℕ) (l : IsLinked m) (hash : Bytes) (r : TokenRecord) (o : Option Bool)
    → lookup hash m ≡ some r
    → Answers m now l (Stale m now r) o
    → Lapsed m now hash o
Lapsed-found m now l hash r none e a = a
Lapsed-found m now l hash r (some true) e a = (r, e, a)
Lapsed-found m now l hash r (some false) e a = λ q f st. a (subst (Stale m now) (ground arith) st)

pub was_inactive-Lapsed :
    (m : Records) (now : ℕ) (hash : Bytes)
    → IsLinked m
    → Lapsed m now hash (was_inactive m now hash)
unfolding was_inactive
was_inactive-Lapsed m now hash l = elim (Option-cases (lookup hash m)) [
  | inl n ↦ rw (n, was_inactive) (λ r e. absurd (ground arith))
  | inr (r, e) ↦
      rw (e, was_inactive)
        (Lapsed-found m now l hash r _ e
          (record_or_ancestor_inactive-Answers m now l (suc r.depth) hash r e (omega arith)))
]

-- The cascade alone, from a valid store in which the token is found.
pub record Cascaded (s : Store) (now : ℕ) (hash : Bytes) (s' : Store) : Type 0 where
  pub valid : IsValid s'
  pub opts : s'.opts ≡ s.opts
  pub effect : Cascade s.records now hash s'.records

Cascade-Cascaded :
    (s : Store) (now : ℕ) (hash : Bytes) (next : Records)
    → IsValid s
    → Cascade s.records now hash next
    → Cascaded s now hash (with_records s next)
Cascade-Cascaded s now hash next v c = record {
  valid = record {
    linked = Cascade-IsLinked s.records now hash next c v.linked;
    named = λ h r e.
        let (q, f, u) = revised_from s.records now hash next c h r e in u.hash ∙ v.named h q f;
    deep = λ h r e.
        let (q, f, u) = revised_from s.records now hash next c h r e in
        let x = v.deep h q f in let y = u.depth in omega arith;
  };
  opts = refl;
  effect = c;
}

-- The result of the walk, and what it reports.
abbrev Marked : Store → ℕ → Bytes → Records × Bool → Type 0
Marked s now hash (next, changed) =
    Cascade s.records now hash next × (changed ≡ false → next ≡ s.records)

install_cascade-Ends :
    (w : World) (hash : Bytes) (s : Store) (next : Records) (changed : Bool)
    → IsValid s
    → Marked s w.now hash (next, changed)
    → Ends
        (λ _ s'. Cascaded s w.now hash s')
        (StillValid s.opts)
        ((if not changed
            then lift (ok tt)
            else install next (persist w.commit_disk s.opts w.encode next))
          s)
install_cascade-Ends w hash s next true v (c, quiet) =
    let done = Cascade-Cascaded s w.now hash next v c in
    install-Ends (λ _ s'. Cascaded s w.now hash s') (StillValid s.opts) next
      (persist w.commit_disk s.opts w.encode next) s
      (persist-committed w.commit_disk s.opts w.encode next) done
      (record { valid = v; opts = refl }) (record { valid = done.valid; opts = refl })
install_cascade-Ends w hash s next false v (c, quiet) = record {
  valid = v;
  opts = refl;
  effect = subst (Cascade s.records w.now hash) (quiet refl) c;
}

pub cascade-Ends :
    (w : World) (hash : Bytes) (s : Store) (r : TokenRecord)
    → IsValid s
    → lookup hash s.records ≡ some r
    → Ends (λ _ s'. Cascaded s w.now hash s') (StillValid s.opts) (cascade w hash s)
unfolding cascade
cascade-Ends w hash s r v e =
    let Q : Unit {0} → Store → Type 0 = λ _ s'. Cascaded s w.now hash s' in
    let E = StillValid s.opts in
    let old : StillValid s.opts s = record { valid = v; opts = refl } in
    let (next, changed, f, c, quiet) =
      walk-Cascade s.records w.now hash s.opts.max_delegation_depth v.linked v.deep
        (cost (length s.records) s.opts.max_delegation_depth) r e
        (total-start s.records s.opts.max_delegation_depth hash) in
    Ends-gets Q E _ _ s (
      Ends-gets Q E _ _ s (
        Ends-lift Q E _ _ s old λ (next', changed') h.
          install_cascade-Ends w hash s next' changed' v (
            subst (Marked s w.now hash) (let g = or_diverges-ok _ _ h in ground arith)
              (let x : Marked s w.now hash (next, changed) = (c, quiet) in x))))

module _ (s s₁ : Store) (now : ℕ) (hash : Bytes) (v : IsValid s) (a : AfterPrune s now s₁) where
  pub Cascaded-Withdrawn :
      (s' : Store) (r : TokenRecord)
      → lookup hash s₁.records ≡ some r
      → Cascaded s₁ now hash s'
      → Withdrawn s now hash s'
  Cascaded-Withdrawn s' r e c =
      let from = kept_from s.records s₁.records now v.linked a.pruned in
      let back = revised_from s₁.records now hash s'.records c.effect in
      record {
        valid = c.valid;
        opts = c.opts ∙ a.opts;
        known = (r, (from hash r e).0);
        revises = λ k r' f. let (q, g, u) = back k r' f in (q, (from k q g).0, u);
        dead = λ k r' b f.
            let (q, g, u) = back k r' f in
            revoked-Below s₁.records now hash s'.records c.effect k r' f
              (Below-kept s.records s₁.records now v.linked a.pruned q b g);
        untouched = λ k q f fresh outside.
            let (q', g, _, from_where) =
              revised_to s₁.records now hash s'.records c.effect k q (a.pruned.keeps k q f fresh) in
            elim from_where [
              | inl same ↦ g ∙ ap some (sym same)
              | inr b ↦ absurd (outside (Below-before s.records s₁.records now v.linked a.pruned b))
            ];
      }

  pub lapsed-Withdrawn :
      (r : TokenRecord)
      → lookup hash s.records ≡ some r
      → Stale s.records now r
      → Withdrawn s now hash s₁
  lapsed-Withdrawn r e st =
      let from = kept_from s.records s₁.records now v.linked a.pruned in
      record {
        valid = a.valid;
        opts = a.opts;
        known = (r, e);
        revises = λ k r' f. (r', (from k r' f).0, Revision-same r' r' refl);
        dead = λ k r' b f. absurd (
            (from k r' f).1 (
              Below-lapsed s.records s₁.records now v.linked a.pruned r r' e st b (from k r' f).0));
        untouched = λ k q f fresh outside. a.pruned.keeps k q f fresh;
      }
