-- ===== src/Tokens/Revoke/Linked.antt =====
-- internal/tokens/store.go: the records that `revokeHash` leaves form a linked store again.
use forcefield.Base.{
  ℕ, ◌≡◌, refl, sym, subst, ◌∙◌, ◌⊎◌, inl, inr, true, some, arith, Option-cases, is_some, Bytes,
  lookup,
}
use forcefield.Tokens.Types.{TokenRecord, Records}
use forcefield.Tokens.Lineage.{IsLinked, ChildOf}
use forcefield.Tokens.Revoke.{mark_revoked, Below, child}
use forcefield.Tokens.Revoke.Walk.{Cascade}

-- What a revocation may do to a record: nothing but set the time of its revocation.
pub record Revision (r r' : TokenRecord) : Type 0 where
  pub hash : r'.hash ≡ r.hash
  pub parent : r'.parent ≡ r.parent
  pub root : r'.root ≡ r.root
  pub audience : r'.audience ≡ r.audience
  pub expiry : r'.expires_at ≡ r.expires_at
  pub grants : r'.grants ≡ r.grants
  pub delegable : r'.allow_delegation ≡ r.allow_delegation
  pub depth : r'.depth ≡ r.depth
  pub revoked : is_some r.revoked_at ≡ true → is_some r'.revoked_at ≡ true

pub Revision-same : (r r' : TokenRecord) → r ≡ r' → Revision r r'
Revision-same r r' e = subst (Revision r) e (record {
  hash = refl;
  parent = refl;
  root = refl;
  audience = refl;
  expiry = refl;
  grants = refl;
  delegable = refl;
  depth = refl;
  revoked = λ h. h;
})

Revision-mark : (now : ℕ) (r r' : TokenRecord) → mark_revoked now r ≡ r' → Revision r r'
unfolding mark_revoked
Revision-mark now r r' e = subst (Revision r) e (record {
  hash = refl;
  parent = refl;
  root = refl;
  audience = refl;
  expiry = refl;
  grants = refl;
  delegable = refl;
  depth = refl;
  revoked = λ h. refl;
})

module _ (m : Records) (now : ℕ) (top : Bytes) (next : Records) (c : Cascade m now top next) where
  -- Where a record of the result comes from.
  pub revised_from :
      (h : Bytes) (r' : TokenRecord)
      → lookup h next ≡ some r'
      → (r : TokenRecord) × (lookup h m ≡ some r) × Revision r r'
  revised_from h r' e = elim (Option-cases (lookup h m)) [
    | inl n ↦ absurd (let x = c.adds_none h n in ground arith)
    | inr (r, f) ↦ elim (c.entries h r f) [
      | inl x ↦ (r, f, Revision-same r r' (ground arith))
      | inr (_, _, x) ↦ (r, f, Revision-mark now r r' (ground arith))
    ]
  ]

  -- What becomes of a record: it is revised, and only one below `top` is revoked anew.
  pub revised_to :
      (h : Bytes) (r : TokenRecord)
      → lookup h m ≡ some r
      → (r' : TokenRecord) × (lookup h next ≡ some r') × Revision r r' × ((r ≡ r') ⊎ Below m top h)
  revised_to h r e = elim (c.entries h r e) [
    | inl x ↦ (r, x, Revision-same r r refl, inl refl)
    | inr (_, b, x) ↦ (mark_revoked now r, x, Revision-mark now r _ refl, inr b)
  ]

  -- A record below `top` is revoked afterwards.
  pub revoked-Below :
      (h : Bytes) (r' : TokenRecord)
      → lookup h next ≡ some r'
      → Below m top h
      → is_some r'.revoked_at ≡ true
  revoked-Below h r' e b = let (r, f, d) = c.revokes h b in ground arith

  child-revised :
      (h : Bytes) (r r' p p' : TokenRecord)
      → lookup h m ≡ some r
      → lookup h next ≡ some r'
      → Revision r r'
      → Revision p p'
      → (p ≡ p') ⊎ Below m top r.parent
      → ChildOf r p
      → ChildOf r' p'
  child-revised h r r' p p' e e' v u from k = record {
    depth = let x = k.depth in let y = u.depth in let z = v.depth in omega arith;
    root = u.root ∙ k.root ∙ sym v.root;
    delegable = u.delegable ∙ k.delegable;
    audience = v.audience ∙ k.audience ∙ sym u.audience;
    expiry = let x = k.expiry in let y = u.expiry in let z = v.expiry in omega arith;
    grants = let x = k.grants in let y = u.grants in let z = v.grants in rw (y, z) x;
    cascade = λ d. elim from [
      | inl same ↦
          v.revoked
            (k.cascade (subst (λ (x : TokenRecord). is_some x.revoked_at ≡ true) (sym same) d))
      | inr b ↦ let deep = k.depth in revoked-Below h r' e' (child {r = r} b e (omega arith) refl)
    ];
  }

  -- The result is linked: no record loses its parent or its root, and none is left unrevoked below
  -- one that is revoked.
  pub Cascade-IsLinked : IsLinked m → IsLinked next
  Cascade-IsLinked l = record {
    keys = c.keys;
    linked = λ h r' e.
        let (r, f, v) = revised_from h r' e in
        let k = l.linked h r f in
        let (q, o, z, s) = k.origin in
        let (q', o', u, _) = revised_to r.root q o in
        record {
          lineage = elim k.lineage [
            | inl (d, a, b) ↦ inl (v.depth ∙ d, v.root ∙ a, v.parent ∙ b)
            | inr (p, g, d) ↦
                let (p', g', w, from) = revised_to r.parent p g in
                inr (
                  p',
                  subst (λ x. lookup x next ≡ some p') (sym v.parent) g',
                  child-revised h r r' p p' f e v w from d,
                )
          ];
          origin = (
            q',
            subst (λ x. lookup x next ≡ some q') (sym v.root) o',
            u.depth ∙ z,
            u.root ∙ s ∙ sym v.root,
          );
        };
  }
