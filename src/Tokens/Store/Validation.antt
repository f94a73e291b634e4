-- ===== src/Tokens/Store/Validation.antt =====
-- `Validate`: what an accepted bearer stands for, the claims that are returned, and that a withdrawn
-- token is never accepted again.
use forcefield.Base.{
  ap, ℕ, zero, suc, ◌<◌, ◌≡◌, refl, sym, subst, ◌≢◌, true, some, List, [], ◌∷◌, ◌++◌, arith, Bytes,
  length, length-append, Result, ok, lookup,
}
use forcefield.Library.{Codec}
use forcefield.Tokens.Types.{
  StoreError, TokenRecord, Records, Store, Claims, LimitScope, ValidationRequest,
}
use forcefield.Tokens.Lineage.{IsLinked}
use forcefield.Tokens.Chain.{here, inactive, parent_of}
use forcefield.Tokens.Validate.{well_formed_bearer, Authentic}
use forcefield.Tokens.Revoke.{Below}
use forcefield.Tokens.Store.{World, limit_scope, limit_scopes, claims_from_record, validate, revoke}
use forcefield.Tokens.Store.Ends.{
  IsValid, Ends, Ends-continue, Ends-lift, Ends-gets, StillValid, enter-Ends,
}
use forcefield.Tokens.Store.Delegation.{accepted-Authentic, or_diverges-ok}
use forcefield.Tokens.Store.Withdrawal.{Withdrawn}
use forcefield.Tokens.Store.Revocation.{revoke-Ends}

-- What one scope of the chain says of its record.
pub record ScopeOf (c : Codec) (r : TokenRecord) (x : LimitScope) : Type 0 where
  pub token_id : x.token_id ≡ c.hex_encode r.hash
  pub expires_at : x.expires_at ≡ r.expires_at
  pub grants : x.grants ≡ r.grants

-- The chain of limits from the root to the record: one scope for each record on the way up.
pub data ChainOf (c : Codec) (m : Records) : TokenRecord → List LimitScope → Type 0 where
  root : {r : TokenRecord} {x : LimitScope} → r.depth ≡ 0 → ScopeOf c r x → ChainOf c m r (x ∷ [])
  below :
      {r p : TokenRecord} {chain : List LimitScope} {x : LimitScope}
      → 0 < r.depth
      → lookup r.parent m ≡ some p
      → ChainOf c m p chain
      → ScopeOf c r x
      → ChainOf c m r (chain ++ x ∷ [])

limit_scope-ScopeOf : (c : Codec) (r : TokenRecord) → ScopeOf c r (limit_scope c r)
unfolding limit_scope
limit_scope-ScopeOf c r = record { token_id = refl; expires_at = refl; grants = refl }

limit_scopes_up :
    (c : Codec) (m : Records) (n : ℕ) (r p : TokenRecord) (chain : List LimitScope)
    → lookup r.parent m ≡ some p
    → limit_scopes c m n p ≡ some chain
    → limit_scopes c m (suc n) r ≡ some (chain ++ limit_scope c r ∷ [])
unfolding limit_scopes
limit_scopes_up c m n r p chain e f = rw (e, limit_scopes) (rw f)

-- In a linked store the loop finds the whole chain.
pub limit_scopes-ChainOf :
    (c : Codec) (m : Records) (l : IsLinked m) (n : ℕ) (h : Bytes) (r : TokenRecord)
    → lookup h m ≡ some r
    → r.depth ≡ n
    → (chain : List LimitScope) × (limit_scopes c m n r ≡ some chain)
      × ChainOf c m r chain
      × (length chain ≡ suc n)
limit_scopes-ChainOf c m l zero h r e d = (
  limit_scope c r ∷ [],
  unfold limit_scopes in refl,
  root d (limit_scope-ScopeOf c r),
  omega arith,
)
limit_scopes-ChainOf c m l (suc n) h r e d =
    let (p, f, k) = parent_of m 0 l h r e (ground arith) in
    let x = k.depth in
    let (chain, g, o, len) = limit_scopes-ChainOf c m l n r.parent p f (omega arith) in
    (
      chain ++ limit_scope c r ∷ [],
      limit_scopes_up c m n r p chain f g,
      below (omega arith) f o (limit_scope-ScopeOf c r),
      omega (arith, length-append chain (limit_scope c r ∷ [])),
    )

-- The claims say of the token what its record does.
pub record ClaimsOf (c : Codec) (digest : Bytes) (r : TokenRecord) (claims : Claims) : Type 0 where
  pub token_id : claims.token_id ≡ c.hex_encode digest
  pub root_token_id : claims.root_token_id ≡ c.hex_encode r.root
  pub root_parent : r.depth ≡ 0 → claims.parent_token_id ≡ []
  pub child_parent : 0 < r.depth → claims.parent_token_id ≡ c.hex_encode r.parent
  pub workload : claims.workload ≡ r.workload
  pub audience : claims.audience ≡ r.audience
  pub issued_at : claims.issued_at ≡ r.issued_at
  pub expires_at : claims.expires_at ≡ r.expires_at
  pub grants : claims.grants ≡ r.grants
  pub allow_delegation : claims.allow_delegation ≡ r.allow_delegation
  pub depth : claims.depth ≡ r.depth
  pub revoked_at : claims.revoked_at ≡ r.revoked_at

claims_from_record-ClaimsOf :
    (c : Codec) (digest : Bytes) (r : TokenRecord) (m : Records)
    → r.hash ≡ digest
    → ClaimsOf c digest r (claims_from_record c r m)
unfolding claims_from_record
claims_from_record-ClaimsOf c digest r m h = record {
  token_id = ap c.hex_encode h;
  root_token_id = refl;
  root_parent = λ d. ground arith;
  child_parent = λ d. ground arith;
  workload = refl;
  audience = refl;
  issued_at = refl;
  expires_at = refl;
  grants = refl;
  allow_delegation = refl;
  depth = refl;
  revoked_at = refl;
}

-- What the claims of an accepted token say, taken from the store: the record that the bearer stands
-- for, and the limits of it and each of its ancestors, the root's first.
pub record Accepted (c : Codec) (m : Records) (now : ℕ) (bearer : Bytes) (req : ValidationRequest)
    (claims : Claims) : Type 0 where
  pub holder : TokenRecord
  pub authentic : Authentic c m now bearer req holder
  pub says : ClaimsOf c (c.sha256 bearer) holder claims
  pub chain : ChainOf c m holder claims.limit_chain
  pub chain_length : length claims.limit_chain ≡ suc holder.depth

limit_chain_found :
    (c : Codec) (m : Records) (r : TokenRecord) (chain : List LimitScope)
    → limit_scopes c m r.depth r ≡ some chain
    → (claims_from_record c r m).limit_chain ≡ chain
unfolding claims_from_record
limit_chain_found c m r chain e = rw (e, claims_from_record)

Authentic-Accepted :
    (c : Codec) (m : Records) (now : ℕ) (bearer : Bytes) (req : ValidationRequest) (r : TokenRecord)
    → IsLinked m
    → ((h : Bytes) (q : TokenRecord) → lookup h m ≡ some q → q.hash ≡ h)
    → Authentic c m now bearer req r
    → Accepted c m now bearer req (claims_from_record c r m)
Authentic-Accepted c m now bearer req r l named a =
    let (chain, e, o, len) = limit_scopes-ChainOf c m l r.depth (c.sha256 bearer) r a.stored refl in
    record {
      holder = r;
      authentic = a;
      says =
          claims_from_record-ClaimsOf c (c.sha256 bearer) r m (named (c.sha256 bearer) r a.stored);
      chain = subst (ChainOf c m r) (sym (limit_chain_found c m r chain e)) o;
      chain_length = rw (limit_chain_found c m r chain e) len;
    }

-- `Validate` never changes the store. From a valid store, if it succeeds, the bearer is well formed
-- and its digest stored, the request's workload and audience are given and match the record's,
-- neither the record nor an ancestor is revoked or has expired. The claims have the digest as the
-- token's identifier, and the record's root, parent, workload, audience, issue, expiry, grants,
-- permission to delegate, depth and revocation; and their chain of limits has, from the root to the
-- record, the identifier, the expiry and the grants of each record on the way, and nothing else.
pub validate-Ends :
    (c : Codec) (w : World) (bearer : Bytes) (req : ValidationRequest) (s : Store)
    → IsValid s
    → Ends
        (λ claims s'. (s' ≡ s) × Accepted c s.records w.now bearer req claims)
        (λ s'. s' ≡ s)
        (validate c w bearer req s)
unfolding validate
validate-Ends c w bearer req s v =
    let Q : Claims → Store → Type 0 =
      λ claims s'. (s' ≡ s) × Accepted c s.records w.now bearer req claims in
    let E : Store → Type 0 = λ s'. s' ≡ s in
    Ends-lift Q E _ _ s refl λ _ _.
      Ends-continue Q E (λ _ s'. s' ≡ s) _ _ (enter-Ends (λ _ s'. s' ≡ s) E w 1 s refl refl)
        λ _ s₀ e₀. rw e₀ (
          Ends-gets Q E _ _ s (
            Ends-lift Q E _ _ s refl λ found h₁. Ends-lift Q E _ _ s refl λ r h₂. (
              refl,
              Authentic-Accepted c s.records w.now bearer req r v.linked v.named (
                  accepted-Authentic c s.records w.now bearer req found r v.linked
                    (or_diverges-ok _ _ h₁) h₂),
            )))

-- Once a token is withdrawn, no bearer of it or of a descendant is authentic, at any time.
Withdrawn-Authentic :
    (s s' : Store) (now later : ℕ) (c : Codec) (hash bearer : Bytes) (req : ValidationRequest)
    (r : TokenRecord)
    → Withdrawn s now hash s'
    → Below s.records hash (c.sha256 bearer)
    → ¬ Authentic c s'.records later bearer req r
Withdrawn-Authentic s s' now later c hash bearer req r x b a =
    let d = x.dead (c.sha256 bearer) r b a.stored in
    a.fresh (here {r = r} (unfold inactive in ground arith))

-- A result that is a success, for the proofs below.
pub ends_ok :
    {A : Type 0} (Q : A → Store → Type 0) (E : Store → Type 0) (o : Store × Result StoreError A)
    (s : Store) (a : A)
    → Ends Q E o
    → o ≡ (s, ok a)
    → Q a s
ends_ok Q E o s a h e = subst (Ends Q E) e h

-- After a successful `Revoke`, `Validate` accepts neither the bearer nor a bearer of a descendant,
-- whatever the time, the context and the bindings of the request.
pub revoke-validate :
    (c : Codec) (w later : World) (bearer other : Bytes) (req : ValidationRequest) (s s' t : Store)
    (claims : Claims)
    → IsValid s
    → revoke c w bearer s ≡ (s', ok tt)
    → Below s.records (c.sha256 bearer) (c.sha256 other)
    → validate c later other req s' ≢ (t, ok claims)
revoke-validate c w later bearer other req s s' t claims v e b f =
    let x =
      (ends_ok (λ u t. (well_formed_bearer c bearer ≡ true) × Withdrawn s w.now (c.sha256 bearer) t)
        (StillValid s.opts) (revoke c w bearer s) s' tt (revoke-Ends c w bearer s v) e).1 in
    let a =
      (ends_ok (λ i t. (t ≡ s') × Accepted c s'.records later.now other req i) (λ t. t ≡ s')
        (validate c later other req s') t claims (validate-Ends c later other req s' x.valid)
        f).1 in
    Withdrawn-Authentic s s' w.now later.now c (c.sha256 bearer) other req a.holder x b a.authentic
