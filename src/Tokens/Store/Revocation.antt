-- ===== src/Tokens/Store/Revocation.antt =====
-- `Revoke` and `RevokeTokenID`: the token and everything below it are withdrawn.
use forcefield.Base.{
  reject-ok, ℕ, ◌+◌, ◌≡◌, refl, subst, ◌∙◌, inl, inr, Bool, true, false, some, arith, if◌then◌else◌,
  Option-cases, is_some, Bytes, Result, ok, err, lookup,
}
use forcefield.Library.{Codec}
use forcefield.Tokens.Types.{StoreError, invalid_token, Records, Store}
use forcefield.Tokens.Id.{parse_token_id}
use forcefield.Tokens.Lineage.{IsLinked}
use forcefield.Tokens.Validate.{hash_token, well_formed_bearer}
use forcefield.Tokens.Store.{
  World, lift, or_diverges, was_inactive, cascade, revoke_hash, revoke, revoke_token_id,
}
use forcefield.Tokens.Store.Ends.{
  IsValid, Ends, Ends-continue, Ends-lift, AfterPrune, StillValid, Ends-gets, Ends-weaken, Ends-map,
  prune_locked-Ends, enter-Ends,
}
use forcefield.Tokens.Store.Delegation.{or_diverges-ok}
use forcefield.Tokens.Store.Withdrawal.{
  Withdrawn, Lapsed, Cascaded, cascade-Ends, Cascaded-Withdrawn, lapsed-Withdrawn,
  was_inactive-Lapsed,
}

-- The end of `revokeHash`, once the lapsed tokens are dropped.
module _ (w : World) (hash : Bytes) (s s₁ : Store) (v : IsValid s) (a : AfterPrune s w.now s₁) where
  finish_revoke-Ends :
      (lapsed : Bool)
      → Lapsed s.records w.now hash (some lapsed)
      → Ends
          (λ _ s'. Withdrawn s w.now hash s')
          (StillValid s.opts)
          ((if is_some (lookup hash s₁.records)
              then cascade w hash
              else if lapsed
              then lift (ok tt)
              else lift (err invalid_token))
            s₁)
  finish_revoke-Ends lapsed x = elim (Option-cases (lookup hash s₁.records)) [
    | inr (r, e) ↦ rw e (
        Ends-weaken (λ _ s'. Cascaded s₁ w.now hash s') (λ _ s'. Withdrawn s w.now hash s')
          (StillValid s₁.opts) (StillValid s.opts) (cascade w hash s₁)
          (cascade-Ends w hash s₁ r a.valid e)
          (λ _ s' c. Cascaded-Withdrawn s s₁ w.now hash v a s' r e c)
          (λ s' c. record { valid = c.valid; opts = c.opts ∙ a.opts }))
    | inl e ↦ rw e (absent lapsed x)
  ]
    where
      absent :
          (b : Bool)
          → Lapsed s.records w.now hash (some b)
          → Ends
              (λ _ s'. Withdrawn s w.now hash s')
              (StillValid s.opts)
              ((if b then lift {A = Unit {0}} (ok tt) else lift (err invalid_token)) s₁)
      absent true (r, f, st) = lapsed-Withdrawn s s₁ w.now hash v a r f st
      absent false f = record { valid = a.valid; opts = a.opts }

was_inactive-some :
    (m : Records) (now : ℕ) (hash : Bytes) (b : Bool)
    → IsLinked m
    → or_diverges (was_inactive m now hash) ≡ ok b
    → Lapsed m now hash (some b)
was_inactive-some m now hash b l e =
    subst (Lapsed m now hash) (or_diverges-ok _ _ e) (was_inactive-Lapsed m now hash l)

pub revoke_hash-Ends :
    (w : World) (look : ℕ) (hash : Bytes) (s : Store)
    → IsValid s
    → Ends (λ _ s'. Withdrawn s w.now hash s') (StillValid s.opts) (revoke_hash w look hash s)
unfolding revoke_hash
revoke_hash-Ends w look hash s v =
    let Q : Unit {0} → Store → Type 0 = λ _ s'. Withdrawn s w.now hash s' in
    let E = StillValid s.opts in
    let same : StillValid s.opts s = record { valid = v; opts = refl } in
    let Q₁ : Bool → Store → Type 0 =
      λ b s'. (s' ≡ s) × (or_diverges (was_inactive s.records w.now hash) ≡ ok b) in
    Ends-lift Q E _ _ s same λ _ _.
      Ends-continue Q E (λ _ s'. s' ≡ s) _ _
        (enter-Ends (λ _ s'. s' ≡ s) E w (look + 1) s same refl)
        λ _ s₀ e₀. rw e₀ (
          Ends-continue Q E Q₁ _ _
            (Ends-gets Q₁ E _ _ s (reads (or_diverges (was_inactive s.records w.now hash)) same))
            λ b s₂ (e₂, x). rw e₂ (
              Ends-continue Q E (λ _ s'. AfterPrune s w.now s') _ _ (prune_locked-Ends w s v)
                λ _ s₁ a. Ends-gets Q E _ _ s₁ (
                  finish_revoke-Ends w hash s s₁ v a b
                    (was_inactive-some s.records w.now hash b v.linked x))))
  where
    reads :
        (r : Result StoreError Bool)
        → StillValid s.opts s
        → Ends (λ b s'. (s' ≡ s) × (r ≡ ok b)) (StillValid s.opts) (s, r)
    reads (ok b) k = (refl, refl)
    reads (err e) k = k

-- `Revoke`: a success means that the bearer is well formed and that the token of its digest is
-- withdrawn.
pub revoke-Ends :
    (c : Codec) (w : World) (bearer : Bytes) (s : Store)
    → IsValid s
    → Ends
        (λ _ s'. (well_formed_bearer c bearer ≡ true) × Withdrawn s w.now (c.sha256 bearer) s')
        (StillValid s.opts)
        (revoke c w bearer s)
unfolding revoke hash_token
revoke-Ends c w bearer s v =
    let Q : Unit {0} → Store → Type 0 =
      λ _ s'. (well_formed_bearer c bearer ≡ true) × Withdrawn s w.now (c.sha256 bearer) s' in
    let E = StillValid s.opts in
    let same : StillValid s.opts s = record { valid = v; opts = refl } in
    Ends-lift Q E _ _ s same λ _ _. Ends-lift Q E _ _ s same λ _ h.
      Ends-map (λ _ s'. Withdrawn s w.now (c.sha256 bearer) s') Q E
        (revoke_hash w 1 (c.sha256 bearer) s) (revoke_hash-Ends w 1 (c.sha256 bearer) s v)
        λ _ s' x. (let y = reject-ok _ _ h in ground arith, x)

parse_token_id-decodes :
    (c : Codec) (id hash : Bytes) → parse_token_id c id ≡ ok hash → c.hex_decode id ≡ some hash
unfolding parse_token_id
parse_token_id-decodes c id hash h = ground arith

-- `RevokeTokenID`: a success means that the identifier is a digest in hexadecimal and that its
-- token is withdrawn.
pub revoke_token_id-Ends :
    (c : Codec) (w : World) (id : Bytes) (s : Store)
    → IsValid s
    → Ends
        (λ _ s'. (hash : Bytes) × (c.hex_decode id ≡ some hash) × Withdrawn s w.now hash s')
        (StillValid s.opts)
        (revoke_token_id c w id s)
unfolding revoke_token_id
revoke_token_id-Ends c w id s v =
    let Q : Unit {0} → Store → Type 0 =
      λ _ s'. (hash : Bytes) × (c.hex_decode id ≡ some hash) × Withdrawn s w.now hash s' in
    let E = StillValid s.opts in
    let same : StillValid s.opts s = record { valid = v; opts = refl } in
    Ends-lift Q E _ _ s same λ hash h.
      Ends-map (λ _ s'. Withdrawn s w.now hash s') Q E (revoke_hash w 0 hash s)
        (revoke_hash-Ends w 0 hash s v) λ _ s' x. (hash, parse_token_id-decodes c id hash h, x)
