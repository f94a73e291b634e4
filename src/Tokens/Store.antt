-- ===== src/Tokens/Store.antt =====
-- internal/tokens/store.go: the operations of the store. Each runs under the store's lock, so it is a
-- function from the store to the store and a result.
pub mod Ends
pub mod Issue
pub mod Delegation
pub mod Withdrawal
pub mod Revocation
pub mod Validation
pub mod Roundtrip
pub mod Samples
mod Tests
use forcefield.Base.{
  ℕ, zero, suc, ◌+◌, ◌-◌, ◌≤◌, ◌<◌, ◌≡◌, refl, Bool, true, false, not, ◌&&◌, ◌||◌, Option, none,
  some, List, [], ◌∷◌, ◌++◌, arith, leb, ltb, ◌==◌, if◌then◌else◌, is_some, Bytes, bytes_eq, length,
  get_or, Result, ok, err, reject, check, lookup, put, has_key, count_entries,
}
use forcefield.Library.{Text, Codec}
use forcefield.Tokens.Types.{
  StoreError, invalid_token, invalid_request, delegation_not_allowed, expiry_broadening,
  grant_broadening, delegation_depth, child_limit, root_token_limit, entropy, store_closed,
  diverges, Grant, TokenRecord, Records, MintRequest, DelegateRequest, ValidationRequest,
  LimitScope, Claims, IssuedToken, Options, Store, bearer_prefix, zero_hash,
}
use forcefield.Tokens.Grants.{grants_are_subset}
use forcefield.Tokens.Bounds.{direct_child_count, root_token_count}
use forcefield.Tokens.Id.{parse_token_id}
use forcefield.Tokens.Lineage.{Checked}
use forcefield.Tokens.Chain.{record_or_ancestor_inactive}
use forcefield.Tokens.Validate.{well_formed_bearer, hash_token, validate_locked}
use forcefield.Tokens.Prune.{prune_inactive}
use forcefield.Tokens.Revoke.{walk, cost}
use forcefield.Tokens.Request.{validate_identifier, validate_binding, validate_grant_set}
use forcefield.Tokens.Persist.{Disk, Encoder, persist, ensure_append_capacity}

-- What one call meets: the clock, the error of the context at each look at it, the random bytes of
-- each attempt (`none`: the read failed), and the disk at each of its two writes.
pub record World : Type 0 where
  pub now : ℕ
  pub context_error : ℕ → Option StoreError
  pub random : ℕ → Option Bytes
  pub encode : Encoder
  pub prune_disk : Disk
  pub commit_disk : Disk

abbrev pub M : Type 0 → Type 0
M A = Store → Store × Result StoreError A

-- What follows a step: it runs on the state that the step left, unless the step failed.
pub continue :
    {A B : Type 0} → (A → M B) → Store × Result StoreError A → Store × Result StoreError B
continue f (s, ok a) = f a s
continue f (s, err e) = (s, err e)

infixl 5 ◌>>=◌ ◌>>◌
abbrev pub ◌>>=◌ : {A B : Type 0} → M A → (A → M B) → M B
◌>>=◌ m f s = continue f (m s)

abbrev pub ◌>>◌ : {B : Type 0} → M Unit → M B → M B
m >> k = m >>= λ _. k

abbrev pub lift : {A : Type 0} → Result StoreError A → M A
lift r s = (s, r)

abbrev pub gets : {A : Type 0} → (Store → A) → M A
gets f s = (s, ok (f s))

abbrev pub or_diverges : {A : Type 0} → Option A → Result StoreError A
or_diverges none = err diverges
or_diverges (some a) = ok a

-- `committed, err := s.persist(next); if committed { s.records = next }; return err`
pub install : Records → Bool × Checked → M Unit
install next (committed, e) s = ((if committed then record s { records = next } else s), e)

pub prune_locked : World → M Unit
unfolding install persist prune_inactive
prune_locked w = do
  (next, changed) ← gets (λ s. prune_inactive s.records w.now) >>= λ o. lift (or_diverges o)
  (if not changed then lift (ok tt) else λ s.
      install next (persist w.prune_disk s.opts w.encode next) s)

-- The tests at the head of an operation, once the lock is held.
pub enter : World → ℕ → M Unit
enter w look = do
  closed ← gets (λ s. s.closed)
  lift (reject closed store_closed)
  lift (check (w.context_error look))

-- `generateUniqueTokenLocked`: eight attempts.
pub generate : Codec → World → Records → ℕ → ℕ → Result StoreError (Bytes × Bytes)
unfolding hash_token has_key
generate c w m zero attempt = err entropy
generate c w m (suc n) attempt = elim (w.random attempt) [
  | none ↦ err entropy
  | some random ↦
      let bearer = bearer_prefix ++ c.base64_encode random in
      let hash = hash_token c bearer in
      let again = generate c w m n (attempt + 1) in
      if has_key hash m then again else ok (bearer, hash)
]

pub limit_scope : Codec → TokenRecord → LimitScope
limit_scope c r = record {
  token_id = c.hex_encode r.hash;
  expires_at = r.expires_at;
  grants = r.grants;
}

-- The loop of `claimsFromRecord`, from `index` down; `none` where an ancestor is missing.
pub limit_scopes : Codec → Records → ℕ → TokenRecord → Option (List LimitScope)
unfolding limit_scope
limit_scopes c m zero current = some (limit_scope c current ∷ [])
limit_scopes c m (suc index) current = elim (lookup current.parent m) [
  | none ↦ none
  | some p ↦ elim (limit_scopes c m index p) [
    | none ↦ none
    | some chain ↦ some (chain ++ limit_scope c current ∷ [])
  ]
]

pub claims_from_record : Codec → TokenRecord → Records → Claims
unfolding limit_scopes
claims_from_record c r m = record {
  token_id = c.hex_encode r.hash;
  parent_token_id = if ltb 0 r.depth then c.hex_encode r.parent else [];
  root_token_id = c.hex_encode r.root;
  workload = r.workload;
  audience = r.audience;
  issued_at = r.issued_at;
  expires_at = r.expires_at;
  grants = r.grants;
  allow_delegation = r.allow_delegation;
  depth = r.depth;
  revoked_at = r.revoked_at;
  limit_chain = elim (limit_scopes c m r.depth r) [ none ↦ [] | some chain ↦ chain ];
}

-- The end of `Mint` and `Delegate`: the new record is added, written and installed.
pub append : Codec → World → Bytes → TokenRecord → M IssuedToken
unfolding ensure_append_capacity install persist claims_from_record put
append c w bearer r = do
  m ← gets (λ s. s.records)
  o ← gets (λ s. s.opts)
  let next = put r.hash r m
  lift (ensure_append_capacity o w.encode next)
  install next (persist w.commit_disk o w.encode next)
  lift (ok (record { bearer = bearer; claims = claims_from_record c r next }))

-- `expiresAt.IsZero() || !expiresAt.After(now)`
pub check_expiry : ℕ → ℕ → Checked
check_expiry now expires_at = reject (expires_at == 0 || not (ltb now expires_at)) invalid_request

pub root_record : MintRequest → ℕ → Bytes → TokenRecord
root_record req now hash = record {
  hash = hash;
  parent = zero_hash;
  root = hash;
  workload = req.workload;
  audience = req.audience;
  issued_at = now;
  expires_at = req.expires_at;
  grants = req.grants;
  allow_delegation = req.allow_delegation;
  depth = 0;
  revoked_at = none;
}

pub mint : Text → Codec → World → MintRequest → M IssuedToken
unfolding validate_binding validate_grant_set enter prune_locked check_expiry generate append
    root_record
mint t c w req = do
  lift (check (w.context_error 0))
  lift (validate_binding t req.workload req.audience)
  max_grants ← gets (λ s. s.opts.max_grants_per_token)
  lift (validate_grant_set t req.grants max_grants)
  enter w 1
  prune_locked w
  lift (check_expiry w.now req.expires_at)
  m ← gets (λ s. s.records)
  (bearer, hash) ← lift (generate c w m 8 0)
  append c w bearer (root_record req w.now hash)

pub child_record : DelegateRequest → ℕ → TokenRecord → Bytes → TokenRecord
child_record req now parent hash = record {
  hash = hash;
  parent = parent.hash;
  root = parent.root;
  workload = req.workload;
  audience = parent.audience;
  issued_at = now;
  expires_at = req.expires_at;
  grants = req.grants;
  allow_delegation = req.allow_delegation;
  depth = parent.depth + 1;
  revoked_at = none;
}

-- The record of a result of `validateLocked` that is valid.
pub accepted : TokenRecord × Bool → Result StoreError TokenRecord
accepted (r, valid) = if valid then ok r else err invalid_token

-- The tests of `Delegate` against the parent.
pub check_delegation : Options → Records → World → TokenRecord → DelegateRequest → M Unit
unfolding check_expiry direct_child_count root_token_count grants_are_subset
check_delegation o m w parent req = do
  lift (reject (not parent.allow_delegation) delegation_not_allowed)
  lift (reject (ltb o.max_delegation_depth (parent.depth + 1)) delegation_depth)
  lift (check_expiry w.now req.expires_at)
  lift (reject (ltb parent.expires_at req.expires_at) expiry_broadening)
  lift (reject (not (grants_are_subset req.grants parent.grants)) grant_broadening)
  lift (reject (leb o.max_children_per_token (direct_child_count m parent.hash)) child_limit)
  lift (reject (leb o.max_tokens_per_root (root_token_count m parent.root)) root_token_limit)

-- The request for the parent that `Delegate` makes of `validateLocked`.
pub caller_request : DelegateRequest → ValidationRequest
caller_request req = record { workload = req.caller_workload; audience = req.audience }

pub delegate : Text → Codec → World → Bytes → DelegateRequest → M IssuedToken
unfolding validate_binding validate_identifier validate_grant_set enter prune_locked validate_locked
    accepted caller_request check_delegation generate append child_record
delegate t c w parent_bearer req = do
  lift (check (w.context_error 0))
  lift (validate_binding t req.caller_workload req.audience)
  lift (validate_identifier t req.workload 512)
  max_grants ← gets (λ s. s.opts.max_grants_per_token)
  lift (validate_grant_set t req.grants max_grants)
  enter w 1
  prune_locked w
  m ← gets (λ s. s.records)
  o ← gets (λ s. s.opts)
  found ← lift (or_diverges (validate_locked c m parent_bearer (caller_request req) w.now))
  parent ← lift (accepted found)
  check_delegation o m w parent req
  (bearer, hash) ← lift (generate c w m 8 0)
  append c w bearer (child_record req w.now parent hash)

pub validate : Codec → World → Bytes → ValidationRequest → M Claims
unfolding enter validate_locked accepted claims_from_record
validate c w bearer req = do
  lift (check (w.context_error 0))
  enter w 1
  m ← gets (λ s. s.records)
  found ← lift (or_diverges (validate_locked c m bearer req w.now))
  r ← lift (accepted found)
  lift (ok (claims_from_record c r m))

-- The walk of `revokeHash`, with fuel for the deepest tree that the options allow, and the write.
pub cascade : World → Bytes → M Unit
unfolding walk cost install persist
cascade w hash = do
  m ← gets (λ s. s.records)
  o ← gets (λ s. s.opts)
  (next, changed) ←
      lift (or_diverges (walk (cost (length m) o.max_delegation_depth) w.now m m (hash ∷ []) false))
  (if not changed then lift (ok tt) else install next (persist w.commit_disk o w.encode next))

-- Whether the token had lapsed before the call.
pub was_inactive : Records → ℕ → Bytes → Option Bool
unfolding record_or_ancestor_inactive
was_inactive m now hash = elim (lookup hash m) [
  | none ↦ some false
  | some r ↦ record_or_ancestor_inactive (suc r.depth) m now r
]

pub revoke_hash : World → ℕ → Bytes → M Unit
unfolding enter was_inactive prune_locked cascade
revoke_hash w look hash = do
  lift (check (w.context_error look))
  enter w (look + 1)
  lapsed ← gets (λ s. was_inactive s.records w.now hash) >>= λ o. lift (or_diverges o)
  prune_locked w
  m ← gets (λ s. s.records)
  (if is_some (lookup hash m)
      then cascade w hash
      else if lapsed
      then lift (ok tt)
      else lift (err invalid_token))

pub revoke : Codec → World → Bytes → M Unit
unfolding well_formed_bearer hash_token revoke_hash
revoke c w bearer = do
  lift (check (w.context_error 0))
  lift (reject (not (well_formed_bearer c bearer)) invalid_token)
  revoke_hash w 1 (hash_token c bearer)

pub revoke_token_id : Codec → World → Bytes → M Unit
unfolding parse_token_id revoke_hash
revoke_token_id c w id = do hash ← lift (parse_token_id c id); revoke_hash w 0 hash

pub close : M Unit
close s = (record s { closed = true }, ok tt)
