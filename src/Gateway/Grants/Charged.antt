-- ===== src/Gateway/Grants/Charged.antt =====
-- What the scopes of a delegation chain say of its links: `claimLimitScopes`.
use forcefield.Base.{◌+◌, length, ◌++◌, ◌⊎◌, ◌≤◌, ◌≡◌, List, ◌<◌, ℕ, [], ◌∷◌}
use forcefield.Tokens.Types.{Limits, Grant, Claims}
use forcefield.Tokens.Types.{LimitScope as ChainLink}
use forcefield.Gateway.Limit.{LimitScope}
use forcefield.Gateway.Grants.Meaning.{OnlyFor}

-- One limit is not above another, where 0 is no limit.
abbrev pub NotAbove : ℕ → ℕ → Type 0
NotAbove child parent = (parent ≡ 0) ⊎ ((0 < child) × (child ≤ parent))

-- One set of limits is nowhere above another; a burst of 0 counts as one request.
pub record Narrower (child parent : Limits) : Type 0 where
  pub rate : NotAbove child.requests_per_second parent.requests_per_second
  pub burst : 0 < parent.requests_per_second → (child.burst ≤ parent.burst) ⊎ (child.burst ≤ 1)
  pub requests : NotAbove child.request_budget parent.request_budget
  pub bytes : NotAbove child.byte_budget parent.byte_budget
  pub body : NotAbove child.max_request_bytes parent.max_request_bytes

-- The scope is that of the link's only grant for the service, which names the credential, the policy
-- and the binding of the present grant.
pub record LinkCharge (current : Grant) (link : ChainLink) (x : LimitScope) : Type 0 where
  pub grant : Grant
  pub only : OnlyFor current.service grant link.grants
  pub credential : grant.credential_ref ≡ current.credential_ref
  pub policy : grant.policy_revision ≡ current.policy_revision
  pub binding : grant.binding_revision ≡ current.binding_revision
  pub limits : x.limits ≡ grant.limits
  pub expires_at : x.expires_at ≡ link.expires_at
  pub key :
      x.key
      ≡ link.token_id
        ++ (0 ∷ current.service
            ++ (0 ∷ current.credential_ref
                ++ (0 ∷ current.policy_revision ++ (0 ∷ current.binding_revision))))

-- One scope for each link, in order, none above the one before and none expiring later.
pub data ChainCharge (current : Grant) : List ChainLink → List LimitScope → Type 0 where
  single :
      {link : ChainLink} {x : LimitScope}
      → LinkCharge current link x
      → ChainCharge current (link ∷ []) (x ∷ [])
  delegated :
      {link : ChainLink} {x y : LimitScope} {chain : List ChainLink} {scopes : List LimitScope}
      → LinkCharge current link x
      → Narrower y.limits x.limits
      → y.expires_at ≤ x.expires_at
      → ChainCharge current chain (y ∷ scopes)
      → ChainCharge current (link ∷ chain) (x ∷ y ∷ scopes)

-- The scopes are those of the whole chain of the claims, from the token's root to the token itself,
-- whose only grant for the service is the present one.
pub record WholeChain (claims : Claims) (current : Grant) (scopes : List LimitScope) : Type 0 where
  pub first : ChainLink
  pub others : List ChainLink
  pub from_root : claims.limit_chain ≡ first ∷ others
  pub root : first.token_id ≡ claims.root_token_id
  pub front : List ChainLink
  pub last : ChainLink
  pub to_token : claims.limit_chain ≡ front ++ last ∷ []
  pub token : last.token_id ≡ claims.token_id
  pub expires_at : last.expires_at ≡ claims.expires_at
  pub own : OnlyFor current.service current last.grants
  pub depth : length claims.limit_chain ≡ claims.depth + 1
  pub charged : ChainCharge current claims.limit_chain scopes
