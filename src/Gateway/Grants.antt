-- ===== src/Gateway/Grants.antt =====
-- internal/gateway/gateway.go: the grant of a service in the claims of a token, and the limits of the
-- token's delegation chain that a request for it is charged to.
pub mod Meaning
pub mod Charged
pub mod Scopes
use forcefield.Base.{[], ◌∷◌, none, some, false}
use forcefield.Tokens.Types.{Limits, Claims, Grant}
use forcefield.Tokens.Types.{LimitScope as ChainLink}
use forcefield.Gateway.Limit.{LimitScope, limits_eq}
use forcefield.Base.{
  leb, ltb, ◌+◌, length, not, if◌then◌else◌, ◌||◌, some, none, ◌==◌, ◌++◌, false, ◌&&◌, List, Bool,
  Option, bytes_eq, Bytes,
}
use Prim.Native.Nat.{ℕ}

unfoldable pub grant_eq : Grant → Grant → Bool
unfolding limits_eq bytes_eq
grant_eq a b =
    bytes_eq a.service b.service
    && bytes_eq a.credential_ref b.credential_ref
    && bytes_eq a.policy_revision b.policy_revision
    && bytes_eq a.binding_revision b.binding_revision
    && limits_eq a.limits b.limits

-- `tokens.Grant{}`
abbrev pub zero_grant : Grant
zero_grant = record {
  service = [];
  credential_ref = [];
  policy_revision = [];
  binding_revision = [];
  limits = record {
    requests_per_second = 0;
    burst = 0;
    request_budget = 0;
    byte_budget = 0;
    max_request_bytes = 0;
  };
}

-- The loop over the grants: the last one of the service, and how many there are.
unfoldable pub grants_for : Bytes → List Grant → Grant → ℕ → Grant × ℕ
unfolding bytes_eq
grants_for service [] found count = (found, count)
grants_for service (g ∷ grants) found count =
    let hit = bytes_eq g.service service in
    grants_for service grants (if hit then g else found) (if hit then count + 1 else count)

unfoldable pub one_grant_for_service : List Grant → Bytes → Grant × Bool
unfolding grants_for
one_grant_for_service grants service =
    let (found, count) = grants_for service grants zero_grant 0 in (found, count == 1)

unfoldable pub limit_no_broader : ℕ → ℕ → Bool
limit_no_broader child parent = parent == 0 || not (child == 0) && leb child parent

unfoldable pub burst_no_broader : Limits → Limits → Bool
burst_no_broader child parent =
    parent.requests_per_second == 0
    || leb (if child.burst == 0 then 1 else child.burst)
        (if parent.burst == 0 then 1 else parent.burst)

unfoldable pub grant_limits_no_broader : Limits → Limits → Bool
unfolding limit_no_broader burst_no_broader
grant_limits_no_broader child parent =
    limit_no_broader child.requests_per_second parent.requests_per_second
    && burst_no_broader child parent
    && limit_no_broader child.request_budget parent.request_budget
    && limit_no_broader child.byte_budget parent.byte_budget
    && limit_no_broader child.max_request_bytes parent.max_request_bytes

-- The same service, credential and revisions.
unfoldable pub same_target : Grant → Grant → Bool
unfolding bytes_eq
same_target g current =
    bytes_eq g.service current.service
    && bytes_eq g.credential_ref current.credential_ref
    && bytes_eq g.policy_revision current.policy_revision
    && bytes_eq g.binding_revision current.binding_revision

unfoldable pub limit_key : Bytes → Grant → Bytes
limit_key token_id current =
    token_id
    ++ (0 ∷ current.service
        ++ (0 ∷ current.credential_ref
            ++ (0 ∷ current.policy_revision ++ (0 ∷ current.binding_revision))))

-- `index > 0` and the limits or the expiry are broader than those of the link before.
unfoldable pub broadens : Option (Limits × ℕ) → Limits → ℕ → Bool
unfolding grant_limits_no_broader
broadens none limits expires_at = false
broadens (some (limits', expires_at')) limits expires_at =
    not (grant_limits_no_broader limits limits') || ltb expires_at' expires_at

unfoldable pub chain_scopes :
    Grant → Option (Limits × ℕ) → List ChainLink → Option (List LimitScope)
unfolding one_grant_for_service same_target broadens limit_key
chain_scopes current previous [] = some []
chain_scopes current previous (link ∷ chain) =
    let (g, one) = one_grant_for_service link.grants current.service in
    let rest = chain_scopes current (some (g.limits, link.expires_at)) chain in
    if not one || not (same_target g current) || broadens previous g.limits link.expires_at
    then none
    else elim rest [
      | none ↦ none
      | some scopes ↦ some (
          record {
            key = limit_key link.token_id current;
            limits = g.limits;
            expires_at = link.expires_at;
          }
          ∷ scopes)
    ]

unfoldable pub last_link : ChainLink → List ChainLink → ChainLink
last_link link [] = link
last_link link (next ∷ chain) = last_link next chain

unfoldable pub claim_limit_scopes : Claims → Grant → Option (List LimitScope)
unfolding chain_scopes last_link one_grant_for_service grant_eq bytes_eq
claim_limit_scopes claims current = elim claims.limit_chain [
  | [] ↦ none
  | first ∷ chain ↦
      let last = last_link first chain in
      if not (length chain + 1 == claims.depth + 1)
        || not (bytes_eq first.token_id claims.root_token_id)
        || not (bytes_eq last.token_id claims.token_id)
      then none
      else elim (chain_scopes current none (first ∷ chain)) [
        | none ↦ none
        | some scopes ↦
            if not (grant_eq (one_grant_for_service last.grants current.service).0 current)
              || not (last.expires_at == claims.expires_at)
            then none
            else some scopes
      ]
]
