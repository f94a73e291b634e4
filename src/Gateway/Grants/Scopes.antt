-- ===== src/Gateway/Grants/Scopes.antt =====
-- internal/gateway/gateway.go: lemmas on what `claimLimitScopes` returns.
use forcefield.Base.{
  sym, bytes_eq, subst, ◌∙◌, ◌==◌, ap, ◌+◌, length, zero, suc, Option-cases, inr, inl, ◌||◌, not,
  refl, ◌++◌, ◌≤◌, arith, Bool-cases, ◌≡◌, List, Option, ℕ, [], ◌∷◌, none, some, true, false,
  bytes_eq_iff,
}
use forcefield.Tokens.Types.{Limits, Grant, Claims}
use forcefield.Tokens.Types.{LimitScope as ChainLink}
use forcefield.Gateway.Limit.{LimitScope}
use forcefield.Gateway.Grants.{
  one_grant_for_service, limit_no_broader, burst_no_broader, grant_limits_no_broader, same_target,
  limit_key, broadens, chain_scopes, last_link, claim_limit_scopes, grant_eq,
}
use forcefield.Gateway.Grants.Meaning.{OnlyFor, one_grant-OnlyFor, grant_eq-equal}
use forcefield.Gateway.Grants.Charged.{
  delegated, single, NotAbove, Narrower, LinkCharge, ChainCharge, WholeChain,
}

not_above : (c p : ℕ) → limit_no_broader c p ≡ true → NotAbove c p
unfolding limit_no_broader
not_above zero zero e = inl refl
not_above zero (suc p) e = absurd (ground arith)
not_above (suc c) zero e = inl refl
not_above (suc c) (suc p) e = inr (omega arith, ground arith)

narrower : (c p : Limits) → grant_limits_no_broader c p ≡ true → Narrower c p
unfolding grant_limits_no_broader burst_no_broader
narrower c p e = record {
  rate = not_above c.requests_per_second p.requests_per_second (ground arith);
  burst = λ h. ground arith;
  requests = not_above c.request_budget p.request_budget (ground arith);
  bytes = not_above c.byte_budget p.byte_budget (ground arith);
  body = not_above c.max_request_bytes p.max_request_bytes (ground arith);
}

-- What one round of the loop has found.
record Round (current : Grant) (previous : Option (Limits × ℕ)) (link : ChainLink)
    (chain : List ChainLink) (scopes : List LimitScope) : Type 0 where
  pub x : LimitScope
  pub rest : List LimitScope
  pub counted : (one_grant_for_service link.grants current.service).1 ≡ true
  pub charge : LinkCharge current link x
  pub fits : broadens previous x.limits x.expires_at ≡ false
  pub others : chain_scopes current (some (x.limits, x.expires_at)) chain ≡ some rest
  pub all : scopes ≡ x ∷ rest

link_charge :
    (current : Grant) (link : ChainLink)
    → (one_grant_for_service link.grants current.service).1 ≡ true
    → same_target (one_grant_for_service link.grants current.service).0 current ≡ true
    → LinkCharge current link record {
      key = limit_key link.token_id current;
      limits = (one_grant_for_service link.grants current.service).0.limits;
      expires_at = link.expires_at;
    }
unfolding same_target limit_key
link_charge current link one same =
    let g = (one_grant_for_service link.grants current.service).0 in
    record {
      grant = g;
      only = one_grant-OnlyFor current.service link.grants one;
      credential = ground (arith, (bytes_eq_iff g.credential_ref current.credential_ref).0);
      policy = ground (arith, (bytes_eq_iff g.policy_revision current.policy_revision).0);
      binding = ground (arith, (bytes_eq_iff g.binding_revision current.binding_revision).0);
      limits = refl;
      expires_at = refl;
      key = refl;
    }

chain_scopes-Round :
    (current : Grant) (previous : Option (Limits × ℕ)) (link : ChainLink) (chain : List ChainLink)
    (scopes : List LimitScope)
    → chain_scopes current previous (link ∷ chain) ≡ some scopes
    → Round current previous link chain scopes
unfolding chain_scopes
chain_scopes-Round current previous link chain scopes e =
    let g = (one_grant_for_service link.grants current.service).0 in
    elim (Bool-cases (
      not (one_grant_for_service link.grants current.service).1
      || not (same_target g current)
      || broadens previous g.limits link.expires_at)) [
        | inl y ↦ absurd (ground arith)
        | inr n ↦
            elim (Option-cases (chain_scopes current (some (g.limits, link.expires_at)) chain)) [
              | inl f ↦ absurd (ground arith)
              | inr (rest, f) ↦ record {
                x = record {
                  key = limit_key link.token_id current;
                  limits = g.limits;
                  expires_at = link.expires_at;
                };
                rest = rest;
                counted = ground arith;
                charge = link_charge current link (ground arith) (ground arith);
                fits = ground arith;
                others = f;
                all = ground arith;
              }
            ]
      ]

narrows : (l m : Limits) (a b : ℕ) → broadens (some (l, a)) m b ≡ false → Narrower m l × (b ≤ a)
unfolding broadens
narrows l m a b e = (narrower m l (ground arith), ground arith)

Round-ChainCharge :
    (current : Grant) (previous : Option (Limits × ℕ)) (link : ChainLink) (chain : List ChainLink)
    (scopes : List LimitScope)
    → Round current previous link chain scopes
    → ChainCharge current (link ∷ chain) scopes
unfolding chain_scopes
Round-ChainCharge current previous link [] scopes k =
    let e : [] ≡ k.rest = ground (arith, k.others) in
    subst (ChainCharge current (link ∷ [])) (sym (k.all ∙ ap (λ z. k.x ∷ z) (sym e)))
      (single k.charge)
Round-ChainCharge current previous link (next ∷ chain) scopes k =
    let before = some (k.x.limits, k.x.expires_at) in
    let n = chain_scopes-Round current before next chain k.rest k.others in
    let (less, sooner) = narrows k.x.limits n.x.limits k.x.expires_at n.x.expires_at n.fits in
    subst (ChainCharge current (link ∷ next ∷ chain)) (sym (k.all ∙ ap (λ z. k.x ∷ z) n.all)) (
      delegated k.charge less sooner (
        subst (ChainCharge current (next ∷ chain)) n.all
          (Round-ChainCharge current before next chain k.rest n)))

last_link-split :
    (link : ChainLink) (chain : List ChainLink)
    → (front : List ChainLink) × (link ∷ chain ≡ front ++ last_link link chain ∷ [])
unfolding last_link
last_link-split link [] = ([], refl)
last_link-split link (next ∷ chain) =
    let (front, e) = last_link-split next chain in (link ∷ front, ap (λ z. link ∷ z) e)

last_counted :
    (current : Grant) (previous : Option (Limits × ℕ)) (link : ChainLink) (chain : List ChainLink)
    (scopes : List LimitScope)
    → Round current previous link chain scopes
    → (one_grant_for_service (last_link link chain).grants current.service).1 ≡ true
unfolding last_link
last_counted current previous link [] scopes k = k.counted
last_counted current previous link (next ∷ chain) scopes k =
    let before = some (k.x.limits, k.x.expires_at) in
    last_counted current before next chain k.rest
      (chain_scopes-Round current before next chain k.rest k.others)

chain-WholeChain :
    (claims : Claims) (current : Grant) (first : ChainLink) (chain : List ChainLink)
    (scopes : List LimitScope)
    → claims.limit_chain ≡ first ∷ chain
    → length chain + 1 ≡ claims.depth + 1
    → first.token_id ≡ claims.root_token_id
    → (last_link first chain).token_id ≡ claims.token_id
    → (last_link first chain).expires_at ≡ claims.expires_at
    → (one_grant_for_service (last_link first chain).grants current.service).0 ≡ current
    → chain_scopes current none (first ∷ chain) ≡ some scopes
    → WholeChain claims current scopes
chain-WholeChain claims current first chain scopes e d root token expires own h =
    let last = last_link first chain in
    let k = chain_scopes-Round current none first chain scopes h in
    let (front, f) = last_link-split first chain in
    record {
      first = first;
      others = chain;
      from_root = e;
      root = root;
      front = front;
      last = last;
      to_token = e ∙ f;
      token = token;
      expires_at = expires;
      own =
          subst (λ z. OnlyFor current.service z last.grants) own
            (one_grant-OnlyFor current.service last.grants
              (last_counted current none first chain scopes k));
      depth = omega (arith, ap length e, d);
      charged =
          subst (λ z. ChainCharge current z scopes) (sym e)
            (Round-ChainCharge current none first chain scopes k);
    }

pub claim_limit_scopes-WholeChain :
    (claims : Claims) (current : Grant) (scopes : List LimitScope)
    → claim_limit_scopes claims current ≡ some scopes
    → WholeChain claims current scopes
unfolding claim_limit_scopes
claim_limit_scopes-WholeChain claims current scopes h = whole claims.limit_chain refl h
  where
    whole :
        (links : List ChainLink)
        → claims.limit_chain ≡ links
        → claim_limit_scopes (record claims { limit_chain = links }) current ≡ some scopes
        → WholeChain claims current scopes
    whole [] e h = absurd (ground arith)
    whole (first ∷ chain) e h =
        let last = last_link first chain in
        let own = (one_grant_for_service last.grants current.service).0 in
        elim (Bool-cases (
          not (length chain + 1 == claims.depth + 1)
          || not (bytes_eq first.token_id claims.root_token_id)
          || not (bytes_eq last.token_id claims.token_id))) [
            | inl y ↦ absurd (ground arith)
            | inr n ↦ elim (Option-cases (chain_scopes current none (first ∷ chain))) [
              | inl f ↦ absurd (ground arith)
              | inr (found, f) ↦
                  elim (Bool-cases
                    (not (grant_eq own current) || not (last.expires_at == claims.expires_at))) [
                      | inl y ↦ absurd (ground arith)
                      | inr m ↦
                          chain-WholeChain claims current first chain scopes e (ground arith)
                            ((bytes_eq_iff first.token_id claims.root_token_id).0 (ground arith))
                            ((bytes_eq_iff last.token_id claims.token_id).0 (ground arith))
                            (ground arith) (grant_eq-equal own current (ground arith))
                            (ground arith)
                    ]
            ]
          ]
