-- ===== src/Tokens/Grants/Order.antt =====
-- The order on grants: what a passed `grantsAreSubset` says of each grant, and transitivity.
use forcefield.Base.{
  ℕ, ◌≤◌, ◌≡◌, refl, sym, subst, ◌∙◌, ◌⊎◌, inl, inr, true, Option, none, some, List, [], ◌∷◌, arith,
  ◌==◌, if◌then◌else◌, Option-cases, bytes_eq_iff, All, Any,
}
use forcefield.Tokens.Types.{Limits, Grant}
use forcefield.Tokens.Grants.{
  limit_no_broader, burst_no_broader, limits_no_broader, same_identity, parent_grant, narrows,
  grants_are_subset, limit_no_broader_trans, Permits, limit_no_broader→Permits,
}

-- The requests that a limit lets through at once.
abbrev pub effective_burst : Limits → ℕ
effective_burst l = if l.burst == 0 then 1 else l.burst

-- `p` permits whatever `g` permits, over the same service, credential and revisions.
pub record Within (g p : Grant) : Type 0 where
  pub service : g.service ≡ p.service
  pub credential_ref : g.credential_ref ≡ p.credential_ref
  pub policy_revision : g.policy_revision ≡ p.policy_revision
  pub binding_revision : g.binding_revision ≡ p.binding_revision
  pub rate :
      (n : ℕ) → Permits g.limits.requests_per_second n → Permits p.limits.requests_per_second n
  pub burst :
      (p.limits.requests_per_second ≡ 0) ⊎ (effective_burst g.limits ≤ effective_burst p.limits)
  pub requests : (n : ℕ) → Permits g.limits.request_budget n → Permits p.limits.request_budget n
  pub volume : (n : ℕ) → Permits g.limits.byte_budget n → Permits p.limits.byte_budget n
  pub size : (n : ℕ) → Permits g.limits.max_request_bytes n → Permits p.limits.max_request_bytes n

same_identity_eq :
    (g p : Grant)
    → same_identity g p ≡ true
    → (g.service ≡ p.service)
      × (g.credential_ref ≡ p.credential_ref)
      × (g.policy_revision ≡ p.policy_revision)
      × (g.binding_revision ≡ p.binding_revision)
unfolding same_identity
same_identity_eq g p h = ground (
  arith,
  bytes_eq_iff g.service p.service,
  bytes_eq_iff g.credential_ref p.credential_ref,
  bytes_eq_iff g.policy_revision p.policy_revision,
  bytes_eq_iff g.binding_revision p.binding_revision,
)

same_identity-same :
    (g p q : Grant) → same_identity g p ≡ true → same_identity g q ≡ same_identity p q
unfolding same_identity
same_identity-same g p q h =
    let (a, b, c, d) = same_identity_eq g p h in rw (same_identity, a, b, c, d)

-- Grants of one identity find the same parent.
parent_grant-same :
    (g p : Grant) (ps : List Grant)
    → same_identity g p ≡ true
    → parent_grant g ps ≡ parent_grant p ps
unfolding parent_grant
parent_grant-same g p [] h = refl
parent_grant-same g p (q ∷ ps) h =
    ground (arith, parent_grant-same g p ps h, same_identity-same g p q h)

parent_grant-identity :
    (g p : Grant) (ps : List Grant) → parent_grant g ps ≡ some p → same_identity g p ≡ true
unfolding parent_grant
parent_grant-identity g p [] h = ground arith
parent_grant-identity g p (q ∷ ps) h = ground (arith, parent_grant-identity g p ps)

-- The parent that is found stands in the list, so what holds of all grants there holds of it.
parent_grant-All :
    (P : Grant → Type 0) (g p : Grant) (ps : List Grant)
    → parent_grant g ps ≡ some p
    → All P ps
    → P p
unfolding parent_grant
parent_grant-All P g p [] h a = ground arith
parent_grant-All P g p (q ∷ ps) h a = elim (Option-cases (parent_grant g ps)) [
  | inl e ↦ ground arith
  | inr (r, e) ↦ parent_grant-All P g p ps (ground arith) a.1
]

narrows→parent :
    (g : Grant) (o : Option Grant)
    → narrows g o ≡ true
    → (p : Grant) × (o ≡ some p) × (limits_no_broader g.limits p.limits ≡ true)
unfolding narrows
narrows→parent g none h = ground arith
narrows→parent g (some p) h = (p, refl, h)

limits_no_broader_trans :
    (a b c : Limits)
    → limits_no_broader a b ≡ true
    → limits_no_broader b c ≡ true
    → limits_no_broader a c ≡ true
unfolding limits_no_broader burst_no_broader
limits_no_broader_trans a b c h k = ground (
  arith,
  limit_no_broader_trans a.requests_per_second b.requests_per_second c.requests_per_second,
  limit_no_broader_trans a.request_budget b.request_budget c.request_budget,
  limit_no_broader_trans a.byte_budget b.byte_budget c.byte_budget,
  limit_no_broader_trans a.max_request_bytes b.max_request_bytes c.max_request_bytes,
)

burst_no_broader_effective :
    (a b : Limits)
    → burst_no_broader a b ≡ true
    → (b.requests_per_second ≡ 0) ⊎ (effective_burst a ≤ effective_burst b)
unfolding burst_no_broader
burst_no_broader_effective a b h = ground arith

limits_parts :
    (a b : Limits)
    → limits_no_broader a b ≡ true
    → (limit_no_broader a.requests_per_second b.requests_per_second ≡ true)
      × (burst_no_broader a b ≡ true)
      × (limit_no_broader a.request_budget b.request_budget ≡ true)
      × (limit_no_broader a.byte_budget b.byte_budget ≡ true)
      × (limit_no_broader a.max_request_bytes b.max_request_bytes ≡ true)
unfolding limits_no_broader
limits_parts a b h = ground arith

Within-parent :
    (g p : Grant) (ps : List Grant)
    → parent_grant g ps ≡ some p
    → limits_no_broader g.limits p.limits ≡ true
    → Within g p
Within-parent g p ps e h =
    let (a, b, c, d) = same_identity_eq g p (parent_grant-identity g p ps e) in
    let (r, u, q, v, s) = limits_parts g.limits p.limits h in
    record {
      service = a;
      credential_ref = b;
      policy_revision = c;
      binding_revision = d;
      rate = λ n. limit_no_broader→Permits _ _ n r;
      burst = burst_no_broader_effective g.limits p.limits u;
      requests = λ n. limit_no_broader→Permits _ _ n q;
      volume = λ n. limit_no_broader→Permits _ _ n v;
      size = λ n. limit_no_broader→Permits _ _ n s;
    }

Within-Any :
    (g p : Grant) (ps : List Grant) → parent_grant g ps ≡ some p → Within g p → Any (Within g) ps
unfolding parent_grant
Within-Any g p [] e w = absurd (ground arith)
Within-Any g p (q ∷ ps) e w = elim (Option-cases (parent_grant g ps)) [
  | inl n ↦ let same : q ≡ p = ground arith in inl (subst (Within g) (sym same) w)
  | inr (r, n) ↦ inr (Within-Any g p ps (ground arith) w)
]

-- When the test on grant lists passes, each grant of the child lies within a grant of the parent:
-- the same service, credential, policy and binding revisions, and under each limit nothing that
-- the parent's limit does not permit.
pub grants_are_subset-Within :
    (child parent : List Grant)
    → grants_are_subset child parent ≡ true
    → All (λ g. Any (Within g) parent) child
unfolding grants_are_subset
grants_are_subset-Within [] ps h = tt
grants_are_subset-Within (g ∷ gs) ps h =
    let (p, e, n) = narrows→parent g (parent_grant g ps) (ground arith) in
    (Within-Any g p ps e (Within-parent g p ps e n), grants_are_subset-Within gs ps (ground arith))

-- One grant of a list that is a subset of `ps` is narrowed by its parent there.
subset-All :
    (gs ps : List Grant)
    → grants_are_subset gs ps ≡ true
    → All (λ g. narrows g (parent_grant g ps) ≡ true) gs
unfolding grants_are_subset
subset-All [] ps h = tt
subset-All (g ∷ gs) ps h = (ground arith, subset-All gs ps (ground arith))

narrows-some :
    (g p : Grant) (o : Option Grant)
    → o ≡ some p
    → limits_no_broader g.limits p.limits ≡ true
    → narrows g o ≡ true
unfolding narrows
narrows-some g p o e h = rw e h

-- The test is transitive: a list within the parent's, which is within the grandparent's, is within
-- the grandparent's.
pub grants_are_subset_trans :
    (a b c : List Grant)
    → grants_are_subset a b ≡ true
    → grants_are_subset b c ≡ true
    → grants_are_subset a c ≡ true
unfolding grants_are_subset
grants_are_subset_trans [] b c h k = refl
grants_are_subset_trans (g ∷ gs) b c h k =
    let (p, e, n) = narrows→parent g (parent_grant g b) (ground arith) in
    let up =
      parent_grant-All (λ q. narrows q (parent_grant q c) ≡ true) g p b e (subset-All b c k) in
    let (q, f, m) = narrows→parent p (parent_grant p c) up in
    let same = parent_grant-same g p c (parent_grant-identity g p b e) in
    let step =
      narrows-some g q (parent_grant g c) (same ∙ f)
        (limits_no_broader_trans g.limits p.limits q.limits n m) in
    ground (arith, step, grants_are_subset_trans gs b c (ground arith) k)
