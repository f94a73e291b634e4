-- ===== src/Tokens/Grants.antt =====
-- internal/tokens/store.go: grants and their limits, and the order in which a child's authority may
-- only shrink.
pub mod Order
use forcefield.Base.{
  ℕ, zero, suc, ◌+◌, ◌≤◌, ◌<◌, ◌≡◌, refl, ◌↔◌, ◌⊎◌, inl, inr, Bool, true, false, not, ◌&&◌, ◌||◌,
  Option, none, some, List, [], ◌∷◌, arith, leb, ltb, ◌==◌, if◌then◌else◌, Bool-cases, Bytes,
  bytes_eq, bytes_eq_iff, bytes_eq_refl, length,
}
use forcefield.Tokens.Types.{Limits, Grant}

unfoldable pub limit_no_broader : ℕ → ℕ → Bool
limit_no_broader child parent = if parent == 0 then true else not (child == 0) && leb child parent

unfoldable pub burst_no_broader : Limits → Limits → Bool
burst_no_broader child parent =
    if parent.requests_per_second == 0
    then true
    else leb (if child.burst == 0 then 1 else child.burst)
        (if parent.burst == 0 then 1 else parent.burst)

unfoldable pub limits_no_broader : Limits → Limits → Bool
unfolding limit_no_broader burst_no_broader
limits_no_broader child parent =
    limit_no_broader child.requests_per_second parent.requests_per_second
    && burst_no_broader child parent
    && limit_no_broader child.request_budget parent.request_budget
    && limit_no_broader child.byte_budget parent.byte_budget
    && limit_no_broader child.max_request_bytes parent.max_request_bytes

-- Two grants of one `identity`.
unfoldable pub same_identity : Grant → Grant → Bool
same_identity g p =
    bytes_eq g.service p.service
    && bytes_eq g.credential_ref p.credential_ref
    && bytes_eq g.policy_revision p.policy_revision
    && bytes_eq g.binding_revision p.binding_revision

-- The entry of the map `parents` for the identity of `g`: of several grants the last.
unfoldable pub parent_grant : Grant → List Grant → Option Grant
unfolding same_identity
parent_grant g [] = none
parent_grant g (p ∷ ps) = elim (parent_grant g ps) [
  | some q ↦ some q
  | none ↦ if same_identity g p then some p else none
]

-- `ok && limitsNoBroader(...)`
unfoldable pub narrows : Grant → Option Grant → Bool
unfolding limits_no_broader
narrows g none = false
narrows g (some p) = limits_no_broader g.limits p.limits

unfoldable pub grants_are_subset : List Grant → List Grant → Bool
unfolding narrows parent_grant
grants_are_subset [] parent = true
grants_are_subset (g ∷ child) parent =
    narrows g (parent_grant g parent) && grants_are_subset child parent

-- What a limit permits: any amount if it is 0, else an amount up to it.
abbrev pub Permits : ℕ → ℕ → Type 0
Permits limit amount = (limit ≡ 0) ⊎ (amount ≤ limit)

pub limit_no_broader→Permits :
    (child parent amount : ℕ)
    → limit_no_broader child parent ≡ true
    → Permits child amount
    → Permits parent amount
unfolding limit_no_broader
limit_no_broader→Permits c p n h (inl e) = ground arith
limit_no_broader→Permits c p n h (inr e) = ground arith

Permits→limit_no_broader :
    (child parent : ℕ)
    → ((amount : ℕ) → Permits child amount → Permits parent amount)
    → limit_no_broader child parent ≡ true
unfolding limit_no_broader
Permits→limit_no_broader zero parent f = ground (arith, f (suc parent) (inl refl))
Permits→limit_no_broader (suc c) parent f = ground (arith, f (suc c) (inr (omega arith)))

-- The test on one limit holds exactly when the parent's limit permits every amount that the
-- child's permits, 0 standing for "unlimited".
pub limit_no_broader_iff :
    (child parent : ℕ)
    → (limit_no_broader child parent ≡ true)
      ↔ ((amount : ℕ) → Permits child amount → Permits parent amount)
limit_no_broader_iff c p = (λ h n. limit_no_broader→Permits c p n h, Permits→limit_no_broader c p)

pub limit_no_broader_trans :
    (a b c : ℕ)
    → limit_no_broader a b ≡ true
    → limit_no_broader b c ≡ true
    → limit_no_broader a c ≡ true
unfolding limit_no_broader
limit_no_broader_trans a b c h k = ground arith
