-- ===== src/Tokens/Store/Delegation.antt =====
-- `Delegate`: the child that it adds lies within the parent that the caller presented.
use forcefield.Base.{ℕ, ◌≤◌, ◌<◌, ◌≡◌, subst, Bool, true, Option, none, some, arith, Bytes, ok}
use forcefield.Library.{Codec}
use forcefield.Tokens.Types.{TokenRecord, Records, Options, Store, DelegateRequest, IssuedToken}
use forcefield.Tokens.Bounds.{direct_child_count, root_token_count}
use forcefield.Tokens.Lineage.{IsLinked}
use forcefield.Tokens.Prune.Keeps.{Pruned}
use forcefield.Tokens.Store.{World}
use forcefield.Tokens.Store.Ends.{Ends}
use forcefield.Tokens.Types.{ValidationRequest}
use forcefield.Tokens.Grants.{grants_are_subset}
use forcefield.Tokens.Validate.{validate_locked, Authentic, Decides, validate_locked-Decides}
use forcefield.Tokens.Store.{or_diverges, child_record, accepted, caller_request}
use forcefield.Tokens.Store.Issue.{Added}

-- What the tests of `Delegate` against the parent establish.
pub record Delegable (o : Options) (m : Records) (now : ℕ) (p : TokenRecord) (req : DelegateRequest)
    : Type 0 where
  pub permitted : p.allow_delegation ≡ true
  pub depth : p.depth < o.max_delegation_depth
  pub lives : now < req.expires_at
  pub expiry : req.expires_at ≤ p.expires_at
  pub grants : grants_are_subset req.grants p.grants ≡ true
  pub children : direct_child_count m p.hash < o.max_children_per_token
  pub family : root_token_count m p.root < o.max_tokens_per_root

-- The parent that was accepted is the one whose bearer the caller presented.
pub accepted-Authentic :
    (c : Codec) (m : Records) (now : ℕ) (bearer : Bytes) (req : ValidationRequest)
    (found : TokenRecord × Bool) (p : TokenRecord)
    → IsLinked m
    → validate_locked c m bearer req now ≡ some found
    → accepted found ≡ ok p
    → Authentic c m now bearer req p
unfolding accepted
accepted-Authentic c m now bearer req (r, valid) p l e a =
    let d = subst (Decides c m now bearer req) e (validate_locked-Decides c m now bearer req l) in
    let yes_valid : valid ≡ true = ground arith in
    let same : r ≡ p = ground arith in subst (Authentic c m now bearer req) same (d.0 yes_valid)

pub or_diverges-ok : {A : Type 0} (o : Option A) (a : A) → or_diverges o ≡ ok a → o ≡ some a
or_diverges-ok none a e = ground arith
or_diverges-ok (some b) a e = ground arith

-- What a successful `Delegate` leaves: a child of the token that the caller presented. `before` is
-- the store once the lapsed tokens were dropped, in which children are counted.
pub record Delegated (s : Store) (c : Codec) (w : World) (bearer : Bytes) (req : DelegateRequest)
    (i : IssuedToken) (s' : Store) : Type 0 where
  pub parent : TokenRecord
  pub before : Records
  pub pruned : Pruned s.records w.now before
  pub authentic : Authentic c s.records w.now bearer (caller_request req) parent
  pub delegable : Delegable s.opts before w.now parent req
  pub added : Added s w.now (child_record req w.now parent (c.sha256 i.bearer)) s'
