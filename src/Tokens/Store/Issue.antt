-- ===== src/Tokens/Store/Issue.antt =====
-- `Mint` and `Delegate`: what they add to the store, and that it stays valid.
use forcefield.Base.{
  reject-ok, ℕ, zero, suc, ◌+◌, ◌≤◌, ◌<◌, ◌≡◌, refl, sym, ap, subst, ◌∙◌, ◌≢◌, inl, inr, none, some,
  ◌++◌, arith, Bool-cases, Option-cases, Bytes, bytes_eq, bytes_eq_iff, ok, lookup, put, lookup-put,
  lookup-put_self, put-IsMap, has_key, has_key_lem,
}
use forcefield.Library.{Text, Codec}
use forcefield.Tokens.Types.{
  TokenRecord, Records, Options, Store, MintRequest, IssuedToken, bearer_prefix,
}
use forcefield.Tokens.Lineage.{Linked, IsLinked}
use forcefield.Tokens.Chain.{Stale}
use forcefield.Tokens.Validate.{hash_token}
use forcefield.Tokens.Prune.Keeps.{kept_from}
use forcefield.Tokens.Persist.{persist, persist-committed, ensure_append_capacity}
use forcefield.Tokens.Store.{
  zero_hash, World, prune_locked, install, generate, append, root_record, check_expiry, mint,
}
use forcefield.Tokens.Request.{validate_binding, validate_grant_set}
use forcefield.Tokens.Store.Ends.{
  IsValid, Ends, Ends-continue, Ends-lift, install-Ends, with_records, AfterPrune, StillValid,
  Ends-gets, Ends-map, prune_locked-Ends, enter-Ends,
}

-- A record under a new key leaves the links of the others as they were.
pub put-Linked :
    (m : Records) (h k : Bytes) (r q : TokenRecord)
    → lookup h m ≡ none
    → lookup k m ≡ some q
    → lookup k (put h r m) ≡ some q
put-Linked m h k r q n e = elim (Bool-cases (bytes_eq h k)) [
  | inl c ↦ absurd (let same = (bytes_eq_iff h k).0 c in ground arith)
  | inr c ↦ ground (arith, lookup-put h k r m)
]

Linked-put :
    (m : Records) (h k : Bytes) (r q : TokenRecord)
    → lookup h m ≡ none
    → Linked m k q
    → Linked (put h r m) k q
Linked-put m h k r q n l =
    let (o, e, z, s) = l.origin in
    record {
      lineage = elim l.lineage [
        | inl x ↦ inl x
        | inr (p, f, c) ↦ inr (p, put-Linked m h q.parent r p n f, c)
      ];
      origin = (o, put-Linked m h q.root r o n e, z, s);
    }

put-IsLinked :
    (m : Records) (h : Bytes) (r : TokenRecord)
    → IsLinked m
    → lookup h m ≡ none
    → Linked (put h r m) h r
    → IsLinked (put h r m)
put-IsLinked m h r l n new = record {
  keys = put-IsMap h r m l.keys;
  linked = λ k q e. elim (Bool-cases (bytes_eq h k)) [
    | inl c ↦
        let same = (bytes_eq_iff h k).0 c in
        let one : r ≡ q = ground (arith, lookup-put h k r m) in
        subst (λ x. Linked (put h r m) k x) one (subst (λ x. Linked (put h r m) x r) same new)
    | inr c ↦ Linked-put m h k r q n (l.linked k q (ground (arith, lookup-put h k r m)))
  ];
}

-- The digest that is drawn is that of the bearer, and is new.
pub generate-fresh :
    (c : Codec) (w : World) (m : Records) (n attempt : ℕ) (bearer hash : Bytes)
    → generate c w m n attempt ≡ ok (bearer, hash)
    → (hash ≡ c.sha256 bearer) × (lookup hash m ≡ none)
unfolding generate hash_token
generate-fresh c w m zero a bearer hash e = ground arith
generate-fresh c w m (suc n) a bearer hash e = elim (Option-cases (w.random a)) [
  | inl x ↦ absurd (ground arith)
  | inr (bs, x) ↦
      elim (Bool-cases (has_key (hash_token c (bearer_prefix ++ c.base64_encode bs)) m)) [
        | inl y ↦ generate-fresh c w m n (a + 1) bearer hash (ground arith)
        | inr y ↦
            let new = (has_key_lem (c.sha256 (bearer_prefix ++ c.base64_encode bs)) m).0 y in
            (ground arith, ground arith)
      ]
]

-- The bearer that is drawn encodes one reading of the random source.
abbrev pub Drawn : Codec → World → Bytes → Type 0
Drawn c w bearer =
    (n : ℕ) × (random : Bytes) × (w.random n ≡ some random)
    × (bearer ≡ bearer_prefix ++ c.base64_encode random)

generate-Drawn :
    (c : Codec) (w : World) (m : Records) (n attempt : ℕ) (bearer hash : Bytes)
    → generate c w m n attempt ≡ ok (bearer, hash)
    → Drawn c w bearer
unfolding generate
generate-Drawn c w m zero a bearer hash e = ground arith
generate-Drawn c w m (suc n) a bearer hash e = elim (Option-cases (w.random a)) [
  | inl x ↦ absurd (ground arith)
  | inr (bs, x) ↦
      elim (Bool-cases (has_key (hash_token c (bearer_prefix ++ c.base64_encode bs)) m)) [
        | inl y ↦ generate-Drawn c w m n (a + 1) bearer hash (ground arith)
        | inr y ↦ (a, bs, x, ground arith)
      ]
]

put-IsValid :
    (s : Store) (r : TokenRecord)
    → IsValid s
    → lookup r.hash s.records ≡ none
    → Linked (put r.hash r s.records) r.hash r
    → r.depth ≤ s.opts.max_delegation_depth
    → IsValid (with_records s (put r.hash r s.records))
put-IsValid s r v n l d = record {
  linked = put-IsLinked s.records r.hash r v.linked n l;
  named = λ h q e. elim (Bool-cases (bytes_eq r.hash h)) [
    | inl c ↦
        let one : r ≡ q = ground (arith, lookup-put r.hash h r s.records) in
        subst (λ (x : TokenRecord). x.hash ≡ h) one ((bytes_eq_iff r.hash h).0 c)
    | inr c ↦ v.named h q (ground (arith, lookup-put r.hash h r s.records))
  ];
  deep = λ h q e. elim (Bool-cases (bytes_eq r.hash h)) [
    | inl c ↦
        let one : r ≡ q = ground (arith, lookup-put r.hash h r s.records) in
        subst (λ (x : TokenRecord). x.depth ≤ s.opts.max_delegation_depth) one d
    | inr c ↦ v.deep h q (ground (arith, lookup-put r.hash h r s.records))
  ];
}

-- The store after one token was added to what was left of it.
pub record Added (s : Store) (now : ℕ) (r : TokenRecord) (s' : Store) : Type 0 where
  pub valid : IsValid s'
  pub opts : s'.opts ≡ s.opts
  pub stored : lookup r.hash s'.records ≡ some r
  pub keeps :
      (h : Bytes) (q : TokenRecord)
      → lookup h s.records ≡ some q
      → ¬ Stale s.records now q
      → lookup h s'.records ≡ some q
  pub others :
      (h : Bytes) (q : TokenRecord)
      → r.hash ≢ h
      → lookup h s'.records ≡ some q
      → (lookup h s.records ≡ some q) × (¬ Stale s.records now q)

put-Added :
    (s s₁ : Store) (now : ℕ) (r : TokenRecord)
    → IsValid s
    → AfterPrune s now s₁
    → lookup r.hash s₁.records ≡ none
    → Linked (put r.hash r s₁.records) r.hash r
    → r.depth ≤ s.opts.max_delegation_depth
    → Added s now r (with_records s₁ (put r.hash r s₁.records))
put-Added s s₁ now r v a n l d = record {
  valid =
      put-IsValid s₁ r a.valid n l
        (subst (λ (o : Options). r.depth ≤ o.max_delegation_depth) (sym a.opts) d);
  opts = a.opts;
  stored = lookup-put_self r.hash r s₁.records;
  keeps = λ h q e f. put-Linked s₁.records r.hash h r q n (a.pruned.keeps h q e f);
  others = λ h q ne e.
      kept_from s.records s₁.records now v.linked a.pruned h q
        (ground (arith, lookup-put r.hash h r s₁.records, bytes_eq_iff r.hash h));
}

pub append-Ends :
    (c : Codec) (w : World) (bearer : Bytes) (s s₁ : Store) (r : TokenRecord)
    → IsValid s
    → AfterPrune s w.now s₁
    → lookup r.hash s₁.records ≡ none
    → Linked (put r.hash r s₁.records) r.hash r
    → r.depth ≤ s.opts.max_delegation_depth
    → Ends
        (λ i s'. (i.bearer ≡ bearer) × Added s w.now r s')
        (StillValid s.opts)
        (append c w bearer r s₁)
unfolding append
append-Ends c w bearer s s₁ r v a n l d =
    let next = put r.hash r s₁.records in
    let Q : IssuedToken → Store → Type 0 = λ i s'. (i.bearer ≡ bearer) × Added s w.now r s' in
    let E = StillValid s.opts in
    let new = put-Added s s₁ w.now r v a n l d in
    let old : StillValid s.opts s₁ = record { valid = a.valid; opts = a.opts } in
    Ends-gets Q E s₁.records _ s₁ (
      Ends-gets Q E s₁.opts _ s₁ (
        Ends-lift Q E (ensure_append_capacity s₁.opts w.encode next) _ s₁ old λ b h.
          Ends-continue Q E (λ _ s'. Added s w.now r s') _
            (install next (persist w.commit_disk s₁.opts w.encode next) s₁)
            (install-Ends (λ _ s'. Added s w.now r s') E next
              (persist w.commit_disk s₁.opts w.encode next) s₁
              (persist-committed w.commit_disk s₁.opts w.encode next) new old
              (record { valid = new.valid; opts = new.opts }))
            (λ b₁ s' x. (refl, x))))

root-Linked :
    (m : Records) (req : MintRequest) (now : ℕ) (hash : Bytes)
    → Linked (put hash (root_record req now hash) m) hash (root_record req now hash)
unfolding root_record
root-Linked m req now hash = record {
  lineage = inl (refl, refl, refl);
  origin =
      (root_record req now hash, lookup-put_self hash (root_record req now hash) m, refl, refl);
}

pub check_expiry-ok : (now e : ℕ) → check_expiry now e ≡ ok tt → now < e
unfolding check_expiry
check_expiry-ok now e h = let x = reject-ok _ _ h in ground arith

-- The request has passed the checks of its bindings and grants.
pub record MintChecked (t : Text) (s : Store) (req : MintRequest) : Type 0 where
  pub bindings : validate_binding t req.workload req.audience ≡ ok tt
  pub grants : validate_grant_set t req.grants s.opts.max_grants_per_token ≡ ok tt

-- A root token under this digest that says what the request does.
pub record RootFor (req : MintRequest) (now : ℕ) (digest : Bytes) (r : TokenRecord) : Type 0 where
  pub hash : r.hash ≡ digest
  pub root : r.root ≡ digest
  pub parent : r.parent ≡ zero_hash
  pub depth : r.depth ≡ 0
  pub workload : r.workload ≡ req.workload
  pub audience : r.audience ≡ req.audience
  pub issued_at : r.issued_at ≡ now
  pub expires_at : r.expires_at ≡ req.expires_at
  pub grants : r.grants ≡ req.grants
  pub allow_delegation : r.allow_delegation ≡ req.allow_delegation
  pub active : r.revoked_at ≡ none

root_record-RootFor :
    (req : MintRequest) (now : ℕ) (digest : Bytes)
    → RootFor req now digest (root_record req now digest)
unfolding root_record
root_record-RootFor req now digest = record {
  hash = refl;
  root = refl;
  parent = refl;
  depth = refl;
  workload = refl;
  audience = refl;
  issued_at = refl;
  expires_at = refl;
  grants = refl;
  allow_delegation = refl;
  active = refl;
}

-- What a successful `Mint` leaves: a root token under the digest of the bearer, with the claims of
-- the request, beside the tokens that have not lapsed.
pub record Minted (t : Text) (s : Store) (c : Codec) (w : World) (req : MintRequest)
    (i : IssuedToken) (s' : Store) : Type 0 where
  pub added : Added s w.now (root_record req w.now (c.sha256 i.bearer)) s'
  pub says : RootFor req w.now (c.sha256 i.bearer) (root_record req w.now (c.sha256 i.bearer))
  pub lives : w.now < req.expires_at
  pub drawn : Drawn c w i.bearer
  pub checked : MintChecked t s req

-- From a valid store `Mint` ends in a valid store, whether it fails or not. If it succeeds it has
-- added one record, under the digest of the bearer: a root of depth 0 that is not revoked, with the
-- request's workload, audience, grants, permission to delegate and expiry, which is in the future, and
-- the present instant as its issue. It has kept every token
-- that was neither revoked nor expired nor below such a token, and has added nothing else; the request has
-- passed the checks of its bindings and grants, and the bearer encodes bytes of the random source.
pub mint-Ends :
    (t : Text) (c : Codec) (w : World) (req : MintRequest) (s : Store)
    → IsValid s
    → Ends (Minted t s c w req) (StillValid s.opts) (mint t c w req s)
unfolding mint root_record
mint-Ends t c w req s v =
    let Q = Minted t s c w req in
    let E = StillValid s.opts in
    let same : StillValid s.opts s = record { valid = v; opts = refl } in
    Ends-lift Q E _ _ s same λ _ h₀. Ends-lift Q E _ _ s same λ _ h₁. Ends-gets Q E _ _ s (
      Ends-lift Q E _ _ s same λ _ h₂.
        Ends-continue Q E (λ _ s'. s' ≡ s) _ _ (enter-Ends (λ _ s'. s' ≡ s) E w 1 s same refl)
          λ _ s₀ e₀.
            Ends-continue Q E (λ _ s'. AfterPrune s w.now s') _ _
              (subst (λ x. Ends (λ _ s'. AfterPrune s w.now s') E (prune_locked w x)) (sym e₀)
                (prune_locked-Ends w s v))
              λ _ s₁ a.
                let old : StillValid s.opts s₁ = record { valid = a.valid; opts = a.opts } in
                Ends-lift Q E _ _ s₁ old λ _ h₃. Ends-gets Q E _ _ s₁ (
                  Ends-lift Q E _ _ s₁ old λ (bearer, hash) h₄.
                    let (is_digest, fresh) = generate-fresh c w s₁.records 8 0 bearer hash h₄ in
                    let r = root_record req w.now hash in
                    Ends-map (λ i s'. (i.bearer ≡ bearer) × Added s w.now r s') Q E
                      (append c w bearer r s₁)
                      (append-Ends c w bearer s s₁ r v a fresh
                        (root-Linked s₁.records req w.now hash) (omega arith))
                      λ i s' (same_bearer, x). record {
                        added =
                            subst (λ h. Added s w.now (root_record req w.now h) s')
                              (is_digest ∙ ap c.sha256 (sym same_bearer)) x;
                        says = root_record-RootFor req w.now (c.sha256 i.bearer);
                        lives = check_expiry-ok w.now req.expires_at h₃;
                        drawn =
                            subst (Drawn c w) (sym same_bearer)
                              (generate-Drawn c w s₁.records 8 0 bearer hash h₄);
                        checked = record { bindings = h₁; grants = h₂ };
                      }))
