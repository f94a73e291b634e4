-- ===== src/Tokens/Store/Roundtrip.antt =====
-- `Mint`, then `Validate`: the bearer that is returned is accepted until it expires.
use forcefield.Base.{
  inl, ℕ, ◌≤◌, ◌<◌, ◌≡◌, refl, ◌≢◌, true, false, none, some, [], ◌++◌, arith, Bytes, bytes_eq_iff,
  bytes_eq_refl, has_prefix, length, ok,
}
use forcefield.Library.{Text, Codec}
use forcefield.Tokens.Types.{
  TokenRecord, Records, Store, MintRequest, ValidationRequest, IssuedToken, bearer_prefix,
}
use forcefield.Tokens.Chain.{Stale, here, above, inactive}
use forcefield.Tokens.Request.{validate_identifier, validate_binding}
use forcefield.Tokens.Validate.{
  well_formed_bearer, SameBinding, Authentic, Authentic→validate_locked,
}
use forcefield.Tokens.Store.{
  World, continue, enter, accepted, claims_from_record, root_record, mint, validate,
}
use forcefield.Tokens.Store.Ends.{IsValid, StillValid}
use forcefield.Tokens.Store.Issue.{Minted, mint-Ends}
use forcefield.Tokens.Store.Validation.{ends_ok}

-- What `encoding/base64` documents of 32 bytes, unpadded.
pub record Base64Laws (c : Codec) : Type 0 where
  pub decodes : (bs : Bytes) → length bs ≡ 32 → c.base64_decode (c.base64_encode bs) ≡ some bs
  pub encoded_length : (bs : Bytes) → length bs ≡ 32 → length (c.base64_encode bs) ≡ 43

-- `io.ReadFull` fills the array of 32 bytes or fails.
abbrev pub FillsTokens : World → Type 0
FillsTokens w = (n : ℕ) (bs : Bytes) → w.random n ≡ some bs → length bs ≡ 32

well_formed_drawn :
    (c : Codec) (bs : Bytes)
    → Base64Laws c
    → length bs ≡ 32
    → well_formed_bearer c (bearer_prefix ++ c.base64_encode bs) ≡ true
unfolding well_formed_bearer has_prefix
well_formed_drawn c bs laws n =
    let d = laws.decodes bs n in
    let e = laws.encoded_length bs n in
    ground (arith, bytes_eq_refl (bearer_prefix ++ c.base64_encode bs))

identifier_given :
    (t : Text) (value : Bytes) (max : ℕ)
    → validate_identifier t value max ≡ ok tt
    → (value ≢ []) × (length value ≤ max)
unfolding validate_identifier
identifier_given t value max h =
    (λ e. ground (arith, bytes_eq_iff value []), ground (arith, bytes_eq_iff value []))

binding_given :
    (t : Text) (workload audience : Bytes)
    → validate_binding t workload audience ≡ ok tt
    → (validate_identifier t workload 512 ≡ ok tt) × (validate_identifier t audience 512 ≡ ok tt)
unfolding validate_binding
binding_given t workload audience h = (ground arith, ground arith)

equal_self : (c : Codec) (value : Bytes) → length value ≤ 512 → SameBinding c value value
equal_self c value h = inl (h, refl)

-- The request that the holder of a new root token makes.
abbrev pub own_request : MintRequest → ValidationRequest
own_request req = record { workload = req.workload; audience = req.audience }

fresh_at_root :
    {m : Records} {now : ℕ} {r : TokenRecord}
    → r.depth ≡ 0
    → r.revoked_at ≡ none
    → now < r.expires_at
    → ¬ Stale m now r
unfolding inactive
fresh_at_root d n x (here i) = ground arith
fresh_at_root d n x (above deep _ _) = omega arith

Minted-Authentic :
    (t : Text) (c : Codec) (w : World) (now : ℕ) (req : MintRequest) (s s' : Store)
    (i : IssuedToken)
    → Base64Laws c
    → FillsTokens w
    → Minted t s c w req i s'
    → now < req.expires_at
    → Authentic c s'.records now i.bearer
        (own_request req)
        (root_record req w.now (c.sha256 i.bearer))
unfolding root_record
Minted-Authentic t c w now req s s' i laws fills x lives =
    let (n, bs, e, f) = x.drawn in
    let (a, b) = binding_given t req.workload req.audience x.checked.bindings in
    let (a₁, a₂) = identifier_given t req.workload 512 a in
    let (b₁, b₂) = identifier_given t req.audience 512 b in
    record {
      format = rw f (well_formed_drawn c bs laws (fills n bs e));
      stored = x.added.stored;
      bindings = record {
        workload = equal_self c req.workload a₂;
        audience = equal_self c req.audience b₂;
        workload_given = a₁;
        audience_given = b₁;
      };
      fresh = fresh_at_root refl refl lives;
    }

-- An authentic bearer is answered with the claims of its record.
pub Authentic-validate :
    (c : Codec) (w : World) (bearer : Bytes) (req : ValidationRequest) (s : Store) (r : TokenRecord)
    → IsValid s
    → s.closed ≡ false
    → w.context_error 0 ≡ none
    → w.context_error 1 ≡ none
    → Authentic c s.records w.now bearer req r
    → validate c w bearer req s ≡ (s, ok (claims_from_record c r s.records))
unfolding validate enter continue accepted
Authentic-validate c w bearer req s r v o e₀ e₁ a =
    let f = Authentic→validate_locked c s.records w.now bearer req v.linked r a in rw (e₀, o, e₁, f)

-- The bearer that a successful `Mint` returns is accepted by `Validate` for the workload and the
-- audience of the request, with the claims of the new token, at any time before its expiry, as long
-- as the store is open and the context has no error.
pub mint-validate :
    (t : Text) (c : Codec) (w later : World) (req : MintRequest) (s s' : Store) (i : IssuedToken)
    → Base64Laws c
    → FillsTokens w
    → IsValid s
    → mint t c w req s ≡ (s', ok i)
    → s'.closed ≡ false
    → later.context_error 0 ≡ none
    → later.context_error 1 ≡ none
    → later.now < req.expires_at
    → validate c later i.bearer (own_request req) s'
      ≡ (s', ok (claims_from_record c (root_record req w.now (c.sha256 i.bearer)) s'.records))
mint-validate t c w later req s s' i laws fills v e o e₀ e₁ lives =
    let x =
      ends_ok (Minted t s c w req) (StillValid s.opts) (mint t c w req s) s' i
        (mint-Ends t c w req s v) e in
    Authentic-validate c later i.bearer (own_request req) s' _ x.added.valid o e₀ e₁
      (Minted-Authentic t c w later.now req s s' i laws fills x lives)
