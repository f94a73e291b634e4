-- ===== src/Tokens/Store/Tests.antt =====
-- Tests of the token store, and instances of its theorems.
use forcefield.Base.{
  zero, suc, length-append, ap, suc, ℕ, ◌≡◌, ◌≢◌, refl, some, [], ◌∷◌, ◌++◌, arith, Bytes,
  replicate, take, put, lookup, has_prefix, ok, err, length,
}
use forcefield.Tokens.Types.{IssuedToken, Store, TokenRecord, bearer_prefix, invalid_token}
use forcefield.Tokens.Grants.{grants_are_subset}
use forcefield.Tokens.Request.{validate_grants}
use forcefield.Tokens.Chain.{ancestors, record_or_ancestor_inactive}
use forcefield.Tokens.Prune.{seeds, spread, prune_inactive}
use forcefield.Tokens.Persist.{inspect_destination}
use forcefield.Tokens.Revoke.{Below, self, child, children_of, at_key, visit}
use forcefield.Tokens.Store.{
  mint, delegate, validate, revoke, claims_from_record, root_record, child_record, continue,
  generate,
}
use forcefield.Tokens.Store.Ends.{Ends, StillValid}
use forcefield.Tokens.Store.Samples.{
  sample_options, sample_text, sample_codec, sample_world, sample_mint, family_store,
  family_store-IsValid, root_bearer, child_bearer, root_request, child_request, family, root_token,
  child_token, sample_delegate,
}
use forcefield.Tokens.Store.Roundtrip.{mint-validate, FillsTokens, own_request, Base64Laws}
use forcefield.Tokens.Store.Issue.{mint-Ends, Minted}
use forcefield.Tokens.Store.Validation.{validate-Ends, Accepted, revoke-validate}

store_ops : Unit {0}
unfolding mint delegate validate revoke continue generate ancestors lookup has_prefix seeds spread
    prune_inactive inspect_destination grants_are_subset validate_grants put
    record_or_ancestor_inactive children_of at_key visit
store_ops = tt

abbrev minted_bearer : Bytes
minted_bearer = bearer_prefix ++ replicate 32 70 ++ replicate 11 65

abbrev minted_token : TokenRecord
minted_token = unfold root_record in root_record sample_mint 30 minted_bearer

abbrev minted : Store
minted = record family_store { records = unfold put in put minted_bearer minted_token family }

abbrev issued : IssuedToken
issued = record {
  bearer = minted_bearer;
  claims = unfold claims_from_record in claims_from_record sample_codec minted_token minted.records;
}

mint_test :
    mint sample_text sample_codec (sample_world 30) sample_mint family_store ≡ (minted, ok issued)
unfolding store_ops
mint_test = refl

abbrev revoked_family : Store
revoked_family = record family_store {
  records =
      (root_bearer, record root_token { revoked_at = some 30 })
      ∷ (child_bearer, record child_token { revoked_at = some 30 })
      ∷ [];
}

revoke_test :
    revoke sample_codec (sample_world 30) root_bearer family_store ≡ (revoked_family, ok tt)
unfolding store_ops
revoke_test = refl

-- The child is accepted before the revocation, not after it, and not for another workload.
validate_tests :
    (validate sample_codec (sample_world 30) child_bearer child_request family_store
      ≡ (family_store, ok (claims_from_record sample_codec child_token family)))
    × (validate sample_codec (sample_world 40) child_bearer child_request revoked_family
        ≡ (revoked_family, err invalid_token))
    × (validate sample_codec (sample_world 30) child_bearer root_request family_store
        ≡ (family_store, err invalid_token))
    × (validate sample_codec (sample_world 80) child_bearer child_request family_store
        ≡ (family_store, err invalid_token))
unfolding store_ops
validate_tests = (refl, refl, refl, refl)

delegate_test :
    (delegate sample_text sample_codec
      (sample_world 30)
      root_bearer
      sample_delegate
      family_store).0.records
    ≡ put minted_bearer (child_record sample_delegate 30 root_token minted_bearer) family
unfolding store_ops
delegate_test = refl

validate-Ends_example :
    Ends
      (λ claims s'.
        (s' ≡ family_store) × Accepted sample_codec family 30 child_bearer child_request claims)
      (λ s'. s' ≡ family_store)
      (validate sample_codec (sample_world 30) child_bearer child_request family_store)
validate-Ends_example =
    validate-Ends sample_codec (sample_world 30) child_bearer child_request family_store
      family_store-IsValid

child-Below : Below family root_bearer child_bearer
unfolding lookup
child-Below = child {r = child_token} self refl (omega arith) refl

revoke-validate_example :
    validate sample_codec (sample_world 40) child_bearer child_request revoked_family
    ≢ (revoked_family, ok issued.claims)
revoke-validate_example =
    revoke-validate sample_codec (sample_world 30) (sample_world 40) root_bearer child_bearer
      child_request family_store revoked_family revoked_family issued.claims family_store-IsValid
      revoke_test child-Below

mint-Ends_example :
    Ends
      (Minted sample_text family_store sample_codec (sample_world 30) sample_mint)
      (StillValid sample_options)
      (mint sample_text sample_codec (sample_world 30) sample_mint family_store)
mint-Ends_example =
    mint-Ends sample_text sample_codec (sample_world 30) sample_mint family_store
      family_store-IsValid

take_all : (bs rest : Bytes) (n : ℕ) → length bs ≡ n → take n (bs ++ rest) ≡ bs
take_all [] rest zero h = refl
take_all [] rest (suc n) h = absurd (omega arith)
take_all (b ∷ bs) rest zero h = absurd (omega arith)
take_all (b ∷ bs) rest (suc n) h = ap (◌∷◌ b) (take_all bs rest n (omega arith))

sample_codec-Base64Laws : Base64Laws sample_codec
sample_codec-Base64Laws = record {
  decodes = λ bs n. ap some (take_all bs (replicate 11 65) 32 n);
  encoded_length = λ bs n. omega (arith, length-append bs (replicate 11 65));
}

sample_world-FillsTokens : FillsTokens (sample_world 30)
sample_world-FillsTokens n bs e = let x : replicate 32 70 ≡ bs = ground arith in rw (← x) refl

mint-validate_example :
    validate sample_codec (sample_world 89) minted_bearer (own_request sample_mint) minted ≡ (
      minted,
      ok (
          claims_from_record sample_codec
            (root_record sample_mint 30 minted_bearer)
            minted.records),
    )
mint-validate_example =
    mint-validate sample_text sample_codec (sample_world 30) (sample_world 89) sample_mint
      family_store minted issued sample_codec-Base64Laws sample_world-FillsTokens
      family_store-IsValid mint_test refl refl refl (omega arith)
