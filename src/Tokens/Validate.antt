-- ===== src/Tokens/Validate.antt =====
-- internal/tokens/store.go: bearers, their digests, and `validateLocked`.
use forcefield.Base.{
  leb→le, Bool-cases, ◌<◌, ◌⊎◌, ◌≤◌, ap, ◌∙◌, subst, sym, ℕ, suc, ◌≡◌, refl, ◌≢◌, ◌↔◌, inl, inr,
  Bool, true, false, not, ◌&&◌, ◌||◌, Option, none, some, [], ◌∷◌, ◌++◌, arith, leb, ◌==◌,
  if◌then◌else◌, Option-cases, is_some, Bytes, bytes, bytes_eq, bytes_eq_iff, lookup, length, drop,
  has_prefix,
}
use forcefield.Library.{Codec}
use forcefield.Tokens.Types.{
  TokenRecord, Records, ValidationRequest, zero_record, unix_epoch, bearer_prefix, bearer_length,
  token_bytes,
}
use forcefield.Tokens.Lineage.{IsLinked}
use forcefield.Tokens.Chain.{inactive, ancestors, Stale, Walked, ancestors-Walked}

module _ (c : Codec) where
  unfoldable pub well_formed_bearer : Bytes → Bool
  well_formed_bearer bearer =
      if not (length bearer == bearer_length) || not (has_prefix bearer bearer_prefix)
      then false
      else elim (c.base64_decode (drop (length bearer_prefix) bearer)) [
        | none ↦ false
        | some decoded ↦
            length decoded == token_bytes
            && bytes_eq (bearer_prefix ++ c.base64_encode decoded) bearer
      ]

  unfoldable pub hash_token : Bytes → Bytes
  hash_token bearer = c.sha256 bearer

  unfoldable pub hash_token_for_validation : Bytes → Bool → Bytes
  unfolding hash_token
  hash_token_for_validation bearer well_formed =
      if not well_formed
      then c.sha256 (bearer_prefix ++ bytes "invalid-token-placeholder")
      else hash_token bearer

  -- An argument above 512 bytes is compared as the text of one NUL.
  unfoldable pub constant_time_string_equal : Bytes → Bytes → Bool
  constant_time_string_equal left right =
      bytes_eq (c.sha256 left)
        (if leb (length right) 512 then c.sha256 right else c.sha256 (0 ∷ []))

  -- The record that is checked: the one found, or one that has expired.
  unfoldable pub candidate : Option TokenRecord → TokenRecord
  candidate none = record zero_record { expires_at = unix_epoch }
  candidate (some r) = r

  -- The tests on the record itself.
  unfoldable pub bound : Bool → Option TokenRecord → ValidationRequest → Bool
  unfolding candidate constant_time_string_equal
  bound format_ok found req =
      format_ok
      && is_some found
      && constant_time_string_equal (candidate found).workload req.workload
      && constant_time_string_equal (candidate found).audience req.audience
      && (not (bytes_eq req.workload []) && not (bytes_eq req.audience []))

  -- The result: the record and whether it is valid. The walk has fuel for the record's depth.
  unfoldable pub verdict : TokenRecord → Option (Bool × TokenRecord) → Option (TokenRecord × Bool)
  verdict r none = none
  verdict r (some (valid, current)) =
      some (r, valid && (current.depth == 0 && bytes_eq current.root r.root))

  unfoldable pub validate_locked :
      Records → Bytes → ValidationRequest → ℕ → Option (TokenRecord × Bool)
  unfolding verdict bound candidate hash_token_for_validation well_formed_bearer inactive
  validate_locked m bearer req now =
      let format_ok = well_formed_bearer bearer in
      let found = lookup (hash_token_for_validation bearer format_ok) m in
      let r = candidate found in
      verdict r
        (ancestors (suc r.depth) m now r.root r (bound format_ok found req && not (inactive now r)))

  -- What the comparison of two bindings means: one of at most 512 bytes has the digest of the record's,
  -- and any longer one stands for the text of one NUL.
  abbrev pub SameBinding : Bytes → Bytes → Type 0
  SameBinding stored given =
      ((length given ≤ 512) × (c.sha256 stored ≡ c.sha256 given))
      ⊎ ((512 < length given) × (c.sha256 stored ≡ c.sha256 (0 ∷ [])))

  constant_time_string_equal_iff :
      (stored given : Bytes)
      → (constant_time_string_equal stored given ≡ true) ↔ SameBinding stored given
  unfolding constant_time_string_equal
  constant_time_string_equal_iff stored given = elim (Bool-cases (leb (length given) 512)) [
    | inl y ↦
        let short = leb→le (length given) 512 y in
        let same = bytes_eq_iff (c.sha256 stored) (c.sha256 given) in
        rw y (λ h. inl (short, same.0 h), λ m. same.1 (no_longer short m))
    | inr n ↦
        let long : 512 < length given = ground arith in
        let same = bytes_eq_iff (c.sha256 stored) (c.sha256 (0 ∷ [])) in
        rw n (λ h. inr (long, same.0 h), λ m. same.1 (no_shorter long m))
  ]
    where
      no_longer : length given ≤ 512 → SameBinding stored given → c.sha256 stored ≡ c.sha256 given
      no_longer l (inl (a, b)) = b
      no_longer l (inr (a, b)) = absurd (omega arith)

      no_shorter :
          512 < length given → SameBinding stored given → c.sha256 stored ≡ c.sha256 (0 ∷ [])
      no_shorter l (inl (a, b)) = absurd (omega arith)
      no_shorter l (inr (a, b)) = b

  -- The bindings of a request to a record, by digest.
  pub record Bound (r : TokenRecord) (req : ValidationRequest) : Type 0 where
    pub workload : SameBinding r.workload req.workload
    pub audience : SameBinding r.audience req.audience
    pub workload_given : req.workload ≢ []
    pub audience_given : req.audience ≢ []

  -- A bearer that stands for the record `r` in the store, now.
  pub record Authentic (m : Records) (now : ℕ) (bearer : Bytes) (req : ValidationRequest)
      (r : TokenRecord) : Type 0 where
    pub format : well_formed_bearer bearer ≡ true
    pub stored : lookup (c.sha256 bearer) m ≡ some r
    pub bindings : Bound r req
    pub fresh : ¬ Stale m now r

  bound→Bound :
      (f : Bool) (r : TokenRecord) (req : ValidationRequest)
      → bound f (some r) req ≡ true
      → (f ≡ true) × Bound r req
  unfolding bound candidate
  bound→Bound f r req h = (
    ground arith,
    record {
      workload = (constant_time_string_equal_iff r.workload req.workload).0 (ground arith);
      audience = (constant_time_string_equal_iff r.audience req.audience).0 (ground arith);
      workload_given = ground (arith, bytes_eq_iff req.workload []);
      audience_given = ground (arith, bytes_eq_iff req.audience []);
    },
  )

  Bound→bound :
      (r : TokenRecord) (req : ValidationRequest) → Bound r req → bound true (some r) req ≡ true
  unfolding bound candidate
  Bound→bound r req b = ground (
    arith,
    (constant_time_string_equal_iff r.workload req.workload).1 b.workload,
    (constant_time_string_equal_iff r.audience req.audience).1 b.audience,
    b.workload_given,
    b.audience_given,
    bytes_eq_iff req.workload [],
    bytes_eq_iff req.audience [],
  )

  -- What a result of `validateLocked` says.
  abbrev pub Decides :
      Records → ℕ → Bytes → ValidationRequest → Option (TokenRecord × Bool) → Type 0
  Decides m now bearer req none = ⊥
  Decides m now bearer req (some (r, b)) = (b ≡ true) ↔ Authentic m now bearer req r

  verdict-Decides :
      (m : Records) (now : ℕ) (bearer : Bytes) (req : ValidationRequest) (r : TokenRecord)
      (linked : IsLinked m) (v : Bool) (o : Option (Bool × TokenRecord))
      → Walked m now linked r r.root v o
      → ((v ≡ true) × (¬ Stale m now r)) ↔ Authentic m now bearer req r
      → Decides m now bearer req (verdict r o)
  unfolding verdict
  verdict-Decides m now bearer req r l v none w e = w
  verdict-Decides m now bearer req r l v (some (b, c)) (z, s, (f, g)) e = (
    λ h. e.0 (f (ground arith)),
    λ a. let k = g (e.1 a) in ground (arith, bytes_eq_iff c.root r.root),
  )

  absent :
      (m : Records) (now : ℕ) (root : Bytes) (f x : Bool) (req : ValidationRequest)
      → verdict (candidate none) (ancestors 1 m now root (candidate none) (bound f none req && x))
        ≡ some (candidate none, false)
  unfolding verdict candidate bound ancestors
  absent m now root f x req = ground arith

  module _ (m : Records) (now : ℕ) (bearer : Bytes) (req : ValidationRequest)
      (linked : IsLinked m) where
    hash_of_format :
        (r : TokenRecord)
        → lookup (hash_token_for_validation bearer (well_formed_bearer bearer)) m ≡ some r
        → well_formed_bearer bearer ≡ true
        → lookup (c.sha256 bearer) m ≡ some r
    unfolding hash_token_for_validation hash_token
    hash_of_format r e w = rw w at e

    format_of_hash :
        (r : TokenRecord)
        → lookup (c.sha256 bearer) m ≡ some r
        → well_formed_bearer bearer ≡ true
        → lookup (hash_token_for_validation bearer (well_formed_bearer bearer)) m ≡ some r
    unfolding hash_token_for_validation hash_token
    format_of_hash r e w = rw w e

    found-Authentic :
        (r : TokenRecord)
        → lookup (hash_token_for_validation bearer (well_formed_bearer bearer)) m ≡ some r
        → ((bound (well_formed_bearer bearer) (some r) req ≡ true) × (¬ Stale m now r))
          ↔ Authentic m now bearer req r
    found-Authentic r e = (
      λ (b, s).
          let (w, d) = bound→Bound (well_formed_bearer bearer) r req b in
          record { format = w; stored = hash_of_format r e w; bindings = d; fresh = s },
      λ a. (rw a.format (Bound→bound r req a.bindings), a.fresh),
    )

    pub validate_locked-Decides : Decides m now bearer req (validate_locked m bearer req now)
    unfolding validate_locked
    validate_locked-Decides =
        elim (Option-cases
          (lookup (hash_token_for_validation bearer (well_formed_bearer bearer)) m)) [
            | inl e ↦
                rw (e, absent m now _ (well_formed_bearer bearer) _ req)
                  (
                    λ h. ground arith,
                    λ a. absurd (let k = format_of_hash _ a.stored a.format in ground arith),
                  )
            | inr (r, e) ↦ rw e (
                unfold candidate in
                verdict-Decides m now bearer req r linked _ _
                  (ancestors-Walked m now linked (suc r.depth)
                    (hash_token_for_validation bearer (well_formed_bearer bearer)) r r.root
                    (bound (well_formed_bearer bearer) (some r) req) e refl (omega arith))
                  (found-Authentic r e))
          ]

    verdict-Authentic :
        (r : TokenRecord) (o : Option (Bool × TokenRecord))
        → Decides m now bearer req (verdict r o)
        → Authentic m now bearer req r
        → verdict r o ≡ some (r, true)
    unfolding verdict
    verdict-Authentic r none d a = absurd d
    verdict-Authentic r (some (v, cur)) d a = let x = d.1 a in ground arith

    found_Authentic :
        (r : TokenRecord) (found : Option TokenRecord)
        (walk : Option TokenRecord → Option (Bool × TokenRecord))
        → found ≡ some r
        → Authentic m now bearer req r
        → Decides m now bearer req (verdict (candidate found) (walk found))
        → verdict (candidate found) (walk found) ≡ some (r, true)
    unfolding candidate
    found_Authentic r none walk e a d = absurd (ground arith)
    found_Authentic r (some q) walk e a d =
        let same : q ≡ r = ground arith in
        verdict-Authentic q (walk (some q)) d (subst (Authentic m now bearer req) (sym same) a)
        ∙ ap (λ z. some (z, true)) same

    -- An authentic bearer is accepted, for the record that it stands for.
    pub Authentic→validate_locked :
        (r : TokenRecord)
        → Authentic m now bearer req r
        → validate_locked m bearer req now ≡ some (r, true)
    unfolding validate_locked
    Authentic→validate_locked r a =
        found_Authentic r _
          (λ found.
            ancestors (suc (candidate found).depth) m now (candidate found).root (candidate found)
              (bound (well_formed_bearer bearer) found req && not (inactive now (candidate found))))
          (format_of_hash r a.stored a.format) a validate_locked-Decides
