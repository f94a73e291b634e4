-- ===== src/Tokens/Disk/Loads.antt =====
-- What a state that `decodeDiskState` accepts satisfies.
use forcefield.Base.{
  ltb, is_nat, not, ◌≤◌, ◌<◌, ◌≡◌, refl, subst, inl, inr, some, List, [], ◌∷◌, arith, Bool-cases,
  Bytes, bytes_eq, bytes_eq_iff, length, Result, ok, err, ◌>>=◌, reject, lookup, put, lookup-put,
  put-IsMap, IsMap,
}
use forcefield.Library.{Text, Codec}
use forcefield.Tokens.Types.{StoreError, TokenRecord, Records, Options}
use forcefield.Tokens.Lineage.{IsLinked, validate_loaded_records, validate_loaded_records_iff}
use forcefield.Tokens.Request.{validate_binding, validate_grant_set}
use forcefield.Tokens.Disk.{
  hard_max_records, store_file_version, corrupt_store, DiskRecord, Json, decode_record,
  decode_records, decode_disk_state, decoded, or_corrupt,
}

-- If two steps in a row succeed, each of them does.
pub steps-ok {ℓ κ μ} :
    {E : Type ℓ} {X : Type κ} {Y : Type μ} (first : Result E X) (second : X → Result E Y) {y : Y}
    → (first >>= second) ≡ ok y
    → (x : X) × (first ≡ ok x) × (second x ≡ ok y)
steps-ok (err e) second done = ground arith
steps-ok (ok x) second done = (x, refl, done)

or_corrupt-eq-ok {ℓ} :
    {A : Type ℓ} (r : Result StoreError A) (a : A) → or_corrupt r ≡ ok a → r ≡ ok a
or_corrupt-eq-ok (ok b) a h = h
or_corrupt-eq-ok (err e) a h = ground arith

-- What the checks of one record establish of it.
pub record Sound (t : Text) (o : Options) (r : TokenRecord) : Type 0 where
  pub depth : r.depth ≤ o.max_delegation_depth
  pub bindings : validate_binding t r.workload r.audience ≡ ok tt
  pub grants : validate_grant_set t r.grants o.max_grants_per_token ≡ ok tt
  pub lifetime : (0 < r.issued_at) × (r.issued_at < r.expires_at)

decode_record-Sound :
    (t : Text) (c : Codec) (o : Options) (seen : Records) (d : DiskRecord) (r : TokenRecord)
    → decode_record t c o seen d ≡ ok r
    → Sound t o r
unfolding decode_record
decode_record-Sound t c o seen d r h = ground arith

-- What the loop keeps of the records so far.
pub record Loaded (t : Text) (o : Options) (m : Records) : Type 0 where
  pub keys : IsMap m
  pub named : (h : Bytes) (r : TokenRecord) → lookup h m ≡ some r → r.hash ≡ h
  pub sound : (h : Bytes) (r : TokenRecord) → lookup h m ≡ some r → Sound t o r

Loaded-put :
    (t : Text) (o : Options) (m : Records) (r : TokenRecord)
    → Loaded t o m
    → Sound t o r
    → Loaded t o (put r.hash r m)
Loaded-put t o m r l s = record {
  keys = put-IsMap r.hash r m l.keys;
  named = λ h q e. elim (Bool-cases (bytes_eq r.hash h)) [
    | inl c ↦
        let one : r ≡ q = ground (arith, lookup-put r.hash h r m) in
        subst (λ (x : TokenRecord). x.hash ≡ h) one ((bytes_eq_iff r.hash h).0 c)
    | inr c ↦ l.named h q (ground (arith, lookup-put r.hash h r m))
  ];
  sound = λ h q e. elim (Bool-cases (bytes_eq r.hash h)) [
    | inl c ↦ subst (Sound t o) (ground (arith, lookup-put r.hash h r m)) s
    | inr c ↦ l.sound h q (ground (arith, lookup-put r.hash h r m))
  ];
}

decode_records-Loaded :
    (t : Text) (c : Codec) (o : Options) (seen m : Records) (ds : List DiskRecord)
    → Loaded t o seen
    → decode_records t c o seen ds ≡ ok m
    → Loaded t o m
unfolding decode_records
decode_records-Loaded t c o seen m [] l e = subst (Loaded t o) (ground arith) l
decode_records-Loaded t c o seen m (d ∷ ds) l e =
    let (r, f, g) = steps-ok (decode_record t c o seen d) _ e in
    decode_records-Loaded t c o (put r.hash r seen) m ds
      (Loaded-put t o seen r l (decode_record-Sound t c o seen d r f)) g

Loaded-nil : (t : Text) (o : Options) → Loaded t o []
unfolding lookup
Loaded-nil t o = record {
  keys = tt;
  named = λ h r e. ground arith;
  sound = λ h r e. absurd (ground arith);
}

-- The records that `decodeDiskState` accepts are linked, stand under their own digests, and each has
-- passed the checks of its depth, bindings, grants and lifetime.
pub decode_disk_state-Loaded :
    (t : Text) (c : Codec) (j : Json) (o : Options) (contents : Bytes) (m : Records)
    → decode_disk_state t c j o contents ≡ ok m
    → Loaded t o m × IsLinked m
unfolding decode_disk_state
decode_disk_state-Loaded t c j o contents m e =
    let (s, e₁, f₁) = steps-ok (decoded (j.decode contents)) _ e in
    let (_, e₂, f₂) = steps-ok (reject (not (j.at_end s.1)) corrupt_store) _ f₁ in
    let (_, e₃, f₃) =
      steps-ok (reject (not (is_nat store_file_version s.0.version)) corrupt_store) _ f₂ in
    let (_, e₄, f₄) =
      steps-ok (reject (ltb hard_max_records (length s.0.records)) corrupt_store) _ f₃ in
    let (n, e₅, f₅) = steps-ok (decode_records t c o [] s.0.records) _ f₄ in
    let (_, e₆, f₆) = steps-ok (validate_loaded_records n) _ f₅ in
    let same : n ≡ m = ground arith in
    let l = decode_records-Loaded t c o [] n s.0.records (Loaded-nil t o) e₅ in
    subst (λ x. Loaded t o x × IsLinked x) same (l, (validate_loaded_records_iff n l.keys).0 e₆)
