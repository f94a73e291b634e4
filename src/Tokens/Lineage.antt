-- ===== src/Tokens/Lineage.antt =====
-- internal/tokens/persistence.go: `validateLoadedRecords`, the check that a loaded store passes. It
-- is the well-formedness invariant of the operations.
use forcefield.Base.{
  suc, ◌+◌, ◌≤◌, ◌≡◌, refl, ◌↔◌, ◌⊎◌, inl, inr, Bool, true, false, not, ◌&&◌, ◌||◌, Option, none,
  some, arith, ltb, ◌==◌, if◌then◌else◌, Bool-cases, is_some, Bytes, bytes_eq, bytes_eq_iff, Result,
  ok, err, ◌>>◌, reject, lookup, all_entries, IsMap, all_entries→lookup, lookup→all_entries,
}
use forcefield.Tokens.Types.{StoreError, corrupt_store, TokenRecord, Records, zero_hash}
use forcefield.Tokens.Grants.{grants_are_subset}

abbrev pub Checked : Type 0
Checked = Result StoreError (Unit {0})

abbrev pub is_ok {ℓ κ} : {E : Type ℓ} {A : Type κ} → Result E A → Bool
is_ok (ok a) = true
is_ok (err e) = false

-- The tests on a record with depth above 0 and its parent's entry.
unfoldable pub check_parent : TokenRecord → Option TokenRecord → Checked
check_parent r none = err corrupt_store
check_parent r (some p) = do
  reject (not (p.depth + 1 == r.depth) || not (bytes_eq p.root r.root)) corrupt_store
  reject (not p.allow_delegation) corrupt_store
  reject (not (bytes_eq r.audience p.audience)) corrupt_store
  reject (ltb p.expires_at r.expires_at) corrupt_store
  reject (not (grants_are_subset r.grants p.grants)) corrupt_store
  reject (is_some p.revoked_at && not (is_some r.revoked_at)) corrupt_store

unfoldable pub check_root : TokenRecord → Option TokenRecord → Checked
check_root r none = err corrupt_store
check_root r (some q) = reject (not (q.depth == 0) || not (bytes_eq q.root r.root)) corrupt_store

unfoldable pub check_lineage : Records → Bytes → TokenRecord → Checked
unfolding check_parent check_root
check_lineage m h r = do
  (if r.depth == 0
      then reject (not (bytes_eq r.root h) || not (bytes_eq r.parent zero_hash)) corrupt_store
      else check_parent r (lookup r.parent m))
  check_root r (lookup r.root m)

unfoldable pub validate_loaded_records : Records → Checked
unfolding check_lineage
validate_loaded_records m =
    reject (not (all_entries (λ h r. is_ok (check_lineage m h r)) m)) corrupt_store

-- What the tests say of a delegated record and its parent.
pub record ChildOf (r p : TokenRecord) : Type 0 where
  pub depth : suc p.depth ≡ r.depth
  pub root : p.root ≡ r.root
  pub delegable : p.allow_delegation ≡ true
  pub audience : r.audience ≡ p.audience
  pub expiry : r.expires_at ≤ p.expires_at
  pub grants : grants_are_subset r.grants p.grants ≡ true
  pub cascade : is_some p.revoked_at ≡ true → is_some r.revoked_at ≡ true

-- What they say of a record under its key.
pub record Linked (m : Records) (h : Bytes) (r : TokenRecord) : Type 0 where
  pub lineage :
      ((r.depth ≡ 0) × (r.root ≡ h) × (r.parent ≡ zero_hash))
      ⊎ ((p : TokenRecord) × (lookup r.parent m ≡ some p) × ChildOf r p)
  pub origin : (q : TokenRecord) × (lookup r.root m ≡ some q) × (q.depth ≡ 0) × (q.root ≡ r.root)

check_parent→ChildOf :
    (r : TokenRecord) (o : Option TokenRecord)
    → check_parent r o ≡ ok tt
    → (p : TokenRecord) × (o ≡ some p) × ChildOf r p
unfolding check_parent
check_parent→ChildOf r none h = ground arith
check_parent→ChildOf r (some p) h = (
  p,
  refl,
  record {
    depth = ground arith;
    root = ground (arith, bytes_eq_iff p.root r.root);
    delegable = ground arith;
    audience = ground (arith, bytes_eq_iff r.audience p.audience);
    expiry = ground arith;
    grants = ground arith;
    cascade = ground arith;
  },
)

ChildOf→check_parent : (r p : TokenRecord) → ChildOf r p → check_parent r (some p) ≡ ok tt
unfolding check_parent
ChildOf→check_parent r p c =
    ground
      (arith, c.depth, bytes_eq_iff p.root r.root, bytes_eq_iff r.audience p.audience, c.cascade)

check_root→origin :
    (r : TokenRecord) (o : Option TokenRecord)
    → check_root r o ≡ ok tt
    → (q : TokenRecord) × (o ≡ some q) × (q.depth ≡ 0) × (q.root ≡ r.root)
unfolding check_root
check_root→origin r none h = ground arith
check_root→origin r (some q) h = (q, refl, ground arith, ground (arith, bytes_eq_iff q.root r.root))

origin→check_root :
    (r q : TokenRecord) → q.depth ≡ 0 → q.root ≡ r.root → check_root r (some q) ≡ ok tt
unfolding check_root
origin→check_root r q d e = ground (arith, bytes_eq_iff q.root r.root)

check_lineage→Linked :
    (m : Records) (h : Bytes) (r : TokenRecord) → check_lineage m h r ≡ ok tt → Linked m h r
unfolding check_lineage
check_lineage→Linked m h r e = elim (Bool-cases (r.depth == 0)) [
  | inl z ↦ record {
    lineage = inl (
      ground arith,
      ground (arith, bytes_eq_iff r.root h),
      ground (arith, bytes_eq_iff r.parent zero_hash),
    );
    origin = check_root→origin r (lookup r.root m) (ground arith);
  }
  | inr z ↦ record {
    lineage = inr (check_parent→ChildOf r (lookup r.parent m) (ground arith));
    origin = check_root→origin r (lookup r.root m) (ground arith);
  }
]

Linked→check_lineage :
    (m : Records) (h : Bytes) (r : TokenRecord) → Linked m h r → check_lineage m h r ≡ ok tt
unfolding check_lineage
Linked→check_lineage m h r l =
    let (q, e, d, s) = l.origin in
    elim l.lineage [
      | inl (z, a, b) ↦
          ground (
            arith,
            bytes_eq_iff r.root h,
            bytes_eq_iff r.parent zero_hash,
            origin→check_root r q d s,
          )
      | inr (p, f, c) ↦
          ground (arith, c.depth, ChildOf→check_parent r p c, origin→check_root r q d s)
    ]

-- The invariant of a store's records: one entry for each key, and every record passes the check.
pub record IsLinked (m : Records) : Type 0 where
  pub keys : IsMap m
  pub linked : (h : Bytes) (r : TokenRecord) → lookup h m ≡ some r → Linked m h r

is_ok_iff : (c : Checked) → (is_ok c ≡ true) ↔ (c ≡ ok tt)
is_ok_iff (ok tt) = (λ _. refl, λ _. refl)
is_ok_iff (err e) = (λ h. ground arith, λ h. ground arith)

-- `validateLoadedRecords` accepts a map of records exactly when each of them is linked.
pub validate_loaded_records_iff :
    (m : Records) → IsMap m → (validate_loaded_records m ≡ ok tt) ↔ IsLinked m
unfolding validate_loaded_records
validate_loaded_records_iff m keys = (
  λ e. record {
    keys = keys;
    linked = λ h r f. check_lineage→Linked m h r (
        (is_ok_iff (check_lineage m h r)).0
          (all_entries→lookup (λ h r. is_ok (check_lineage m h r)) h r m (ground arith) f));
  },
  λ l.
      rw
        (lookup→all_entries (λ h r. is_ok (check_lineage m h r)) m keys
          (λ h r f.
            (is_ok_iff (check_lineage m h r)).1 (Linked→check_lineage m h r (l.linked h r f))))
        refl,
)
