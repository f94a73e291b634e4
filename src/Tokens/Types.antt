-- ===== src/Tokens/Types.antt =====
-- internal/tokens/types.go and the declarations of internal/tokens/store.go. An instant is the
-- number of nanoseconds since the zero `time.Time`, so that `IsZero` is a test for 0 and
-- `canonicalTime`, which keeps the instant, has no counterpart.
use forcefield.Base.{ℕ, Bool, Option, List, Bytes, bytes, Map, replicate}

-- `cancelled` is the context's error, `io_failure` an error of the file system or the encoder.
-- `diverges` belongs to the model: the code would not return.
pub data StoreError : Type 0 where
  invalid_token invalid_request delegation_not_allowed expiry_broadening grant_broadening :
      StoreError
  delegation_depth child_limit root_token_limit entropy corrupt_store store_closed : StoreError
  record_limit insecure_permissions symlink store_locked cancelled io_failure diverges : StoreError

-- 0 is "unlimited" in each field.
pub record Limits : Type 0 where
  pub requests_per_second : ℕ
  pub burst : ℕ
  pub request_budget : ℕ
  pub byte_budget : ℕ
  pub max_request_bytes : ℕ

pub record Grant : Type 0 where
  pub service : Bytes
  pub credential_ref : Bytes
  pub policy_revision : Bytes
  pub binding_revision : Bytes
  pub limits : Limits

pub record TokenRecord : Type 0 where
  pub hash : Bytes
  pub parent : Bytes
  pub root : Bytes
  pub workload : Bytes
  pub audience : Bytes
  pub issued_at : ℕ
  pub expires_at : ℕ
  pub grants : List Grant
  pub allow_delegation : Bool
  pub depth : ℕ
  pub revoked_at : Option ℕ

abbrev pub Records : Type 0
Records = Map TokenRecord

pub record MintRequest : Type 0 where
  pub workload : Bytes
  pub audience : Bytes
  pub expires_at : ℕ
  pub grants : List Grant
  pub allow_delegation : Bool

pub record DelegateRequest : Type 0 where
  pub caller_workload : Bytes
  pub audience : Bytes
  pub workload : Bytes
  pub expires_at : ℕ
  pub grants : List Grant
  pub allow_delegation : Bool

pub record ValidationRequest : Type 0 where
  pub workload : Bytes
  pub audience : Bytes

pub record LimitScope : Type 0 where
  pub token_id : Bytes
  pub expires_at : ℕ
  pub grants : List Grant

-- `parent_token_id` is empty for a root token.
pub record Claims : Type 0 where
  pub token_id : Bytes
  pub parent_token_id : Bytes
  pub root_token_id : Bytes
  pub workload : Bytes
  pub audience : Bytes
  pub issued_at : ℕ
  pub expires_at : ℕ
  pub grants : List Grant
  pub allow_delegation : Bool
  pub depth : ℕ
  pub revoked_at : Option ℕ
  pub limit_chain : List LimitScope

pub record IssuedToken : Type 0 where
  pub bearer : Bytes
  pub claims : Claims

-- The resource bounds after `normalizeOptions`.
pub record Options : Type 0 where
  pub max_delegation_depth : ℕ
  pub max_children_per_token : ℕ
  pub max_tokens_per_root : ℕ
  pub max_grants_per_token : ℕ
  pub max_records : ℕ
  pub store_file_size_limit : ℕ

pub record Store : Type 0 where
  pub records : Records
  pub opts : Options
  pub closed : Bool

abbrev pub bearer_prefix : Bytes
bearer_prefix = bytes "ff_"

abbrev pub bearer_length : ℕ
bearer_length = 46

abbrev pub token_bytes : ℕ
token_bytes = 32

-- `tokenHash{}`
abbrev pub zero_hash : Bytes
zero_hash = replicate 32 0

-- `time.Unix(0, 0)`
abbrev pub unix_epoch : ℕ
unix_epoch = 62135596800000000000

-- `record{}`
abbrev pub zero_record : TokenRecord
zero_record = record {
  hash = zero_hash;
  parent = zero_hash;
  root = zero_hash;
  workload = List.[];
  audience = List.[];
  issued_at = 0;
  expires_at = 0;
  grants = List.[];
  allow_delegation = Bool.false;
  depth = 0;
  revoked_at = Option.none;
}
