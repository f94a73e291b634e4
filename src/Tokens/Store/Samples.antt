-- ===== src/Tokens/Store/Samples.antt =====
-- Concrete inputs for the tests of the token store: a codec that is the identity where it can be, a
-- root token, its child, and a store that holds both.
use forcefield.Base.{
  ℕ, ◌≡◌, refl, true, false, ◌&&◌, none, some, [], ◌∷◌, ◌++◌, arith, leb, Bytes, bytes, bytes_eq,
  bytes_eq_iff, take, replicate, ok, lookup, all_entries, all_entries→lookup, IsMap,
}
use forcefield.Library.{Text, Codec}
use forcefield.Tokens.Types.{
  Limits, Grant, TokenRecord, Records, Options, Store, MintRequest, DelegateRequest,
  ValidationRequest, zero_hash, bearer_prefix,
}
use forcefield.Tokens.Lineage.{IsLinked, validate_loaded_records, validate_loaded_records_iff}
use forcefield.Tokens.Grants.{grants_are_subset}
use forcefield.Tokens.Persist.{Disk, absent}
use forcefield.Tokens.Store.{World}
use forcefield.Tokens.Store.Ends.{IsValid}

abbrev pub sample_text : Text
sample_text = record {
  valid_utf8 = λ s. true;
  trim_space = λ s. s;
  runes = λ s. s;
  is_control = λ r. leb r 31;
}

abbrev pub sample_codec : Codec
sample_codec = record {
  sha256 = λ s. s;
  base64_encode = λ s. s ++ replicate 11 65;
  base64_decode = λ s. some (take 32 s);
  hex_encode = λ s. s;
  hex_decode = λ s. some (take 32 s);
}

abbrev pub quiet_disk : Disk
quiet_disk = record {
  secure_directory = none;
  destination = absent;
  create_temp = none;
  chmod = none;
  write = none;
  sync = none;
  close = none;
  destination_again = absent;
  rename = none;
  open_directory = none;
  sync_directory = none;
  close_directory = none;
}

-- Every source works, at a given time.
abbrev pub sample_world : ℕ → World
sample_world now = record {
  now = now;
  context_error = λ look. none;
  random = λ n. some (replicate 32 70);
  encode = λ m. ok [];
  prune_disk = quiet_disk;
  commit_disk = quiet_disk;
}

abbrev pub sample_options : Options
sample_options = record {
  max_delegation_depth = 4;
  max_children_per_token = 32;
  max_tokens_per_root = 256;
  max_grants_per_token = 64;
  max_records = 16384;
  store_file_size_limit = 67108864;
}

abbrev pub sample_limits : ℕ → Limits
sample_limits budget = record {
  requests_per_second = 5;
  burst = 2;
  request_budget = budget;
  byte_budget = 0;
  max_request_bytes = 1000;
}

abbrev pub sample_grant : ℕ → Grant
sample_grant budget = record {
  service = bytes "api";
  credential_ref = bytes "key";
  policy_revision = bytes "p1";
  binding_revision = bytes "b1";
  limits = sample_limits budget;
}

abbrev pub root_bearer : Bytes
root_bearer = bearer_prefix ++ replicate 43 65

abbrev pub child_bearer : Bytes
child_bearer = bearer_prefix ++ replicate 32 66 ++ replicate 11 65

abbrev pub root_token : TokenRecord
root_token = record {
  hash = root_bearer;
  parent = zero_hash;
  root = root_bearer;
  workload = bytes "vm";
  audience = bytes "ff";
  issued_at = 10;
  expires_at = 100;
  grants = sample_grant 50 ∷ [];
  allow_delegation = true;
  depth = 0;
  revoked_at = none;
}

abbrev pub child_token : TokenRecord
child_token = record {
  hash = child_bearer;
  parent = root_bearer;
  root = root_bearer;
  workload = bytes "job";
  audience = bytes "ff";
  issued_at = 20;
  expires_at = 80;
  grants = sample_grant 10 ∷ [];
  allow_delegation = false;
  depth = 1;
  revoked_at = none;
}

abbrev pub family : Records
family = (root_bearer, root_token) ∷ (child_bearer, child_token) ∷ []

abbrev pub family_store : Store
family_store = record { records = family; opts = sample_options; closed = false }

abbrev pub sample_mint : MintRequest
sample_mint = record {
  workload = bytes "vm2";
  audience = bytes "ff";
  expires_at = 90;
  grants = sample_grant 7 ∷ [];
  allow_delegation = true;
}

abbrev pub sample_delegate : DelegateRequest
sample_delegate = record {
  caller_workload = bytes "vm";
  audience = bytes "ff";
  workload = bytes "job2";
  expires_at = 70;
  grants = sample_grant 7 ∷ [];
  allow_delegation = false;
}

abbrev pub root_request : ValidationRequest
root_request = record { workload = bytes "vm"; audience = bytes "ff" }

abbrev pub child_request : ValidationRequest
child_request = record { workload = bytes "job"; audience = bytes "ff" }

pub family-IsMap : IsMap family
unfolding lookup
family-IsMap = (refl, (refl, tt))

family_checked : validate_loaded_records family ≡ ok tt
unfolding validate_loaded_records lookup all_entries grants_are_subset
family_checked = refl

pub family-IsLinked : IsLinked family
family-IsLinked = (validate_loaded_records_iff family family-IsMap).0 family_checked

family_named : all_entries (λ h r. bytes_eq r.hash h && leb r.depth 4) family ≡ true
unfolding all_entries bytes_eq
family_named = refl

pub family_store-IsValid : IsValid family_store
family_store-IsValid = record {
  linked = family-IsLinked;
  named = λ h r e.
      let x =
        all_entries→lookup (λ h r. bytes_eq r.hash h && leb r.depth 4) h r family family_named e in
      (bytes_eq_iff r.hash h).0 (ground arith);
  deep = λ h r e.
      let x =
        all_entries→lookup (λ h r. bytes_eq r.hash h && leb r.depth 4) h r family family_named e in
      ground arith;
}
