-- ===== src/Tokens/Tests.antt =====
-- Tests of the parts below the token store, of loading and opening it, and instances of their
-- theorems.
use forcefield.Base.{
  retain, all_entries, bytes_eq, IsMap, Any, bytes, pos, ok, All, Bool, replicate, lookup, ℕ, ◌≡◌,
  ◌↔◌, refl, none, some, true, false, [], ◌∷◌, arith,
}
use forcefield.Tokens.Store.Samples.{
  sample_text, sample_codec, sample_options, quiet_disk, family, family-IsMap, family-IsLinked,
  family_store-IsValid, root_bearer, root_token, sample_grant,
}
use forcefield.Tokens.Disk.{DiskRecord, decode_disk_state, Json}
use forcefield.Tokens.Types.{Records, Store, TokenRecord}
use forcefield.Tokens.Chain.{
  record_or_ancestor_inactive-Answers, record_or_ancestor_inactive, Stale, Answers,
}
use forcefield.Tokens.Open.{open_store-Opened, Opened, open_store, Environment}
use forcefield.Tokens.Lineage.{validate_loaded_records_iff, IsLinked, validate_loaded_records}
use forcefield.Tokens.Settings.{normalize_options-InRange, normalize_options, InRange, RawOptions}
use forcefield.Tokens.Bounds.{validate_loaded_bounds_iff, WithinBounds, validate_loaded_bounds}
use forcefield.Tokens.Prune.{prune_inactive}
use forcefield.Tokens.Grants.{limit_no_broader_iff, Permits, limit_no_broader, grants_are_subset}
use forcefield.Tokens.Disk.Loads.{decode_disk_state-Loaded, Loaded}
use forcefield.Tokens.Persist.{store_mode, present, FileInfo}
use forcefield.Tokens.Grants.Order.{grants_are_subset-Within, Within, grants_are_subset_trans}
use forcefield.Tokens.Request.{validate_grants}
use forcefield.Tokens.Revoke.{cost, walk}
use forcefield.Tokens.Prune.Keeps.{prune_inactive-Pruned, Pruned}
use forcefield.Tokens.Revoke.Walk.{walk-Cascade, Cascade}
use forcefield.Tokens.Revoke.Cost.{total-start}

prune_inactive-Pruned_example :
    (m' : Records) × (changed : Bool) × (prune_inactive family 85 ≡ some (m', changed))
    × Pruned family 85 m'
    × IsMap m'
    × (changed ≡ false → m' ≡ family)
prune_inactive-Pruned_example = prune_inactive-Pruned family 85 family-IsMap

-- At 85 the child has expired and the root has not.
prune_test : prune_inactive family 85 ≡ some ((root_bearer, root_token) ∷ [], true)
unfolding prune_inactive retain
prune_test = refl

root_stored : lookup root_bearer family ≡ some root_token
unfolding lookup
root_stored = refl

walk-Cascade_example :
    (next : Records) × (changed : Bool) × (walk (cost 2 4) 30 family family (root_bearer ∷ []) false
      ≡ some (next, changed))
    × Cascade family 30 root_bearer next
    × (changed ≡ false → next ≡ family)
walk-Cascade_example =
    walk-Cascade family 30 root_bearer 4 family-IsLinked family_store-IsValid.deep (cost 2 4)
      root_token root_stored (total-start family 4 root_bearer)

validate_loaded_records_iff_example : (validate_loaded_records family ≡ ok tt) ↔ IsLinked family
validate_loaded_records_iff_example = validate_loaded_records_iff family family-IsMap

validate_loaded_bounds_iff_example :
    (validate_loaded_bounds family sample_options ≡ ok tt) ↔ WithinBounds sample_options family
validate_loaded_bounds_iff_example = validate_loaded_bounds_iff family sample_options

grants_are_subset-Within_example :
    All (λ g. Any (Within g) (sample_grant 50 ∷ [])) (sample_grant 10 ∷ [])
unfolding grants_are_subset bytes_eq
grants_are_subset-Within_example =
    grants_are_subset-Within (sample_grant 10 ∷ []) (sample_grant 50 ∷ []) refl

grants_are_subset_trans_example :
    grants_are_subset (sample_grant 7 ∷ []) (sample_grant 50 ∷ []) ≡ true
unfolding grants_are_subset bytes_eq
grants_are_subset_trans_example =
    grants_are_subset_trans (sample_grant 7 ∷ []) (sample_grant 10 ∷ []) (sample_grant 50 ∷ []) refl
      refl

limit_no_broader_iff_example :
    (limit_no_broader 0 9 ≡ true) ↔ ((amount : ℕ) → Permits 0 amount → Permits 9 amount)
limit_no_broader_iff_example = limit_no_broader_iff 0 9

record_or_ancestor_inactive-Answers_example :
    Answers family 30 family-IsLinked
      (Stale family 30 root_token)
      (record_or_ancestor_inactive 1 family 30 root_token)
record_or_ancestor_inactive-Answers_example =
    record_or_ancestor_inactive-Answers family 30 family-IsLinked 1 root_bearer root_token
      root_stored (omega arith)

-- The file of a store with one root token.
abbrev stored_token : DiskRecord
stored_token = record {
  hash = replicate 64 65;
  parent = [];
  root = replicate 64 65;
  workload = bytes "vm";
  audience = bytes "ff";
  issued_at = 10;
  expires_at = 100;
  grants = sample_grant 50 ∷ [];
  allow_delegation = true;
  depth = pos 0;
  revoked_at = none;
}

abbrev sample_json : Json
sample_json = record {
  encode = λ s. ok [];
  decode = λ s. some (record { version = pos 1; records = stored_token ∷ [] }, []);
  at_end = λ s. true;
}

abbrev loaded_token : TokenRecord
loaded_token = record root_token { hash = replicate 32 65; root = replicate 32 65 }

abbrev loaded : Records
loaded = (replicate 32 65, loaded_token) ∷ []

decode_test : decode_disk_state sample_text sample_codec sample_json sample_options [] ≡ ok loaded
unfolding decode_disk_state grants_are_subset validate_grants lookup all_entries
decode_test = refl

decode_disk_state-Loaded_example : Loaded sample_text sample_options loaded × IsLinked loaded
decode_disk_state-Loaded_example =
    decode_disk_state-Loaded sample_text sample_codec sample_json sample_options [] loaded
      decode_test

abbrev no_options : RawOptions
no_options = record {
  max_delegation_depth = pos 0;
  max_children_per_token = pos 0;
  max_tokens_per_root = pos 0;
  max_grants_per_token = pos 0;
  max_records = pos 0;
  store_file_size_limit = pos 0;
}

defaults_test : normalize_options no_options ≡ ok sample_options
unfolding normalize_options
defaults_test = refl

normalize_options-InRange_example : InRange sample_options
normalize_options-InRange_example =
    normalize_options-InRange no_options sample_options defaults_test

abbrev good_file : FileInfo
good_file = record {
  is_symlink = false;
  is_regular = true;
  mode = store_mode;
  owner = none;
  size = 1000;
}

abbrev sample_environment : Environment
sample_environment = record {
  absolute_path = none;
  secure_directory = none;
  lock = none;
  file = record {
    secure_directory = none;
    path = present good_file;
    open_file = none;
    opened = ok good_file;
    same_file = true;
    contents = ok [];
  };
  now = 30;
  disk = quiet_disk;
}

abbrev opened_store : Store
opened_store = record { records = loaded; opts = sample_options; closed = false }

open_test :
    open_store sample_text sample_codec sample_json sample_environment (bytes "store") no_options
    ≡ ok opened_store
unfolding open_store grants_are_subset validate_grants lookup
open_test = refl

open_store-Opened_example : Opened 30 opened_store
open_store-Opened_example =
    open_store-Opened sample_text sample_codec sample_json sample_environment (bytes "store")
      no_options opened_store open_test
