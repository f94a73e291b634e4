-- ===== src/Tokens/Disk.antt =====
-- internal/tokens/persistence.go: what is written to disk, and the checks of what is read. An
-- instant before the zero `time.Time` has no counterpart here.
pub mod Loads
use forcefield.Base.{
  bytes_ltb, ℕ, zero, suc, Bool, true, false, not, ◌&&◌, ◌||◌, Option, none, some, List, [], ◌∷◌,
  ltb, ◌==◌, if◌then◌else◌, Bytes, bytes_eq, length, map, Result, ok, err, ◌>>=◌, ◌>>◌, reject,
  lookup, put, has_key, ℤ, pos, negsuc, is_negative, pos_part, is_nat, exceeds,
}
use forcefield.Library.{Text, Codec}
use forcefield.Tokens.Types.{
  StoreError, invalid_token, corrupt_store, Grant, TokenRecord, Records, Options, zero_hash,
}
use forcefield.Tokens.Id.{token_id, parse_token_id}
use forcefield.Tokens.Settings.{hard_max_records}
use forcefield.Tokens.Lineage.{Checked, validate_loaded_records}
use forcefield.Tokens.Request.{validate_binding, validate_grant_set}
use forcefield.Tokens.Revoke.{at_key}

pub record DiskRecord : Type 0 where
  pub hash : Bytes
  pub parent : Bytes
  pub root : Bytes
  pub workload : Bytes
  pub audience : Bytes
  pub issued_at : ℕ
  pub expires_at : ℕ
  pub grants : List Grant
  pub allow_delegation : Bool
  pub depth : ℤ
  pub revoked_at : Option ℕ

pub record DiskState : Type 0 where
  pub version : ℤ
  pub records : List DiskRecord

-- `encoding/json` on these types: `decode` gives the first value and what follows it, `at_end` tells
-- whether only white space follows.
pub record Json : Type 0 where
  pub encode : DiskState → Result StoreError Bytes
  pub decode : Bytes → Option (DiskState × Bytes)
  pub at_end : Bytes → Bool

abbrev pub store_file_version : ℕ
store_file_version = 1

unfoldable pub insert_by_id : Codec → Bytes → List Bytes → List Bytes
unfolding bytes_ltb token_id
insert_by_id c h [] = h ∷ []
insert_by_id c h (j ∷ js) =
    if bytes_ltb (token_id c j) (token_id c h) then j ∷ insert_by_id c h js else h ∷ j ∷ js

-- The keys of the map, sorted by their identifiers.
unfoldable pub sorted_hashes : Codec → Records → List Bytes
unfolding insert_by_id
sorted_hashes c [] = []
sorted_hashes c ((h, r) ∷ m) = insert_by_id c h (sorted_hashes c m)

unfoldable pub disk_record : Codec → TokenRecord → DiskRecord
unfolding token_id
disk_record c r = record {
  hash = token_id c r.hash;
  parent = if ltb 0 r.depth then token_id c r.parent else [];
  root = token_id c r.root;
  workload = r.workload;
  audience = r.audience;
  issued_at = r.issued_at;
  expires_at = r.expires_at;
  grants = r.grants;
  allow_delegation = r.allow_delegation;
  depth = pos r.depth;
  revoked_at = r.revoked_at;
}

unfoldable pub disk_state : Codec → Records → DiskState
unfolding disk_record sorted_hashes at_key lookup
disk_state c m = record {
  version = pos store_file_version;
  records = map (λ h. disk_record c (at_key (lookup h m))) (sorted_hashes c m);
}

unfoldable pub encode_disk_state : Codec → Json → Records → Result StoreError Bytes
unfolding disk_state
encode_disk_state c j m = j.encode (disk_state c m)

-- `if err != nil { return corruptRecord(...) }`
abbrev pub or_corrupt {ℓ} : {A : Type ℓ} → Result StoreError A → Result StoreError A
or_corrupt (ok a) = ok a
or_corrupt (err e) = err corrupt_store

-- The parent's digest, which only a delegated token has.
unfoldable pub disk_parent : Codec → DiskRecord → Result StoreError Bytes
unfolding parse_token_id bytes_eq
disk_parent c d =
    if exceeds 0 d.depth
    then or_corrupt (parse_token_id c d.parent)
    else if not (bytes_eq d.parent [])
    then err corrupt_store
    else ok zero_hash

unfoldable pub disk_revocation : Option ℕ → Checked
disk_revocation none = ok tt
disk_revocation (some time) = reject (time == 0) corrupt_store

-- One round of the loop of `decodeDiskState`, with the records so far.
unfoldable pub decode_record :
    Text → Codec → Options → Records → DiskRecord → Result StoreError TokenRecord
unfolding parse_token_id has_key disk_parent validate_binding validate_grant_set disk_revocation
decode_record t c o seen d = do
  hash ← or_corrupt (parse_token_id c d.hash)
  reject (has_key hash seen) corrupt_store
  root ← or_corrupt (parse_token_id c d.root)
  parent ← disk_parent c d
  reject (is_negative d.depth || exceeds o.max_delegation_depth d.depth) corrupt_store
  or_corrupt (validate_binding t d.workload d.audience)
  or_corrupt (validate_grant_set t d.grants o.max_grants_per_token)
  reject (d.issued_at == 0 || d.expires_at == 0 || not (ltb d.issued_at d.expires_at)) corrupt_store
  disk_revocation d.revoked_at
  ok (record {
    hash = hash;
    parent = parent;
    root = root;
    workload = d.workload;
    audience = d.audience;
    issued_at = d.issued_at;
    expires_at = d.expires_at;
    grants = d.grants;
    allow_delegation = d.allow_delegation;
    depth = pos_part d.depth;
    revoked_at = d.revoked_at;
  })

unfoldable pub decode_records :
    Text → Codec → Options → Records → List DiskRecord → Result StoreError Records
unfolding decode_record put
decode_records t c o seen [] = ok seen
decode_records t c o seen (d ∷ ds) = do
  r ← decode_record t c o seen d
  decode_records t c o (put r.hash r seen) ds

abbrev pub decoded : Option (DiskState × Bytes) → Result StoreError (DiskState × Bytes)
decoded none = err corrupt_store
decoded (some s) = ok s

unfoldable pub decode_disk_state : Text → Codec → Json → Options → Bytes → Result StoreError Records
unfolding decode_records validate_loaded_records
decode_disk_state t c j o contents = do
  (state, rest) ← decoded (j.decode contents)
  reject (not (j.at_end rest)) corrupt_store
  reject (not (is_nat store_file_version state.version)) corrupt_store
  reject (ltb hard_max_records (length state.records)) corrupt_store
  records ← decode_records t c o [] state.records
  validate_loaded_records records
  ok records
