-- ===== src/Tokens/Settings.antt =====
-- internal/tokens/store.go: `normalizeOptions`. The defaults of `Rand` and `Now` are inputs of the
-- operations here and have no counterpart.
use forcefield.Base.{
  false, ℕ, ◌≤◌, ◌≡◌, ◌||◌, arith, ltb, if◌then◌else◌, Result, ok, ◌>>◌, reject, ℤ, pos, negsuc,
  is_negative, pos_part, is_nat,
}
use forcefield.Tokens.Types.{StoreError, invalid_request, Options}

abbrev pub hard_max_records : ℕ
hard_max_records = 65536

abbrev pub max_store_file_size : ℕ
max_store_file_size = 67108864

abbrev pub minimum_store_file_size : ℕ
minimum_store_file_size = 4096

-- The bounds as the caller gives them.
pub record RawOptions : Type 0 where
  pub max_delegation_depth : ℤ
  pub max_children_per_token : ℤ
  pub max_tokens_per_root : ℤ
  pub max_grants_per_token : ℤ
  pub max_records : ℤ
  pub store_file_size_limit : ℤ

-- `if bound == 0 { bound = default }`
unfoldable pub or_default : ℕ → ℤ → ℤ
or_default default bound = if is_nat 0 bound then pos default else bound

-- The bounds with their defaults.
unfoldable pub defaulted : RawOptions → Options
unfolding or_default
defaulted o = record {
  max_delegation_depth = pos_part (or_default 4 o.max_delegation_depth);
  max_children_per_token = pos_part (or_default 32 o.max_children_per_token);
  max_tokens_per_root = pos_part (or_default 256 o.max_tokens_per_root);
  max_grants_per_token = pos_part (or_default 64 o.max_grants_per_token);
  max_records = pos_part (or_default 16384 o.max_records);
  store_file_size_limit = pos_part (or_default max_store_file_size o.store_file_size_limit);
}

unfoldable pub normalize_options : RawOptions → Result StoreError Options
unfolding defaulted
normalize_options o = do
  reject
      (is_negative o.max_delegation_depth
        || is_negative o.max_children_per_token
        || is_negative o.max_tokens_per_root
        || is_negative o.max_grants_per_token
        || is_negative o.max_records)
      invalid_request
  let d = defaulted o
  reject
      (ltb 64 d.max_delegation_depth
        || ltb 1000000 d.max_children_per_token
        || ltb 1000000 d.max_tokens_per_root
        || ltb 4096 d.max_grants_per_token
        || ltb hard_max_records d.max_records)
      invalid_request
  reject
      (is_negative o.store_file_size_limit
        || ltb d.store_file_size_limit minimum_store_file_size
        || ltb max_store_file_size d.store_file_size_limit)
      invalid_request
  ok d

-- Bounds that the operations can rely on.
pub record InRange (o : Options) : Type 0 where
  pub depth : (1 ≤ o.max_delegation_depth) × (o.max_delegation_depth ≤ 64)
  pub children : (1 ≤ o.max_children_per_token) × (o.max_children_per_token ≤ 1000000)
  pub tokens : (1 ≤ o.max_tokens_per_root) × (o.max_tokens_per_root ≤ 1000000)
  pub grants : (1 ≤ o.max_grants_per_token) × (o.max_grants_per_token ≤ 4096)
  pub records : (1 ≤ o.max_records) × (o.max_records ≤ 65536)
  pub size : (4096 ≤ o.store_file_size_limit) × (o.store_file_size_limit ≤ 67108864)

or_default_pos : (d : ℕ) (b : ℤ) → 1 ≤ d → is_negative b ≡ false → 1 ≤ pos_part (or_default d b)
unfolding or_default
or_default_pos d (pos n) h e = ground arith
or_default_pos d (negsuc n) h e = ground arith

-- Options that pass have every bound positive and at most its hard ceiling, and a file size between
-- 4 KiB and 64 MiB.
pub normalize_options-InRange :
    (raw : RawOptions) (o : Options) → normalize_options raw ≡ ok o → InRange o
unfolding normalize_options
normalize_options-InRange raw o h = record {
  depth = ground (arith, or_default_pos 4 raw.max_delegation_depth);
  children = ground (arith, or_default_pos 32 raw.max_children_per_token);
  tokens = ground (arith, or_default_pos 256 raw.max_tokens_per_root);
  grants = ground (arith, or_default_pos 64 raw.max_grants_per_token);
  records = ground (arith, or_default_pos 16384 raw.max_records);
  size = ground arith;
}
