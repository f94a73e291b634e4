-- ===== src/Tokens/Open.antt =====
-- internal/tokens: `Open` and `load`, over the outcomes of the calls to the file system.
use forcefield.Base.{
  ◌||◌, ℕ, ◌+◌, ◌≤◌, ◌≡◌, refl, subst, Bool, false, not, Option, none, some, [], arith, ltb,
  if◌then◌else◌, is_some, Bytes, bytes_eq, length, take, Result, ok, err, ◌>>=◌, ◌>>◌, reject,
  check, lookup, IsMap,
}
use forcefield.Library.{Text, Codec}
use forcefield.Tokens.Types.{
  StoreError, invalid_request, corrupt_store, symlink, TokenRecord, Records, Options, Store,
}
use forcefield.Tokens.Settings.{RawOptions, normalize_options, InRange, normalize_options-InRange}
use forcefield.Tokens.Lineage.{IsLinked}
use forcefield.Tokens.Chain.{Stale, here, above}
use forcefield.Tokens.Prune.{prune_inactive}
use forcefield.Tokens.Prune.Keeps.{Pruned, kept_from, prune_inactive-Pruned, Pruned-IsLinked}
use forcefield.Tokens.Persist.{
  FileInfo, Lstat, absent, unreadable, present, Disk, check_file, persist,
  ensure_revocation_capacity,
}
use forcefield.Tokens.Disk.{Json, decode_disk_state, encode_disk_state, or_corrupt}
use forcefield.Tokens.Disk.Loads.{decode_disk_state-Loaded, steps-ok}
use forcefield.Tokens.Bounds.{validate_loaded_bounds, WithinBounds, validate_loaded_bounds_iff}
use forcefield.Tokens.Store.{or_diverges}
use forcefield.Tokens.Store.Ends.{IsValid}
use forcefield.Tokens.Store.Delegation.{or_diverges-ok}

-- What `load` meets: `ensureSecureDirectory`, `os.Lstat`, `os.Open`, `Stat` and `SameFile` of the
-- opened file, and its bytes.
pub record StoreFile : Type 0 where
  pub secure_directory : Option StoreError
  pub path : Lstat
  pub open_file : Option StoreError
  pub opened : Result StoreError FileInfo
  pub same_file : Bool
  pub contents : Result StoreError Bytes

-- What `Open` meets, before and after it loads the file.
pub record Environment : Type 0 where
  pub absolute_path : Option StoreError
  pub secure_directory : Option StoreError
  pub lock : Option StoreError
  pub file : StoreFile
  pub now : ℕ
  pub disk : Disk

-- `load` once the file is known to exist.
unfoldable pub read_store :
    Text → Codec → Json → Options → StoreFile → FileInfo → Result StoreError Records
unfolding check_file decode_disk_state
read_store t c j o f info = do
  check_file info
  check f.open_file
  opened ← f.opened
  reject (not f.same_file) symlink
  check opened.owner
  reject (ltb o.store_file_size_limit opened.size) corrupt_store
  bytes ← f.contents
  let contents = take (o.store_file_size_limit + 1) bytes
  reject (ltb o.store_file_size_limit (length contents)) corrupt_store
  decode_disk_state t c j o contents

-- `none` is a store that does not exist yet.
unfoldable pub load : Text → Codec → Json → Options → StoreFile → Result StoreError (Option Records)
unfolding read_store
load t c j o f = do
  check f.secure_directory
  elim f.path [
    | absent ↦ ok none
    | unreadable e ↦ err e
    | present info ↦ do records ← read_store t c j o f info; ok (some records)
  ]

abbrev pub records_of : Option Records → Records
records_of none = []
records_of (some m) = m

unfoldable pub open_store :
    Text → Codec → Json → Environment → Bytes → RawOptions → Result StoreError Store
unfolding normalize_options load prune_inactive validate_loaded_bounds ensure_revocation_capacity
    encode_disk_state persist
open_store t c j env path raw = do
  reject (bytes_eq path []) invalid_request
  o ← normalize_options raw
  check env.absolute_path
  check env.secure_directory
  check env.lock
  found ← load t c j o env.file
  (records, changed) ← or_diverges (prune_inactive (records_of found) env.now)
  validate_loaded_bounds records o
  or_corrupt (ensure_revocation_capacity o (encode_disk_state c j) records)
  (if not (is_some found) || changed
      then (persist env.disk o (encode_disk_state c j) records).1
      else ok tt)
  ok (record { records = records; opts = o; closed = false })

-- The invariant of the records of a loaded store.
record Sane (o : Options) (m : Records) : Type 0 where
  linked : IsLinked m
  named : (h : Bytes) (r : TokenRecord) → lookup h m ≡ some r → r.hash ≡ h
  deep : (h : Bytes) (r : TokenRecord) → lookup h m ≡ some r → r.depth ≤ o.max_delegation_depth

Sane-nil : (o : Options) → Sane o []
unfolding lookup
Sane-nil o = record {
  linked = record { keys = tt; linked = λ h r e. absurd (ground arith) };
  named = λ h r e. absurd (ground arith);
  deep = λ h r e. absurd (ground arith);
}

read_store-Sane :
    (t : Text) (c : Codec) (j : Json) (o : Options) (f : StoreFile) (i : FileInfo) (m : Records)
    → read_store t c j o f i ≡ ok m
    → Sane o m
unfolding read_store
read_store-Sane t c j o f i m e =
    let (_, _, f₁) = steps-ok (check_file i) _ e in
    let (_, _, f₂) = steps-ok (check f.open_file) _ f₁ in
    let (opened, _, f₃) = steps-ok f.opened _ f₂ in
    let (_, _, f₄) = steps-ok (reject (not f.same_file) symlink) _ f₃ in
    let (_, _, f₅) = steps-ok (check opened.owner) _ f₄ in
    let (_, _, f₆) =
      steps-ok (reject (ltb o.store_file_size_limit opened.size) corrupt_store) _ f₅ in
    let (bytes, _, f₇) = steps-ok f.contents _ f₆ in
    let contents = take (o.store_file_size_limit + 1) bytes in
    let (_, _, f₈) =
      steps-ok (reject (ltb o.store_file_size_limit (length contents)) corrupt_store) _ f₇ in
    let (l, k) = decode_disk_state-Loaded t c j o contents m f₈ in
    record { linked = k; named = l.named; deep = λ h r x. (l.sound h r x).depth }

load-Sane :
    (t : Text) (c : Codec) (j : Json) (o : Options) (f : StoreFile) (found : Option Records)
    → load t c j o f ≡ ok found
    → Sane o (records_of found)
unfolding load
load-Sane t c j o f found e =
    let (_, _, g) = steps-ok (check f.secure_directory) _ e in at_path f.path g
  where
    at_path :
        (p : Lstat)
        → ◌≡◌ {A = Result StoreError (Option Records)}
            (elim p [
              | absent ↦ ok none
              | unreadable e ↦ err e
              | present info ↦ read_store t c j o f info >>= λ records. ok (some records)
            ])
            (ok found)
        → Sane o (records_of found)
    at_path absent g =
        let same : none ≡ found = ground arith in
        subst (λ x. Sane o (records_of x)) same (Sane-nil o)
    at_path (unreadable x) g = absurd (ground arith)
    at_path (present i) g =
        let (m, h, k) = steps-ok (read_store t c j o f i) _ g in
        let same : some m ≡ found = ground arith in
        subst (λ x. Sane o (records_of x)) same (read_store-Sane t c j o f i m h)

Stale-before :
    (m m' : Records) (now : ℕ) {r : TokenRecord}
    → IsLinked m
    → Pruned m now m'
    → Stale m' now r
    → Stale m now r
Stale-before m m' now l p (here i) = here i
Stale-before m m' now {r} l p (above {p = q} d e st) =
    above d (kept_from m m' now l p r.parent q e).0 (Stale-before m m' now l p st)

-- An opened store: valid and open, its bounds within the hard ceilings and its records within its
-- bounds, and no token in it revoked or expired, nor below one that is.
pub record Opened (now : ℕ) (s : Store) : Type 0 where
  pub valid : IsValid s
  pub is_open : s.closed ≡ false
  pub range : InRange s.opts
  pub bounds : WithinBounds s.opts s.records
  pub fresh : (h : Bytes) (r : TokenRecord) → lookup h s.records ≡ some r → ¬ Stale s.records now r

Pruned-Opened :
    (o : Options) (m m' : Records) (now : ℕ)
    → Sane o m
    → InRange o
    → WithinBounds o m'
    → Pruned m now m'
    → IsMap m'
    → Opened now (record { records = m'; opts = o; closed = false })
Pruned-Opened o m m' now s range bounds p keys =
    let from = kept_from m m' now s.linked p in
    record {
      valid = record {
        linked = Pruned-IsLinked m m' now s.linked p keys;
        named = λ h r e. s.named h r (from h r e).0;
        deep = λ h r e. s.deep h r (from h r e).0;
      };
      is_open = refl;
      range = range;
      bounds = bounds;
      fresh = λ h r e st. (from h r e).1 (Stale-before m m' now s.linked p st);
    }

-- Whatever the file system holds, a store that `Open` returns satisfies the invariant of its
-- operations, has options in range and records within them, and holds no token that is revoked or
-- expired, or stands below one that is.
pub open_store-Opened :
    (t : Text) (c : Codec) (j : Json) (env : Environment) (path : Bytes) (raw : RawOptions)
    (s : Store)
    → open_store t c j env path raw ≡ ok s
    → Opened env.now s
unfolding open_store
open_store-Opened t c j env path raw s e =
    let (_, _, f₁) = steps-ok (reject (bytes_eq path []) invalid_request) _ e in
    let (o, e₂, f₂) = steps-ok (normalize_options raw) _ f₁ in
    let (_, _, f₃) = steps-ok (check env.absolute_path) _ f₂ in
    let (_, _, f₄) = steps-ok (check env.secure_directory) _ f₃ in
    let (_, _, f₅) = steps-ok (check env.lock) _ f₄ in
    let (found, e₆, f₆) = steps-ok (load t c j o env.file) _ f₅ in
    let ((m, changed), e₇, f₇) =
      steps-ok (or_diverges (prune_inactive (records_of found) env.now)) _ f₆ in
    let (_, e₈, f₈) = steps-ok (validate_loaded_bounds m o) _ f₇ in
    let (_, _, f₉) =
      steps-ok (or_corrupt (ensure_revocation_capacity o (encode_disk_state c j) m)) _ f₈ in
    let (_, _, g) =
      steps-ok
        (if not (is_some found) || changed
          then (persist env.disk o (encode_disk_state c j) m).1
          else ok tt)
        _ f₉ in
    let sane = load-Sane t c j o env.file found e₆ in
    let (m', changed', h, p, keys, _) =
      prune_inactive-Pruned (records_of found) env.now sane.linked.keys in
    let same : m' ≡ m = let x = or_diverges-ok _ _ e₇ in ground arith in
    subst (Opened env.now) (ground arith) (
      Pruned-Opened o (records_of found) m env.now sane (normalize_options-InRange raw o e₂)
        ((validate_loaded_bounds_iff m o).0 e₈) (subst (Pruned (records_of found) env.now) same p)
        (subst IsMap same keys))
