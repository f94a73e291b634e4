-- ===== src/Tokens/Persist.antt =====
-- internal/tokens/persistence.go: `persist`, over the outcomes of the calls that it makes to the file
-- system, and the capacity checks of internal/tokens/store.go.
use forcefield.Base.{
  ◌==◌, not, ℕ, ◌+◌, ◌-◌, ◌*◌, ◌≡◌, refl, Bool, true, false, ◌||◌, Option, arith, leb, ltb, Bytes,
  length, Result, ok, err, ◌>>=◌, ◌>>◌, reject, check,
}
use forcefield.Tokens.Types.{
  StoreError, io_failure, record_limit, insecure_permissions, symlink, Records, Options,
}
use forcefield.Tokens.Lineage.{Checked}

abbrev pub fixed_revocation_headroom : ℕ
fixed_revocation_headroom = 4096

abbrev pub per_record_revocation_headroom : ℕ
per_record_revocation_headroom = 128

-- What `os.Lstat` and `ensureCurrentOwner` say of a file. `mode` is the permission bits.
pub record FileInfo : Type 0 where
  pub is_symlink : Bool
  pub is_regular : Bool
  pub mode : ℕ
  pub owner : Option StoreError
  pub size : ℕ

pub data Lstat : Type 0 where
  absent : Lstat
  unreadable : StoreError → Lstat
  present : FileInfo → Lstat

-- 0600
abbrev pub store_mode : ℕ
store_mode = 384

-- The tests that `load` and `inspectDestination` make of the store's file.
unfoldable pub check_file : FileInfo → Checked
check_file i = do
  reject i.is_symlink symlink
  reject (not i.is_regular) insecure_permissions
  reject (not (i.mode == store_mode)) insecure_permissions
  check i.owner

unfoldable pub inspect_destination : Lstat → Checked
unfolding check_file
inspect_destination absent = ok tt
inspect_destination (unreadable e) = err e
inspect_destination (present i) = check_file i

-- The outcome of each step of one call of `persist`, `none` where it succeeds. The destination is
-- looked at before the file is written and again before the rename.
pub record Disk : Type 0 where
  pub secure_directory : Option StoreError
  pub destination : Lstat
  pub create_temp : Option StoreError
  pub chmod : Option StoreError
  pub write : Option StoreError
  pub sync : Option StoreError
  pub close : Option StoreError
  pub destination_again : Lstat
  pub rename : Option StoreError
  pub open_directory : Option StoreError
  pub sync_directory : Option StoreError
  pub close_directory : Option StoreError

-- `encodeDiskState`
abbrev pub Encoder : Type 0
Encoder = Records → Result StoreError Bytes

-- The steps up to the rename.
unfoldable pub before_commit : Disk → Options → Encoder → Records → Checked
before_commit d o encode records = do
  check d.secure_directory
  inspect_destination d.destination
  contents ← encode records
  reject (ltb o.store_file_size_limit (length contents)) io_failure
  check d.create_temp
  check d.chmod
  check d.write
  check d.sync
  check d.close
  inspect_destination d.destination_again
  check d.rename

unfoldable pub after_commit : Disk → Checked
after_commit d = do check d.open_directory; check d.sync_directory; check d.close_directory

-- `committed` and the error, after the steps before and after the rename.
unfoldable pub outcome : Checked → Checked → Bool × Checked
outcome (err e) after = (false, err e)
outcome (ok u) after = (true, after)

unfoldable pub persist : Disk → Options → Encoder → Records → Bool × Checked
unfolding outcome before_commit after_commit
persist d o encode records = outcome (before_commit d o encode records) (after_commit d)

unfoldable pub ensure_revocation_capacity : Options → Encoder → Records → Checked
ensure_revocation_capacity o encode records = do
  contents ← encode records
  let reserve = fixed_revocation_headroom + length records * per_record_revocation_headroom
  reject
      (leb o.store_file_size_limit reserve
        || ltb (o.store_file_size_limit - reserve) (length contents))
      record_limit

unfoldable pub ensure_append_capacity : Options → Encoder → Records → Checked
unfolding ensure_revocation_capacity
ensure_append_capacity o encode records = do
  reject (ltb o.max_records (length records)) record_limit
  ensure_revocation_capacity o encode records

outcome-committed :
    (before after : Checked) → (outcome before after).1 ≡ ok tt → (outcome before after).0 ≡ true
unfolding outcome
outcome-committed (err e) after h = ground arith
outcome-committed (ok u) after h = refl

-- A call of `persist` that returns no error has committed.
pub persist-committed :
    (d : Disk) (o : Options) (encode : Encoder) (m : Records)
    → (persist d o encode m).1 ≡ ok tt
    → (persist d o encode m).0 ≡ true
unfolding persist
persist-committed d o encode m h = outcome-committed (before_commit d o encode m) (after_commit d) h
