-- ===== src/Tokens/Bounds.antt =====
-- internal/tokens/persistence.go: `validateLoadedBounds`, the resource bounds of a loaded store.
use mathlib.Core.Path.{fun_ext}
use forcefield.Base.{
  ap, ◌&&◌, Option-cases, ℕ, suc, ◌+◌, ◌≤◌, ◌≡◌, ◌↔◌, inl, inr, Bool, true, false, not, Option,
  none, some, [], ◌∷◌, arith, leb, ltb, Bytes, bytes_eq, bytes_eq_iff, length, ok, ◌>>◌, reject,
  Map, lookup, put, lookup-put, put-IsMap, IsMap, all_entries, all_entries→lookup,
  lookup→all_entries, count_entries,
}
use forcefield.Tokens.Types.{corrupt_store, TokenRecord, Records, Options}
use forcefield.Tokens.Lineage.{Checked}

-- `counts[key]`, 0 for a key that is missing.
abbrev pub count_at : Option ℕ → ℕ
count_at none = 0
count_at (some n) = n

-- `counts[key]++`, if there is a key.
unfoldable pub increment : Option Bytes → Map ℕ → Map ℕ
unfolding put lookup
increment none counts = counts
increment (some k) counts = put k (suc (count_at (lookup k counts))) counts

-- The counts of the records under their keys, after those of `counts`.
unfoldable pub tally : (TokenRecord → Option Bytes) → Map ℕ → Records → Map ℕ
unfolding increment
tally key counts [] = counts
tally key counts ((h, r) ∷ m) = tally key (increment (key r) counts) m

-- `children[rec.parent]`, for a delegated record, and `roots[rec.root]`.
abbrev pub only_if : Bool → Bytes → Option Bytes
only_if true k = some k
only_if false k = none

abbrev pub parent_key : TokenRecord → Option Bytes
parent_key r = only_if (ltb 0 r.depth) r.parent

abbrev pub root_key : TokenRecord → Option Bytes
root_key r = some r.root

unfoldable pub validate_loaded_bounds : Records → Options → Checked
unfolding tally all_entries
validate_loaded_bounds m o = do
  reject (ltb o.max_records (length m)) corrupt_store
  reject (not (all_entries (λ k n. leb n o.max_children_per_token) (tally parent_key [] m)))
      corrupt_store
  reject (not (all_entries (λ k n. leb n o.max_tokens_per_root) (tally root_key [] m)))
      corrupt_store

-- Whether a record is counted under `k`.
abbrev is_key : Bytes → Option Bytes → Bool
is_key k none = false
is_key k (some j) = bytes_eq j k

abbrev counted : (TokenRecord → Option Bytes) → Bytes → TokenRecord → Bool
counted key k r = is_key k (key r)

increment-IsMap : (k : Option Bytes) (counts : Map ℕ) → IsMap counts → IsMap (increment k counts)
unfolding increment
increment-IsMap none counts h = h
increment-IsMap (some k) counts h = put-IsMap k _ counts h

tally-IsMap :
    (key : TokenRecord → Option Bytes) (counts : Map ℕ) (m : Records)
    → IsMap counts
    → IsMap (tally key counts m)
unfolding tally
tally-IsMap key counts [] h = h
tally-IsMap key counts ((j, r) ∷ m) h =
    tally-IsMap key (increment (key r) counts) m (increment-IsMap (key r) counts h)

count_at-tally :
    (key : TokenRecord → Option Bytes) (k : Bytes) (counts : Map ℕ) (m : Records)
    → count_at (lookup k (tally key counts m))
      ≡ count_at (lookup k counts) + count_entries (λ h r. counted key k r) m
unfolding tally count_entries increment
count_at-tally key k counts [] = ground arith
count_at-tally key k counts ((j, r) ∷ m) = elim (Option-cases (key r)) [
  | inl e ↦ rw e (ground (arith, count_at-tally key k counts m))
  | inr (i, e) ↦
      let more = put i (suc (count_at (lookup i counts))) counts in
      rw e (
        ground (
          arith,
          bytes_eq_iff i k,
          lookup-put i k (suc (count_at (lookup i counts))) counts,
          count_at-tally key k more m,
        ))
]

unfoldable pub direct_child_count : Records → Bytes → ℕ
unfolding count_entries
direct_child_count m parent = count_entries (λ h r. bytes_eq r.parent parent && ltb 0 r.depth) m

unfoldable pub root_token_count : Records → Bytes → ℕ
unfolding count_entries
root_token_count m root = count_entries (λ h r. bytes_eq r.root root) m

is_key-only_if : (k j : Bytes) (b : Bool) → is_key k (only_if b j) ≡ (bytes_eq j k && b)
is_key-only_if k j true = ground arith
is_key-only_if k j false = ground arith

children-tally :
    (m : Records) (h : Bytes)
    → count_entries (λ k r. counted parent_key h r) m ≡ direct_child_count m h
unfolding direct_child_count
children-tally m h =
    ap (λ p. count_entries p m)
      (fun_ext λ k. fun_ext λ r. is_key-only_if h r.parent (ltb 0 r.depth))

-- The tally from nothing is within a bound exactly when every count is.
tally-le_iff :
    (key : TokenRecord → Option Bytes) (m : Records) (max : ℕ)
    → (all_entries (λ k n. leb n max) (tally key [] m) ≡ true)
      ↔ ((h : Bytes) → count_entries (λ k r. counted key h r) m ≤ max)
unfolding lookup
tally-le_iff key m max = (
  λ e h. elim (Option-cases (lookup h (tally key [] m))) [
    | inl n ↦ ground (arith, count_at-tally key h [] m)
    | inr (n, f) ↦ ground (
      arith,
      count_at-tally key h [] m,
      all_entries→lookup (λ k n. leb n max) h n (tally key [] m) e f,
    )
  ],
  λ f.
      lookup→all_entries (λ k n. leb n max) (tally key [] m) (tally-IsMap key [] m tt)
        (λ h n e. ground (arith, count_at-tally key h [] m, f h)),
)

-- A store within its resource bounds.
pub record WithinBounds (o : Options) (m : Records) : Type 0 where
  pub total : length m ≤ o.max_records
  pub children : (h : Bytes) → direct_child_count m h ≤ o.max_children_per_token
  pub family : (h : Bytes) → root_token_count m h ≤ o.max_tokens_per_root

-- `validateLoadedBounds` accepts a map of records exactly when there are at most `MaxRecords` of
-- them, no token has more than `MaxChildrenPerToken` children and no root more than
-- `MaxTokensPerRoot` tokens, by the counts that `Delegate` takes.
pub validate_loaded_bounds_iff :
    (m : Records) (o : Options) → (validate_loaded_bounds m o ≡ ok tt) ↔ WithinBounds o m
unfolding validate_loaded_bounds
validate_loaded_bounds_iff m o =
    let children = tally-le_iff parent_key m o.max_children_per_token in
    let roots = tally-le_iff root_key m o.max_tokens_per_root in
    (
      λ e. record {
        total = ground arith;
        children = λ h. let x = children.0 (ground arith) h in ground (arith, children-tally m h);
        family = λ h. unfold root_token_count in roots.0 (ground arith) h;
      },
      λ b.
          let x = children.1 (λ h. let y = b.children h in ground (arith, children-tally m h)) in
          let z = roots.1 (λ h. unfold root_token_count in b.family h) in
          let t = b.total in ground arith,
    )
