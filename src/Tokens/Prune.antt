-- ===== src/Tokens/Prune.antt =====
-- internal/tokens/store.go: `pruneInactive`, which drops every record that can never validate again.
pub mod Rounds
pub mod Keeps
use forcefield.Base.{
  ℕ, zero, suc, ◌+◌, ◌≤◌, ◌<◌, ◌≡◌, refl, sym, subst, ◌∙◌, ◌≢◌, ◌↔◌, ◌⊎◌, inl, inr, Bool, true,
  false, not, ◌&&◌, ◌||◌, Option, none, some, List, [], ◌∷◌, ◌++◌, arith, leb, ltb, ◌==◌,
  if◌then◌else◌, Bool-cases, Option-cases, is_some, Bytes, bytes, bytes_eq, bytes_eq_iff,
  bytes_eq_refl, lookup, length, drop, has_prefix, retain, keep_if, lookup-retain, retain-IsMap,
  EntriesOf, EntriesOf-self, count_entries, count_entries-le, count_entries_strict,
  count_entries_mono,
}
use forcefield.Tokens.Types.{TokenRecord, Records}
use forcefield.Tokens.Lineage.{Linked, IsLinked, ChildOf}
use forcefield.Tokens.Chain.{inactive, Stale, here, above}

abbrev pub is_empty {ℓ} : {A : Type ℓ} → List A → Bool
is_empty [] = true
is_empty (x ∷ xs) = false

-- A set of digests, as `map[tokenHash]struct{}`.
unfoldable pub mem_hash : Bytes → List Bytes → Bool
unfolding bytes_eq
mem_hash h [] = false
mem_hash h (j ∷ s) = bytes_eq j h || mem_hash h s

-- The first loop: the records that are inactive themselves.
unfoldable pub seeds : ℕ → Records → List Bytes
unfolding inactive
seeds now [] = []
seeds now ((h, r) ∷ m) = let rest = seeds now m in if inactive now r then h ∷ rest else rest

-- The test on one record of the second loop.
unfoldable pub newly_removed : Bytes → TokenRecord → List Bytes → Bool
unfolding mem_hash
newly_removed h r remove =
    if mem_hash h remove || r.depth == 0 then false else mem_hash r.parent remove

-- One round of the second loop, over the entries in some order: the set and `changed` after it.
unfoldable pub sweep : Records → List Bytes → List Bytes × Bool
unfolding newly_removed
sweep [] remove = (remove, false)
sweep ((h, r) ∷ m) remove =
    let hit = newly_removed h r remove in
    let (remove', changed) = sweep m (if hit then h ∷ remove else remove) in
    (remove', hit || changed)

-- `for changed := true; changed;`; `none` when the fuel is out.
unfoldable pub spread : ℕ → Records → List Bytes → Option (List Bytes)
unfolding sweep
spread zero m remove = none
spread (suc f) m remove =
    let (remove', changed) = sweep m remove in
    elim changed [ true ↦ spread f m remove' | false ↦ some remove' ]

unfoldable pub kept : Records → Option (List Bytes) → Option (Records × Bool)
unfolding mem_hash
kept m none = none
kept m (some remove) = some (retain (λ h r. not (mem_hash h remove)) m, true)

-- Each round but the last removes a record, so one round more than there are records is enough.
unfoldable pub prune_inactive : Records → ℕ → Option (Records × Bool)
unfolding kept spread seeds
prune_inactive m now =
    let remove = seeds now m in
    if is_empty remove then some (m, false) else kept m (spread (suc (length m)) m remove)
